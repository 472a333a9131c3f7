-- ===== src/Tests/Batches.antt =====
-- Runs of IndexBatch on a chain of numbers, whose entities are the numbers.
use flare_p_chain_indexer.Prelude.{
  ℕ, ◌+◌, ◌≡◌, refl, none, List, [], ◌∷◌, ◌++◌, ok, err, errorf, Run, panic,
}
use flare_p_chain_indexer.Prelude.Int.{pos}
use flare_p_chain_indexer.Prelude.Maps.{insert, lookup}
use flare_p_chain_indexer.Database.{State}
use flare_p_chain_indexer.Database.Transaction.{Transactions, IsAtomic, do_in_transaction}
use flare_p_chain_indexer.Indexer.Batch.{
  ContainerBatchIndexer, World, ChainIndexerBase, fetch_state, container_loop, process_containers,
  on_batch, commit, next_of, index_from, index_new, index_batch,
}
use flare_p_chain_indexer.Indexer.Batch.Stored.{Failed, index_batch-Failed}
use flare_p_chain_indexer.Indexer.Batch.Progress.{Ran, index_batch-Ran}

abbrev numbers : (List ℕ → List ℕ → Run (List ℕ)) → ContainerBatchIndexer ℕ (List ℕ) (List ℕ)
numbers persist = record {
  reset = λ n batch. [];
  add_container = λ index container batch. (ok tt, batch ++ container ∷ []);
  process_batch = λ batch. (ok tt, batch);
  persist_entities = persist;
}

-- transactions that always commit
abbrev pub atomic : {Db : Type 0} → Transactions Db
atomic = record { rollback = λ before inside. before; commit = λ before inside. (none, inside) }

abbrev pub atomic-IsAtomic : {Db : Type 0} → IsAtomic (atomic {Db = Db})
atomic-IsAtomic = record {
  rolled_back = λ before inside. refl;
  committed = λ before inside h. refl;
  refused = λ before inside h. cc;
}

abbrev indexer_of : (List ℕ → List ℕ → Run (List ℕ)) → ChainIndexerBase ℕ (List ℕ) (List ℕ)
indexer_of persist = record {
  state_name = "p_chain_block";
  start_index = 3;
  batch_size = 2;
  batch_indexer = numbers persist;
  now = λ w. pos 50;
  fetch_error = λ w. none;
  save_error = λ w s. none;
  last_accepted = λ w. ok 9;
  container_range = λ w next size. ok ((next + 100) ∷ (next + 101) ∷ []);
  transactions = atomic;
}

abbrev indexer : ChainIndexerBase ℕ (List ℕ) (List ℕ)
indexer = indexer_of (λ batch db. ok (db ++ batch))

abbrev broken : ChainIndexerBase ℕ (List ℕ) (List ℕ)
broken = indexer_of (λ batch db. err (errorf "database is down"))

abbrev state_at : ℕ → State
state_at next = record {
  name = "p_chain_block";
  next_db_index = next;
  last_chain_index = 4;
  updated = pos 40;
}

abbrev world : World (List ℕ) (List ℕ)
world = record { states = ("p_chain_block", state_at 5) ∷ []; db = []; batch = [] }

ran : (index_batch indexer world).0 ≡ ok tt
unfolding index_batch fetch_state lookup next_of on_batch process_containers container_loop commit
    do_in_transaction insert index_from index_new
ran = refl

stored : (index_batch indexer world).1.db ≡ 105 ∷ 106 ∷ []
unfolding index_batch fetch_state lookup next_of on_batch process_containers container_loop commit
    do_in_transaction insert index_from index_new
stored = refl

index_batch-Ran_example : Ran indexer world (index_batch indexer world).1
index_batch-Ran_example = index_batch-Ran indexer atomic-IsAtomic world ran

failed : (index_batch broken world).0 ≡ err (errorf "database is down")
unfolding index_batch fetch_state lookup next_of on_batch process_containers container_loop commit
    do_in_transaction insert index_from index_new
failed = refl

index_batch-Failed_example : Failed broken world (index_batch broken world)
index_batch-Failed_example = index_batch-Failed broken atomic-IsAtomic world

-- a PersistEntities that panics: the run succeeds, and nothing is stored
abbrev panicking : ChainIndexerBase ℕ (List ℕ) (List ℕ)
panicking = indexer_of (λ batch db. panic)

swallowed : (index_batch panicking world).0 ≡ ok tt
unfolding index_batch fetch_state lookup next_of on_batch process_containers container_loop commit
    do_in_transaction insert index_from index_new
swallowed = refl

nothing_stored : (index_batch panicking world).1.db ≡ []
unfolding index_batch fetch_state lookup next_of on_batch process_containers container_loop commit
    do_in_transaction insert index_from index_new
nothing_stored = refl
