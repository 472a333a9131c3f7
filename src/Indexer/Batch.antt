-- ===== src/Indexer/Batch.antt =====
-- indexer/shared/indexer.go: a batch of containers is read from the chain and stored with the state
-- of the indexer. The indexer of one chain is an interface, the node and the clock are parameters.
pub mod Stored
pub mod Progress
use Prim.Native.String.{String}
use flare_p_chain_indexer.Prelude.{
  ℕ, zero, suc, ◌+◌, ◌%◌, ◌^◌, Bool, true, false, Option, none, some, List, [], ◌∷◌, length, ltb,
  if◌then◌else◌, Run, ok, err, panic, Error, errorf, or_else,
}
use flare_p_chain_indexer.Prelude.Time.{Time}
use flare_p_chain_indexer.Prelude.Maps.{Assoc, lookup, insert, string_eq}
use flare_p_chain_indexer.Exec.{Exec, pure, lift, asks, ◌>>=◌, ◌>>◌}
use flare_p_chain_indexer.Database.{State}
use flare_p_chain_indexer.Database.Transaction.{Transactions, do_in_transaction}

-- `ContainerBatchIndexer`
pub record ContainerBatchIndexer (Container Batch Db : Type 0) : Type 0 where
  pub reset : ℕ → Batch → Batch
  pub add_container : ℕ → Container → Exec Batch (Unit {0})
  pub process_batch : Exec Batch (Unit {0})
  pub persist_entities : Batch → Db → Run Db

pub record World (Batch Db : Type 0) : Type 0 where
  pub states : Assoc String State
  pub db : Db
  pub batch : Batch

-- the tables on which the transaction acts
abbrev pub Tables : Type 0 → Type 0
Tables Db = Assoc String State × Db

abbrev pub tables_of : {Batch Db : Type 0} → World Batch Db → Tables Db
tables_of w = (w.states, w.db)

abbrev pub with_tables : {Batch Db : Type 0} → World Batch Db → Tables Db → World Batch Db
with_tables w t = record w { states = t.0; db = t.1 }

-- `ChainIndexerBase`, with the answers of the node, the clock and the state table
pub record ChainIndexerBase (Container Batch Db : Type 0) : Type 0 where
  pub state_name : String
  pub start_index : ℕ
  pub batch_size : ℕ
  pub batch_indexer : ContainerBatchIndexer Container Batch Db
  pub now : World Batch Db → Time
  pub fetch_error : World Batch Db → Option Error
  pub save_error : World Batch Db → State → Option Error
  pub last_accepted : World Batch Db → Run ℕ
  pub container_range : World Batch Db → ℕ → ℕ → Run (List Container)
  pub transactions : Transactions (Tables Db)

module _ {Container Batch Db : Type 0} (ci : ChainIndexerBase Container Batch Db) where
  open ci use {batch_indexer}

  abbrev Job : Type 0 → Type 0
  Job A = Exec (World Batch Db) A

  unfoldable pub fetch_state : Job State
  fetch_state w = elim (ci.fetch_error w) [
    | some e ↦ (err e, w)
    | none ↦ (or_else (lookup ci.state_name w.states) (err (errorf "record not found")), w)
  ]

  unfoldable pub update_state : State → Job (Unit {0})
  update_state s w = elim (ci.save_error w s) [
    | some e ↦ (err e, w)
    | none ↦ (ok tt, record w { states = insert s.name s w.states })
  ]

  -- the loop of ProcessContainers at its `i`-th round, with the last `index`
  unfoldable pub container_loop : ℕ → ℕ → List Container → ℕ → Exec Batch ℕ
  container_loop next_index i [] index = pure index
  container_loop next_index i (container ∷ containers) index =
      let index' = (next_index + i) % 2 ^ 64 in
      batch_indexer.add_container index' container
      >> container_loop next_index (i + 1) containers index'

  unfoldable pub process_containers : ℕ → List Container → Exec Batch ℕ
  process_containers next_index containers b =
      (container_loop next_index 0 containers 0 >>= λ index.
      batch_indexer.process_batch >> pure index)
        (batch_indexer.reset (length containers) b)

  unfoldable pub on_batch : {A : Type 0} → Exec Batch A → Job A
  on_batch m w = let (r, b) = m w.batch in (r, record w { batch = b })

  -- the first operation of the transaction, on the tables
  unfoldable pub persist_step : Batch → Exec (Tables Db) (Unit {0})
  persist_step b t = elim (batch_indexer.persist_entities b t.1) [
    | ok db ↦ (ok tt, (t.0, db))
    | err e ↦ (err e, t)
    | panic ↦ (panic, t)
  ]

  -- the second operation
  unfoldable pub save_step : State → World Batch Db → Exec (Tables Db) (Unit {0})
  unfolding update_state
  save_step s w t = let (r, w') = update_state s (with_tables w t) in (r, tables_of w')

  abbrev pub operations : State → World Batch Db → List (Exec (Tables Db) (Unit {0}))
  operations s w = persist_step w.batch ∷ save_step s w ∷ []

  -- the transaction of IndexBatch
  unfoldable pub commit : State → Job (Unit {0})
  unfolding persist_step save_step
  commit s w =
      let (r, t) = do_in_transaction ci.transactions (operations s w) (tables_of w) in
      (r, with_tables w t)

  unfoldable pub next_of : State → ℕ
  next_of s = if ltb s.next_db_index ci.start_index then ci.start_index else s.next_db_index

  -- the rest of IndexBatch, when the chain has new containers
  unfoldable pub index_new : State → ℕ → Job (Unit {0})
  index_new s last_index = do
    containers ← asks (λ w. ci.container_range w (next_of s) ci.batch_size)
    last_processed ← on_batch (process_containers (next_of s) containers)
    now ← asks (λ w. ok (ci.now w))
    commit (record s {
      next_db_index = (last_processed + 1) % 2 ^ 64;
      last_chain_index = last_index;
      updated = now;
    })

  -- the rest of IndexBatch, from the state and the last accepted index on
  unfoldable pub index_from : State → ℕ → Job (Unit {0})
  index_from s last_index = do
    now ← asks (λ w. ok (ci.now w))
    if ltb last_index (next_of s)
        then update_state (record s { updated = now })
        else index_new s last_index

  unfoldable pub index_batch : Job (Unit {0})
  index_batch = do
    current_state ← fetch_state
    last_index ← asks ci.last_accepted
    index_from current_state last_index
