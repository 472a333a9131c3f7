-- ===== src/Indexer/Batch/Progress.antt =====
-- How IndexBatch of indexer/shared/indexer.go moves the indexer on.
use mathlib.Core.Path.{subst}
use flare_p_chain_indexer.Prelude.{
  ℕ, suc, ◌+◌, ◌-◌, ◌%◌, ◌^◌, ◌<◌, ◌≤◌, ◌≡◌, refl, sym, ap, ◌∙◌, true, false, Option-cases,
  Run-cases, inl, inr, arith, List, [], ◌∷◌, length, ltb, Run, ok, panic, ◌⊎◌, ok-inj, err-ne-ok,
  panic-ne-ok,
}
use flare_p_chain_indexer.Prelude.Maps.{insert, string_eq}
use flare_p_chain_indexer.Exec.{bind-eq-ok, pure, asks, ◌>>◌}
use flare_p_chain_indexer.Database.{State}
use flare_p_chain_indexer.Indexer.Batch.{
  World, ChainIndexerBase, tables_of, with_tables, persist_step, save_step, operations, fetch_state,
  update_state, container_loop, process_containers, on_batch, commit, next_of, index_new,
  index_from, index_batch,
}
use flare_p_chain_indexer.Indexer.Batch.Stored.{fetch_state-world, SameTables}
use flare_p_chain_indexer.Database.Transaction.{IsAtomic, run_operations, do_in_transaction-ok}

module _ {Container Batch Db : Type 0} (ci : ChainIndexerBase Container Batch Db) where
  open ci use {batch_indexer}

  -- the index of the last container
  abbrev last_of : ℕ → ℕ → List Container → ℕ → ℕ
  last_of next i [] index = index
  last_of next i (container ∷ containers) index = (next + (i + length containers)) % 2 ^ 64

  last_of-cons :
      (next i : ℕ) (containers : List Container)
      → last_of next (i + 1) containers ((next + i) % 2 ^ 64)
        ≡ (next + (i + length containers)) % 2 ^ 64
  last_of-cons next i [] = let e : next + i ≡ next + (i + 0) = omega arith in ap (λ n. n % 2 ^ 64) e
  last_of-cons next i (c ∷ containers) =
      let e : next + (i + 1 + length containers) ≡ next + (i + suc (length containers)) =
        omega arith in
      ap (λ n. n % 2 ^ 64) e

  container_loop-last :
      (next i : ℕ) (containers : List Container) (index : ℕ) (b : Batch) {r : ℕ}
      → (container_loop ci next i containers index b).0 ≡ ok r
      → r ≡ last_of next i containers index
  unfolding container_loop
  container_loop-last next i [] index b run = sym (ok-inj run)
  container_loop-last next i (c ∷ containers) index b run =
      let index' = (next + i) % 2 ^ 64 in
      let (done, added, rest) =
        bind-eq-ok (batch_indexer.add_container index' c)
          (λ _. container_loop ci next (i + 1) containers index') b run in
      container_loop-last next (i + 1) containers index' _ rest ∙ last_of-cons next i containers

  process_containers-last :
      (next : ℕ) (containers : List Container) (b : Batch) {r : ℕ}
      → (process_containers ci next containers b).0 ≡ ok r
      → r ≡ last_of next 0 containers 0
  unfolding process_containers
  process_containers-last next containers b run =
      let b' = batch_indexer.reset (length containers) b in
      let (index, looped, rest) =
        bind-eq-ok (container_loop ci next 0 containers 0)
          (λ index. batch_indexer.process_batch >> pure index) b' run in
      let (done, processed, same) =
        bind-eq-ok batch_indexer.process_batch (λ _. pure index) _ rest in
      sym (ok-inj same) ∙ container_loop-last next 0 containers 0 b' looped

  -- The containers from the next index on were processed, and their entities stored together with
  -- the state, which points behind the last of them.
  pub record Indexed (s : State) (last_index : ℕ) (w w' : World Batch Db) : Type 0 where
    pub containers : List Container
    pub last_processed : ℕ
    pub fetched : ci.container_range w (next_of ci s) ci.batch_size ≡ ok containers
    pub processed : (process_containers ci (next_of ci s) containers w.batch).0 ≡ ok last_processed
    pub worked : w'.batch ≡ (process_containers ci (next_of ci s) containers w.batch).1
    pub counted :
        0 < length containers → last_processed ≡ (next_of ci s + (length containers - 1)) % 2 ^ 64
    pub stored : batch_indexer.persist_entities w'.batch w.db ≡ ok w'.db
    pub moved :
        w'.states
        ≡ insert s.name
            (record s {
              next_db_index = (last_processed + 1) % 2 ^ 64;
              last_chain_index = last_index;
              updated = ci.now (record w { batch = w'.batch });
            })
            w.states

  last_of-counted :
      (next : ℕ) (containers : List Container)
      → 0 < length containers
      → last_of next 0 containers 0 ≡ (next + (length containers - 1)) % 2 ^ 64
  last_of-counted next [] h = absurd (omega arith)
  last_of-counted next (c ∷ containers) h =
      let e : next + (0 + length containers) ≡ next + (suc (length containers) - 1) = omega arith in
      ap (λ n. n % 2 ^ 64) e

  record Committed (s : State) (w w' : World Batch Db) : Type 0 where
    batch : w'.batch ≡ w.batch
    stored : batch_indexer.persist_entities w.batch w.db ≡ ok w'.db
    moved : w'.states ≡ insert s.name s w.states

  operations-ok :
      (s : State) (w : World Batch Db)
      → (run_operations (operations ci s w) (tables_of w)).0 ≡ ok tt
      → Committed s w (with_tables w (run_operations (operations ci s w) (tables_of w)).1)
  unfolding run_operations persist_step save_step update_state
  operations-ok s w run = elim (Run-cases (batch_indexer.persist_entities w.batch w.db)) [
    | inr (inl (x, e)) ↦ absurd (err-ne-ok (rw (e, persist_step) at run))
    | inr (inr e) ↦ absurd (panic-ne-ok (rw (e, persist_step) at run))
    | inl (db, p) ↦ elim (Option-cases (ci.save_error (record w { db = db }) s)) [
      | inl e ↦
          rw (p, e, persist_step, save_step, update_state)
            (record { batch = refl; stored = p; moved = refl })
      | inr (x, e) ↦ absurd (err-ne-ok (rw (p, e, persist_step, save_step, update_state) at run))
    ]
  ]

  operations-panic :
      (s : State) (w : World Batch Db)
      → (run_operations (operations ci s w) (tables_of w)).0 ≡ panic
      → batch_indexer.persist_entities w.batch w.db ≡ panic
  unfolding run_operations persist_step save_step update_state
  operations-panic s w run = elim (Run-cases (batch_indexer.persist_entities w.batch w.db)) [
    | inr (inl (x, e)) ↦ cc (rw (e, persist_step) at run)
    | inr (inr e) ↦ e
    | inl (db, p) ↦ elim (Option-cases (ci.save_error (record w { db = db }) s)) [
      | inl e ↦ cc (rw (p, e, persist_step, save_step, update_state) at run)
      | inr (x, e) ↦ cc (rw (p, e, persist_step, save_step, update_state) at run)
    ]
  ]

  -- PersistEntities panicked, and nothing was stored.
  pub record Lost (w w' : World Batch Db) : Type 0 where
    pub panicked : batch_indexer.persist_entities w'.batch w.db ≡ panic
    pub tables : SameTables ci w w'

  commit-Committed :
      (atomic : IsAtomic ci.transactions) (s : State) (w : World Batch Db)
      → (commit ci s w).0 ≡ ok tt
      → Committed s w (commit ci s w).1 ⊎ Lost w (commit ci s w).1
  unfolding commit
  commit-Committed atomic s w run =
      let t = tables_of w in
      elim (do_in_transaction-ok ci.transactions atomic (operations ci s w) t run) [
        | inl (done, after) ↦ inl (rw after (operations-ok s w done))
        | inr (failed, after) ↦ inr (
            rw after (record {
              panicked = operations-panic s w failed;
              tables = record { states = refl; db = refl };
            }))
      ]

  -- The containers were processed, but PersistEntities panicked, and nothing was stored.
  pub record Dropped (s : State) (w w' : World Batch Db) : Type 0 where
    pub containers : List Container
    pub last_processed : ℕ
    pub fetched : ci.container_range w (next_of ci s) ci.batch_size ≡ ok containers
    pub processed : (process_containers ci (next_of ci s) containers w.batch).0 ≡ ok last_processed
    pub lost : Lost w w'

  index_new-Indexed :
      IsAtomic ci.transactions
      → (s : State) (last_index : ℕ) (w : World Batch Db) → (index_new ci s last_index w).0 ≡ ok tt
      → Indexed s last_index w (index_new ci s last_index w).1
        ⊎ Dropped s w (index_new ci s last_index w).1
  unfolding index_new on_batch
  index_new-Indexed atomic s last_index w run =
      let next = next_of ci s in
      let (containers, fetched, run_p) =
        bind-eq-ok (asks (λ v. ci.container_range v next ci.batch_size)) _ w run in
      let (last, processed, run_c) =
        bind-eq-ok (on_batch ci (process_containers ci next containers)) _ w run_p in
      let w' = record w { batch = (process_containers ci next containers w.batch).1 } in
      let s' = record s {
        next_db_index = (last + 1) % 2 ^ 64;
        last_chain_index = last_index;
        updated = ci.now w';
      } in
      let counted = process_containers-last next containers w.batch processed in
      rw (fetched, processed)
        (elim (commit-Committed atomic s' w' run_c) [
          | inl h ↦ inl (record {
            containers = containers;
            last_processed = last;
            fetched = fetched;
            processed = processed;
            worked = h.batch;
            counted = λ some_there. counted ∙ last_of-counted next containers some_there;
            stored = rw h.batch h.stored;
            moved = rw h.batch h.moved;
          })
          | inr h ↦ inr (record {
            containers = containers;
            last_processed = last;
            fetched = fetched;
            processed = processed;
            lost = record {
              panicked = h.panicked;
              tables = record { states = h.tables.states; db = h.tables.db };
            };
          })
        ])

  -- The state of the indexer was stored with the time of the run, and nothing else.
  pub record Idle (s : State) (w w' : World Batch Db) : Type 0 where
    pub touched : w'.states ≡ insert s.name (record s { updated = ci.now w }) w.states
    pub db : w'.db ≡ w.db

  update_state-Idle :
      (s : State) (w : World Batch Db)
      → (update_state ci (record s { updated = ci.now w }) w).0 ≡ ok tt
      → Idle s w (update_state ci (record s { updated = ci.now w }) w).1
  unfolding update_state
  update_state-Idle s w run =
      elim (Option-cases (ci.save_error w (record s { updated = ci.now w }))) [
        | inl e ↦ rw (e, update_state) (record { touched = refl; db = refl })
        | inr (x, e) ↦ absurd (err-ne-ok (rw (e, update_state) at run))
      ]

  -- What a run with success has done.
  pub record Ran (w w' : World Batch Db) : Type 0 where
    pub current_state : State
    pub last_index : ℕ
    pub read : (fetch_state ci w).0 ≡ ok current_state
    pub asked : ci.last_accepted w ≡ ok last_index
    pub indexed :
        next_of ci current_state ≤ last_index
        → Indexed current_state last_index w w' ⊎ Dropped current_state w w'
    pub idle : last_index < next_of ci current_state → Idle current_state w w'

  index_from-idle :
      (s : State) (last : ℕ) (w : World Batch Db)
      → ltb last (next_of ci s) ≡ true
      → index_from ci s last w ≡ update_state ci (record s { updated = ci.now w }) w
  unfolding index_from
  index_from-idle s last w h = rw h refl

  index_from-new :
      (s : State) (last : ℕ) (w : World Batch Db)
      → ltb last (next_of ci s) ≡ false
      → index_from ci s last w ≡ index_new ci s last w
  unfolding index_from
  index_from-new s last w h = rw h refl

  index_batch-from :
      (s : State) (last : ℕ) (w : World Batch Db)
      → (fetch_state ci w).0 ≡ ok s
      → ci.last_accepted w ≡ ok last
      → index_batch ci w ≡ index_from ci s last w
  unfolding index_batch
  index_batch-from s last w read asked = rw (read, fetch_state-world ci w, asked) refl

  -- If gorm's transactions are atomic, IndexBatch succeeds, and the chain has a container that is not
  -- indexed, then the containers from the next index on were processed, and their entities stored
  -- with a state that points behind the last of them, or PersistEntities panicked and nothing was
  -- stored; if the chain has none, only the time of the state is new.
  pub index_batch-Ran :
      IsAtomic ci.transactions
      → (w : World Batch Db) → (index_batch ci w).0 ≡ ok tt
      → Ran w (index_batch ci w).1
  unfolding index_batch
  index_batch-Ran atomic w run =
      let (s, read, run_l) = bind-eq-ok (fetch_state ci) _ w run in
      let (last, asked, run_n) = bind-eq-ok (asks ci.last_accepted) _ (fetch_state ci w).1 run_l in
      let asked' = rw (fetch_state-world ci w) at asked in
      let whole = index_batch-from s last w read asked' in
      let ended = ap (λ (p : Run (Unit {0}) × World Batch Db). p.0) (sym whole) ∙ run in
      record {
        current_state = s;
        last_index = last;
        read = read;
        asked = asked';
        indexed = λ ahead.
            let e = index_from-new s last w (ground arith) in
            subst (λ (p : Run (Unit {0}) × World Batch Db). Indexed s last w p.1 ⊎ Dropped s w p.1)
              (sym (whole ∙ e))
              (index_new-Indexed atomic s last w
                (ap (λ (p : Run (Unit {0}) × World Batch Db). p.0) (sym e) ∙ ended));
        idle = λ behind.
            let e = index_from-idle s last w (ground arith) in
            subst (λ (p : Run (Unit {0}) × World Batch Db). Idle s w p.1) (sym (whole ∙ e))
              (update_state-Idle s w
                (ap (λ (p : Run (Unit {0}) × World Batch Db). p.0) (sym e) ∙ ended));
      }
