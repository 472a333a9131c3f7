-- ===== src/Indexer/Batch/Stored.antt =====
-- What IndexBatch of indexer/shared/indexer.go stores.
use flare_p_chain_indexer.Prelude.{
  ℕ, ◌≡◌, refl, ap, ◌∙◌, Error, Bool, true, false, Option-cases, inl, inr, arith, ltb,
  if◌then◌else◌, Run, ok, err, panic,
}
use flare_p_chain_indexer.Prelude.Maps.{string_eq}
use flare_p_chain_indexer.Exec.{Exec, continue}
use flare_p_chain_indexer.Database.{State}
use flare_p_chain_indexer.Database.Transaction.{
  IsAtomic, do_in_transaction, do_in_transaction-err, do_in_transaction-no_panic,
}
use flare_p_chain_indexer.Indexer.Batch.{
  World, ChainIndexerBase, Tables, tables_of, with_tables, operations, fetch_state, update_state,
  process_containers, on_batch, commit, next_of, index_new, index_from, index_batch,
}

module _ {Container Batch Db : Type 0} (ci : ChainIndexerBase Container Batch Db) where
  open ci use {batch_indexer}

  -- The tables of the database are as they were.
  pub record SameTables (w w' : World Batch Db) : Type 0 where
    pub states : w'.states ≡ w.states
    pub db : w'.db ≡ w.db

  -- Without a success the tables are as they were.
  abbrev pub Failed : {A : Type 0} → World Batch Db → Run A × World Batch Db → Type 0
  Failed w (ok a, w') = Unit
  Failed w (err e, w') = SameTables w w'
  Failed w (panic, w') = SameTables w w'

  SameTables-trans : {u v w : World Batch Db} → SameTables u v → SameTables v w → SameTables u w
  SameTables-trans h k = record { states = k.states ∙ h.states; db = k.db ∙ h.db }

  continue-Failed :
      {A B : Type 0} (r : Run A) (f : A → Exec (World Batch Db) B) (u w : World Batch Db)
      → SameTables u w
      → ((a : A) → Failed u (f a w))
      → Failed u (continue r f w)
  continue-Failed (ok a) f u w h k = k a
  continue-Failed (err e) f u w h k = h
  continue-Failed panic f u w h k = h

  if-Failed :
      {A : Type 0} (b : Bool) (m n : Exec (World Batch Db) A) (u w : World Batch Db)
      → Failed u (m w)
      → Failed u (n w)
      → Failed u ((if b then m else n) w)
  if-Failed true m n u w h k = h
  if-Failed false m n u w h k = k

  update_state-Failed :
      (s : State) (u w : World Batch Db) → SameTables u w → Failed u (update_state ci s w)
  unfolding update_state
  update_state-Failed s u w h = elim (Option-cases (ci.save_error w s)) [
    | inl e ↦ rw (e, Failed, update_state) tt
    | inr (x, e) ↦ rw (e, Failed, update_state) h
  ]

  commit-Failed :
      (atomic : IsAtomic ci.transactions) (s : State) (u w : World Batch Db)
      → SameTables u w
      → Failed u (commit ci s w)
  unfolding commit
  commit-Failed atomic s u w h =
      let run = do_in_transaction ci.transactions (operations ci s w) (tables_of w) in
      same_tables run.0 run.1
        (λ e failed.
          do_in_transaction-err ci.transactions atomic (operations ci s w) (tables_of w) failed)
        (do_in_transaction-no_panic ci.transactions atomic (operations ci s w) (tables_of w))
    where
      same_tables :
          (r : Run (Unit {0})) (t : Tables Db)
          → ((e : Error) → r ≡ err e → t ≡ tables_of w)
          → ¬ (r ≡ panic)
          → Failed u (r, with_tables w t)
      same_tables (ok a) t same no_panic = tt
      same_tables (err e) t same no_panic = record {
        states = ap (λ (x : Tables Db). x.0) (same e refl) ∙ h.states;
        db = ap (λ (x : Tables Db). x.1) (same e refl) ∙ h.db;
      }
      same_tables panic t same no_panic = absurd (no_panic refl)

  index_new-Failed :
      (atomic : IsAtomic ci.transactions) (s : State) (last_index : ℕ) (u w : World Batch Db)
      → SameTables u w
      → Failed u (index_new ci s last_index w)
  unfolding index_new on_batch
  index_new-Failed atomic s last_index u w h =
      continue-Failed (ci.container_range w (next_of ci s) ci.batch_size) _ u w h λ containers.
        let w' = record w { batch = (process_containers ci (next_of ci s) containers w.batch).1 } in
        let h' : SameTables u w' = record { states = h.states; db = h.db } in
        continue-Failed (process_containers ci (next_of ci s) containers w.batch).0 _ u w' h'
          λ last. commit-Failed atomic _ u w' h'

  pub fetch_state-world : (w : World Batch Db) → (fetch_state ci w).1 ≡ w
  unfolding fetch_state
  fetch_state-world w = ground arith

  -- If gorm's transactions are atomic, and IndexBatch returns an error or panics, then the tables of
  -- the database are as they were: neither entities nor the state of the indexer are stored.
  pub index_batch-Failed :
      IsAtomic ci.transactions → (w : World Batch Db) → Failed w (index_batch ci w)
  unfolding index_batch index_from
  index_batch-Failed atomic w =
      let here : SameTables w (fetch_state ci w).1 =
        rw (fetch_state-world w) (record { states = refl; db = refl }) in
      let w' = (fetch_state ci w).1 in
      continue-Failed (fetch_state ci w).0 _ w w' here λ s.
        continue-Failed (ci.last_accepted w') _ w w' here λ last_index.
          if-Failed (ltb last_index (next_of ci s)) _ _ w w'
            (update_state-Failed (record s { updated = ci.now w' }) w w' here)
            (index_new-Failed atomic s last_index w w' here)
