-- ===== src/Database/Transaction.antt =====
-- DoInTransaction of database/utils.go. gorm's transactions are a parameter.
use flare_p_chain_indexer.Prelude.{
  ◌≡◌, refl, sym, ◌⊎◌, inl, inr, Option, none, some, Option-cases, List, [], ◌∷◌, Run, ok, err,
  panic, Error, err-ne-ok,
}
use flare_p_chain_indexer.Exec.{Exec, pure, ◌>>◌}

-- What gorm makes of the tables: from the tables at `Begin` and those inside the transaction, the
-- tables after `Rollback`, and the error of `Commit` with the tables after it.
pub record Transactions (Db : Type 0) : Type 0 where
  pub rollback : Db → Db → Db
  pub commit : Db → Db → Option Error × Db

-- What the documentation of gorm says: a transaction that is rolled back, or whose commit fails,
-- leaves no trace, and one that is committed leaves all of its changes.
pub record IsAtomic {Db : Type 0} (g : Transactions Db) : Type 0 where
  pub rolled_back : (before inside : Db) → g.rollback before inside ≡ before
  pub committed :
      (before inside : Db) → (g.commit before inside).0 ≡ none → (g.commit before inside).1 ≡ inside
  pub refused :
      (before inside : Db) {e : Error}
      → (g.commit before inside).0 ≡ some e
      → (g.commit before inside).1 ≡ before

module _ {Db : Type 0} where
  -- the loop over the operations
  unfoldable pub run_operations : List (Exec Db (Unit {0})) → Exec Db (Unit {0})
  run_operations [] = pure tt
  run_operations (f ∷ operations) = f >> run_operations operations

  module _ (g : Transactions Db) where
    -- The end of the transaction. A panic is recovered, and the function then returns `nil`.
    unfoldable pub finish : Db → Run (Unit {0}) → Db → Run (Unit {0}) × Db
    finish before (ok _) inside =
        let (failure, after) = g.commit before inside in
        (elim failure [ none ↦ ok tt | some e ↦ err e ], after)
    finish before (err e) inside = (err e, g.rollback before inside)
    finish before panic inside = (ok tt, g.rollback before inside)

    unfoldable pub do_in_transaction : List (Exec Db (Unit {0})) → Exec Db (Unit {0})
    unfolding run_operations finish
    do_in_transaction operations tx =
        let (r, inside) = run_operations operations tx in finish tx r inside

    module _ (atomic : IsAtomic g) where
      finish-err :
          (before : Db) (r : Run (Unit {0})) (inside : Db) {e : Error}
          → (finish before r inside).0 ≡ err e
          → (finish before r inside).1 ≡ before
      unfolding finish
      finish-err before (ok u) inside run = elim (Option-cases (g.commit before inside).0) [
        | inl done ↦ absurd (err-ne-ok (sym (rw done at run)))
        | inr (x, failed) ↦ atomic.refused before inside failed
      ]
      finish-err before (err x) inside run = atomic.rolled_back before inside
      finish-err before panic inside run = atomic.rolled_back before inside

      -- Without a success the tables are as they were.
      pub do_in_transaction-err :
          (operations : List (Exec Db (Unit {0}))) (tx : Db) {e : Error}
          → (do_in_transaction operations tx).0 ≡ err e
          → (do_in_transaction operations tx).1 ≡ tx
      unfolding do_in_transaction
      do_in_transaction-err operations tx run = finish-err tx _ _ run

      finish-panic :
          (before : Db) (r : Run (Unit {0})) (inside : Db) → ¬ ((finish before r inside).0 ≡ panic)
      unfolding finish
      finish-panic before (ok u) inside run = elim (Option-cases (g.commit before inside).0) [
        | inl done ↦ cc (rw done at run)
        | inr (x, failed) ↦ cc (rw failed at run)
      ]
      finish-panic before (err x) inside run = cc
      finish-panic before panic inside run = cc

      -- A transaction never panics.
      pub do_in_transaction-no_panic :
          (operations : List (Exec Db (Unit {0}))) (tx : Db)
          → ¬ ((do_in_transaction operations tx).0 ≡ panic)
      unfolding do_in_transaction
      do_in_transaction-no_panic operations tx run = finish-panic tx _ _ run

      finish-ok :
          (before : Db) (r : Run (Unit {0})) (inside : Db)
          → (finish before r inside).0 ≡ ok tt
          → ((r ≡ ok tt) × ((finish before r inside).1 ≡ inside))
            ⊎ ((r ≡ panic) × ((finish before r inside).1 ≡ before))
      unfolding finish
      finish-ok before (ok u) inside run = elim (Option-cases (g.commit before inside).0) [
        | inl done ↦ inl (refl, atomic.committed before inside done)
        | inr (x, failed) ↦ absurd (err-ne-ok (rw failed at run))
      ]
      finish-ok before (err x) inside run = absurd (err-ne-ok run)
      finish-ok before panic inside run = inr (refl, atomic.rolled_back before inside)

      -- A success: all operations were done, or one panicked and nothing was.
      pub do_in_transaction-ok :
          (operations : List (Exec Db (Unit {0}))) (tx : Db)
          → (do_in_transaction operations tx).0 ≡ ok tt
          → (((run_operations operations tx).0 ≡ ok tt)
              × ((do_in_transaction operations tx).1 ≡ (run_operations operations tx).1))
            ⊎ (((run_operations operations tx).0 ≡ panic)
                × ((do_in_transaction operations tx).1 ≡ tx))
      unfolding do_in_transaction
      do_in_transaction-ok operations tx run = finish-ok tx _ _ run
