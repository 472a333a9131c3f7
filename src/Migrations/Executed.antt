-- ===== src/Migrations/Executed.antt =====
-- What ExecuteAll of indexer/migrations/container.go executes.
use Prim.Native.String.{String}
use mathlib.Core.Logic.Or
use mathlib.Core.Logic.{∥∥₁_map}
use mathlib.Core.List.{append-nil, append_assoc, mem-cons, not-mem-nil}
use mathlib.Core.List.Perm
use flare_p_chain_indexer.Prelude.{
  ◌≡◌, refl, sym, ap, ◌∙◌, false, not, inl, inr, Bool-cases, Option-cases, List, [], ◌∷◌, ◌++◌, map,
  rows_where, Mem, Run, ok, err, ok-inj, Error, errorf, wrap, panic, err-ne-ok, panic-ne-ok,
}
use flare_p_chain_indexer.Prelude.Order.{sort_by, sort_by-perm}
use flare_p_chain_indexer.Prelude.Str.{str_order}
use flare_p_chain_indexer.Prelude.Maps.{contains, string_eq}
use flare_p_chain_indexer.Exec.{bind-eq-ok, bind-run, lift, fail, ◌>>=◌, ◌>>◌}
use flare_p_chain_indexer.Migrations.{
  is_completed, completed, pending, failed, DbMigration, Migration, World, Env, save_last,
  version_of, executed_versions, row_of, run_code, fetch_migrations, create_migration,
  update_migration, after_code, execute_migration, execute_loop, execute_all,
}

save_last-append :
    (m row : DbMigration) (rows : List DbMigration)
    → save_last m (rows ++ row ∷ []) ≡ rows ++ m ∷ []
unfolding save_last
save_last-append m row [] = refl
save_last-append m row (a ∷ []) = refl
save_last-append m row (a ∷ b ∷ rows) = ap (λ l. a ∷ l) (save_last-append m row (b ∷ rows))

executed_versions-blocked :
    (rows : List DbMigration) (m : DbMigration)
    → Mem m rows
    → is_completed m.status ≡ false
    → ∥ ((e : Error) × (executed_versions rows ≡ err e)) ∥₁
unfolding executed_versions
executed_versions-blocked [] m inside open_ = absurd (not-mem-nil inside)
executed_versions-blocked (r ∷ rows) m inside open_ = elim (Bool-cases (is_completed r.status)) [
  | inr other ↦ ∣ (errorf "there is a PENDING or FAILED migration", rw other refl) ∣₁
  | inl done ↦
      Or.elim squash₁ (mem-cons.0 inside) (λ same. cc (rw same at open_, done))
        (λ rest.
          ∥∥₁_map (executed_versions-blocked rows m rest open_)
            (λ (e, refused). (e, rw (done, refused) refl)))
]

module _ {Db : Type 0} where
  -- The codes of the migrations were run one after the other, and each succeeded.
  abbrev pub AreApplied : List (Migration Db) → Db → Db → Type 0
  AreApplied [] db db' = db' ≡ db
  AreApplied (m ∷ migrations) db db' =
      ((m.code db).0 ≡ ok tt) × AreApplied migrations (m.code db).1 db'

  abbrev pub completed_row : Migration Db → DbMigration
  completed_row m = row_of m completed

  -- the versions of the table that a run reads, and what it does with the others
  pub record Executed (env : Env Db) (migrations : List (Migration Db)) (w w' : World Db)
      : Type 0 where
    pub versions : List String
    pub read : executed_versions (sort_by env.collation version_of w.migrations) ≡ ok versions
    pub missing : List (Migration Db)
    pub chosen :
        missing
        ≡ rows_where
            (λ (m : Migration Db). not (contains versions m.version))
            (sort_by str_order (λ (m : Migration Db). m.version) migrations)
    pub applied : AreApplied missing w.db w'.db
    pub recorded : w'.migrations ≡ w.migrations ++ map completed_row missing

  module _ (env : Env Db) where
    create_migration-run :
        (m : DbMigration) (w : World Db)
        → (create_migration env m w).0 ≡ ok tt
        → create_migration env m w ≡ (ok tt, record w { migrations = w.migrations ++ m ∷ [] })
    unfolding create_migration
    create_migration-run m w run = elim (Option-cases (env.create_error w m)) [
      | inl works ↦ rw (works, create_migration) refl
      | inr (x, fails) ↦ absurd (err-ne-ok (rw (fails, create_migration) at run))
    ]

    update_migration-run :
        (m : DbMigration) (w : World Db)
        → (update_migration env m w).0 ≡ ok tt
        → update_migration env m w ≡ (ok tt, record w { migrations = save_last m w.migrations })
    unfolding update_migration
    update_migration-run m w run = elim (Option-cases (env.update_error w m)) [
      | inl works ↦ rw (works, update_migration) refl
      | inr (x, fails) ↦ absurd (err-ne-ok (rw (fails, update_migration) at run))
    ]

    after_code-run :
        (m : Migration Db) (r : Run (Unit {0})) (w : World Db)
        → (after_code env m r w).0 ≡ ok tt
        → (r ≡ ok tt)
          × (after_code env m r w
              ≡ (ok tt, record w { migrations = save_last (completed_row m) w.migrations }))
    unfolding after_code
    after_code-run m (ok u) w run = (refl, update_migration-run (completed_row m) w run)
    after_code-run m (err e) w run =
        let (u, updated, wrong) =
          bind-eq-ok (update_migration env (row_of m failed)) (λ _. fail (wrap _ e)) w run in
        absurd (err-ne-ok wrong)
    after_code-run m panic w run = absurd (panic-ne-ok run)

    -- A migration that succeeds is recorded as completed.
    execute_migration-run :
        (m : Migration Db) (w : World Db)
        → (execute_migration env m w).0 ≡ ok tt
        → ((m.code w.db).0 ≡ ok tt)
          × ((execute_migration env m w).1 ≡ record w {
            db = (m.code w.db).1;
            migrations = w.migrations ++ completed_row m ∷ [];
          })
    unfolding execute_migration run_code
    execute_migration-run m w run =
        let coded = run_code m >>= after_code env m in
        let first = create_migration env (row_of m pending) in
        let (u, created, rest) = bind-eq-ok first (λ _. coded) w run in
        let made = create_migration-run (row_of m pending) w created in
        let w₁ : World Db = record w {
          db = (m.code w.db).1;
          migrations = w.migrations ++ row_of m pending ∷ [];
        } in
        let whole : execute_migration env m w ≡ after_code env m (m.code w.db).0 w₁ =
          bind-run first (λ _. coded) w created
          ∙ ap (λ (p : Run (Unit {0}) × World Db). coded p.1) made in
        let (succeeded, after) =
          after_code-run m (m.code w.db).0 w₁
            (ap (λ (p : Run (Unit {0}) × World Db). p.0) (sym whole) ∙ run) in
        (
          succeeded,
          ap (λ (p : Run (Unit {0}) × World Db). p.1) (whole ∙ after)
              ∙ ap (λ (l : List DbMigration). record w { db = (m.code w.db).1; migrations = l })
                  (save_last-append (completed_row m) (row_of m pending) w.migrations),
        )

    fetch_migrations-run :
        (w : World Db) {rows : List DbMigration}
        → (fetch_migrations env w).0 ≡ ok rows
        → (sort_by env.collation version_of w.migrations ≡ rows) × ((fetch_migrations env w).1 ≡ w)
    unfolding fetch_migrations
    fetch_migrations-run w run = elim (Option-cases (env.fetch_error w)) [
      | inl works ↦
          rw (works, fetch_migrations) (ok-inj (rw (works, fetch_migrations) at run), refl)
      | inr (x, fails) ↦ absurd (err-ne-ok (rw (fails, fetch_migrations) at run))
    ]

    -- what the loop does
    record Loop (versions : List String) (migrations : List (Migration Db)) (w w' : World Db)
        : Type 0 where
      missing : List (Migration Db)
      chosen :
          missing ≡ rows_where (λ (m : Migration Db). not (contains versions m.version)) migrations
      applied : AreApplied missing w.db w'.db
      recorded : w'.migrations ≡ w.migrations ++ map completed_row missing

    execute_loop-Loop :
        (versions : List String) (migrations : List (Migration Db)) (w : World Db)
        → (execute_loop env versions migrations w).0 ≡ ok tt
        → Loop versions migrations w (execute_loop env versions migrations w).1
    unfolding execute_loop
    execute_loop-Loop versions [] w run = record {
      missing = [];
      chosen = refl;
      applied = refl;
      recorded = sym (append-nil w.migrations);
    }
    execute_loop-Loop versions (m ∷ migrations) w run =
        elim (Bool-cases (contains versions m.version)) [
          | inl there ↦
              let h = execute_loop-Loop versions migrations w (rw there at run) in
              rw there (record {
                missing = h.missing;
                chosen = rw there h.chosen;
                applied = h.applied;
                recorded = h.recorded;
              })
          | inr new ↦
              let rest = execute_loop env versions migrations in
              let run' : ((execute_migration env m >> rest) w).0 ≡ ok tt = rw new at run in
              let (u, executed, run_r) = bind-eq-ok (execute_migration env m) (λ _. rest) w run' in
              let (coded, made) = execute_migration-run m w executed in
              let h = execute_loop-Loop versions migrations _ (rw made at run_r) in
              let whole : execute_loop env versions (m ∷ migrations) w ≡ rest _ =
                rw new (bind-run (execute_migration env m) (λ _. rest) w executed ∙ ap rest made) in
              rw whole (record {
                missing = m ∷ h.missing;
                chosen = rw new (ap (λ l. m ∷ l) h.chosen);
                applied = (coded, h.applied);
                recorded =
                    h.recorded
                    ∙ append_assoc w.migrations (completed_row m ∷ [])
                        (map completed_row h.missing);
              })
        ]

    -- If ExecuteAll succeeds, then the migrations whose version was not in the table were executed,
    -- in the order of their versions, each on what the one before it left and with success, and
    -- exactly they were recorded, as completed.
    pub execute_all-Executed :
        (migrations : List (Migration Db)) (w : World Db)
        → (execute_all env migrations w).0 ≡ ok tt
        → Executed env migrations w (execute_all env migrations w).1
    unfolding execute_all
    execute_all-Executed migrations w run =
        let sorted = sort_by str_order (λ (m : Migration Db). m.version) migrations in
        let (rows, fetched, run_v) = bind-eq-ok (fetch_migrations env) _ w run in
        let made = fetch_migrations-run w fetched in
        let (versions, read, run_l) =
          bind-eq-ok (lift (executed_versions rows)) (λ v. execute_loop env v sorted)
            (fetch_migrations env w).1 run_v in
        let all : executed_versions (sort_by env.collation version_of w.migrations) ≡ ok versions =
          ap executed_versions made.0 ∙ read in
        let h = execute_loop-Loop versions sorted w (rw made.1 at run_l) in
        rw (fetched, made.1, read)
          (record {
            versions = versions;
            read = all;
            missing = h.missing;
            chosen = h.chosen;
            applied = h.applied;
            recorded = h.recorded;
          })

    -- While a migration stands in the table that is not completed, ExecuteAll executes nothing,
    -- changes nothing, and returns an error.
    pub execute_all-blocked :
        (migrations : List (Migration Db)) (w : World Db) (m : DbMigration)
        → Mem m w.migrations
        → is_completed m.status ≡ false
        → ∥ ((e : Error) × (execute_all env migrations w ≡ (err e, w))) ∥₁
    unfolding execute_all fetch_migrations
    execute_all-blocked migrations w m inside open_ = elim (Option-cases (env.fetch_error w)) [
      | inr (x, fails) ↦ ∣ (x, rw (fails, fetch_migrations) refl) ∣₁
      | inl works ↦
          let sorted = sort_by env.collation version_of w.migrations in
          let there : Mem m sorted =
            (Perm.mem_iff (sort_by-perm env.collation version_of w.migrations)).1 inside in
          ∥∥₁_map (executed_versions-blocked sorted m there open_)
            (λ (e, refused). (e, rw (works, refused, fetch_migrations) refl))
    ]
