-- ===== src/Migrations.antt =====
-- indexer/migrations/container.go: the migrations that were not executed yet are executed in the
-- order of their versions. Errors of the database are parameters.
pub mod Executed
use Prim.Native.String.{String}
use flare_p_chain_indexer.Prelude.{
  Bool, true, false, not, Option, none, some, List, [], ◌∷◌, ◌++◌, map, if◌then◌else◌, rows_where,
  Run, ok, err, panic, Error, errorf, wrap, ◌>>=◌,
}
use flare_p_chain_indexer.Prelude.Order.{LinearOrder, sort_by}
use flare_p_chain_indexer.Prelude.Str.{str_order}
use flare_p_chain_indexer.Prelude.Maps.{contains, add_to_set, string_eq}
use flare_p_chain_indexer.Exec.{Exec, pure, fail, lift, ◌>>=◌ as and_then, ◌>>◌}

pub data MigrationStatus : Type 0 where
  pending completed failed : MigrationStatus

-- a row of the table of migrations
pub record DbMigration : Type 0 where
  pub version : String
  pub description : String
  pub status : MigrationStatus

-- The code acts on the tables other than that of the migrations.
pub record Migration (Db : Type 0) : Type 0 where
  pub version : String
  pub description : String
  pub code : Exec Db (Unit {0})

pub record World (Db : Type 0) : Type 0 where
  pub migrations : List DbMigration
  pub db : Db

-- the errors of the database, on a read, on a new row and on the change of a row, and its order of
-- texts
pub record Env (Db : Type 0) : Type 0 where
  pub fetch_error : World Db → Option Error
  pub create_error : World Db → DbMigration → Option Error
  pub update_error : World Db → DbMigration → Option Error
  pub collation : LinearOrder String

-- Save of the row that was created last
unfoldable pub save_last : DbMigration → List DbMigration → List DbMigration
save_last m [] = []
save_last m (row ∷ []) = m ∷ []
save_last m (row ∷ next ∷ rows) = row ∷ save_last m (next ∷ rows)

abbrev pub is_completed : MigrationStatus → Bool
is_completed completed = true
is_completed pending = false
is_completed failed = false

abbrev pub version_of : DbMigration → String
version_of m = m.version

-- the loop of ExecuteAll over the rows of the table
unfoldable pub executed_versions : List DbMigration → Run (List String)
executed_versions [] = ok []
executed_versions (m ∷ rows) =
    let rest = executed_versions rows in
    if is_completed m.status
    then (rest >>= λ versions. ok (add_to_set versions m.version))
    else err (errorf "there is a PENDING or FAILED migration")

module _ {Db : Type 0} where
  abbrev pub row_of : Migration Db → MigrationStatus → DbMigration
  row_of m status = record { version = m.version; description = m.description; status = status }

  -- Add
  unfoldable pub add : Migration Db → List (Migration Db) → List (Migration Db)
  add m migrations = migrations ++ m ∷ []

  -- the code on its tables
  unfoldable pub run_code : Migration Db → Exec (World Db) (Run (Unit {0}))
  run_code m w = let (r, db) = m.code w.db in (ok r, record w { db = db })

  module _ (env : Env Db) where
    unfoldable pub fetch_migrations : Exec (World Db) (List DbMigration)
    fetch_migrations w = elim (env.fetch_error w) [
      | some e ↦ (err e, w)
      | none ↦ (ok (sort_by env.collation version_of w.migrations), w)
    ]

    unfoldable pub create_migration : DbMigration → Exec (World Db) (Unit {0})
    create_migration m w = elim (env.create_error w m) [
      | some e ↦ (err e, w)
      | none ↦ (ok tt, record w { migrations = w.migrations ++ m ∷ [] })
    ]

    unfoldable pub update_migration : DbMigration → Exec (World Db) (Unit {0})
    unfolding save_last
    update_migration m w = elim (env.update_error w m) [
      | some e ↦ (err (wrap "error updating migration" e), w)
      | none ↦ (ok tt, record w { migrations = save_last m w.migrations })
    ]

    -- what executeMigration makes of the result of the code
    unfoldable pub after_code : Migration Db → Run (Unit {0}) → Exec (World Db) (Unit {0})
    unfolding update_migration
    after_code m (ok u) = update_migration (row_of m completed)
    after_code m (err e) =
        update_migration (row_of m failed) >> fail (wrap "error executing migration" e)
    after_code m panic = lift panic

    unfoldable pub execute_migration : Migration Db → Exec (World Db) (Unit {0})
    unfolding create_migration run_code after_code
    execute_migration m =
        create_migration (row_of m pending) >> and_then (run_code m) (after_code m)

    unfoldable pub execute_loop : List String → List (Migration Db) → Exec (World Db) (Unit {0})
    unfolding execute_migration
    execute_loop versions [] = pure tt
    execute_loop versions (m ∷ migrations) =
        let rest = execute_loop versions migrations in
        if contains versions m.version then rest else execute_migration m >> rest

    unfoldable pub execute_all : List (Migration Db) → Exec (World Db) (Unit {0})
    unfolding fetch_migrations executed_versions execute_loop
    execute_all migrations = and_then fetch_migrations λ rows.
        and_then (lift (executed_versions rows)) λ versions.
          execute_loop versions (sort_by str_order (λ (m : Migration Db). m.version) migrations)
