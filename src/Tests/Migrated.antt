-- ===== src/Tests/Migrated.antt =====
-- Runs of the migrations of indexer/migrations/container.go on a table of one number.
use mathlib.Core.List.{mem-cons_self}
use flare_p_chain_indexer.Prelude.{
  ℕ, ◌+◌, ◌*◌, ◌≡◌, refl, ap, none, List, [], ◌∷◌, ok, err, Error, errorf,
}
use flare_p_chain_indexer.Prelude.Order.{sort_by}
use flare_p_chain_indexer.Prelude.Str.{str_order}
use flare_p_chain_indexer.Prelude.Maps.{contains, add_to_set}
use flare_p_chain_indexer.Migrations.{
  DbMigration, Migration, World, Env, completed, failed, execute_all,
}
use flare_p_chain_indexer.Migrations.Executed.{Executed, execute_all-Executed, execute_all-blocked}

abbrev works : Env ℕ
works = record {
  fetch_error = λ w. none;
  create_error = λ w m. none;
  update_error = λ w m. none;
  collation = str_order;
}

-- given in another order than that of their versions
abbrev migrations : List (Migration ℕ)
migrations =
    record { version = "3"; description = "add"; code = λ n. (ok tt, n + 1) }
    ∷ record { version = "1"; description = "old"; code = λ n. (err (errorf "no"), n) }
    ∷ record { version = "2"; description = "double"; code = λ n. (ok tt, n * 2) }
    ∷ []

abbrev old_row : DbMigration
old_row = record { version = "1"; description = "old"; status = completed }

abbrev before : World ℕ
before = record { migrations = old_row ∷ []; db = 5 }

abbrev after : World ℕ
after = record {
  migrations =
      old_row
      ∷ record { version = "2"; description = "double"; status = completed }
      ∷ record { version = "3"; description = "add"; status = completed }
      ∷ [];
  db = 11;
}

executes : execute_all works migrations before ≡ (ok tt, after)
unfolding execute_all sort_by str_order contains add_to_set
executes = refl

execute_all-Executed_example :
    Executed works migrations before (execute_all works migrations before).1
execute_all-Executed_example = execute_all-Executed works migrations before (ap (λ p. p.0) executes)

-- the row that a failed migration left
abbrev failed_row : DbMigration
failed_row = record { version = "2"; description = "double"; status = failed }

abbrev broken : World ℕ
broken = record { migrations = failed_row ∷ old_row ∷ []; db = 5 }

execute_all-blocked_example :
    ∥ ((e : Error) × (execute_all works migrations broken ≡ (err e, broken))) ∥₁
execute_all-blocked_example =
    execute_all-blocked works migrations broken failed_row mem-cons_self refl
