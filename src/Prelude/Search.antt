-- ===== src/Prelude/Search.antt =====
-- `sort.Search` of Go's package sort: the least index at which a monotone test holds.
use Prim.Native.Nat.{ℕ, zero, suc, ◌+◌, ◌/◌, ◌≤◌, ◌<◌}
use mathlib.Core.Path.{◌≡◌}
use mathlib.Core.Logic.{inl, inr}
use mathlib.Core.Bool.{Bool, true, false}
use native.Mathlib.Omega.{arith}
use flare_p_chain_indexer.Prelude.Tests.{ltb, Bool-cases, if◌then◌else◌, ltb→lt}

-- The loop halves `[i, j)`; it needs less than `j - i + 1` rounds.
search_loop : ℕ → (ℕ → Bool) → ℕ → ℕ → ℕ
search_loop zero f i j = i
search_loop (suc fuel) f i j =
    let h = (i + j) / 2 in
    let low = search_loop fuel f i h in
    let high = search_loop fuel f (h + 1) j in
    let round = if f h then low else high in if ltb i j then round else i

unfoldable pub sort_search : ℕ → (ℕ → Bool) → ℕ
unfolding search_loop
sort_search n f = search_loop (n + 1) f 0 n

-- All before the result fail the test, and all from it on, below the bound, pass it.
pub record IsLeast (n : ℕ) (f : ℕ → Bool) (r : ℕ) : Type 0 where
  pub inside : r ≤ n
  pub before : (k : ℕ) → k < r → f k ≡ false
  pub from : (k : ℕ) → r ≤ k → k < n → f k ≡ true

module _ (n : ℕ) (f : ℕ → Bool) (mono : (a b : ℕ) → a ≤ b → b < n → f a ≡ true → f b ≡ true) where
  search_loop-IsLeast :
      (fuel i j : ℕ)
      → j < i + fuel
      → i ≤ j
      → j ≤ n
      → ((k : ℕ) → k < i → f k ≡ false)
      → ((k : ℕ) → j ≤ k → k < n → f k ≡ true)
      → IsLeast n f (search_loop fuel f i j)
  unfolding search_loop
  search_loop-IsLeast zero i j enough le inside before from = absurd (omega arith)
  search_loop-IsLeast (suc fuel) i j enough le inside before from = elim (Bool-cases (ltb i j)) [
    | inl more ↦
        let lt : i < j = ltb→lt i j more in
        elim (Bool-cases (f ((i + j) / 2))) [
          | inl passed ↦
              rw (more, passed)
                (search_loop-IsLeast fuel i ((i + j) / 2) (omega arith) (omega arith) (omega arith)
                  before (λ k ge below. mono ((i + j) / 2) k ge below passed))
          | inr failed ↦
              rw (more, failed)
                (search_loop-IsLeast fuel ((i + j) / 2 + 1) j (omega arith) (omega arith) inside
                  (λ k below. elim (Bool-cases (f k)) [
                    | inl h ↦ cc (mono k ((i + j) / 2) (omega arith) (omega arith) h)
                    | inr h ↦ h
                  ])
                  from)
        ]
    | inr done ↦ rw done (record {
      inside = omega arith;
      before = before;
      from = λ k ge below. from k (ground arith) below;
    })
  ]

  -- On a monotone test `sort.Search` finds the least index that passes, or the bound.
  pub sort_search-IsLeast : IsLeast n f (sort_search n f)
  unfolding sort_search
  sort_search-IsLeast =
      search_loop-IsLeast (n + 1) 0 n (omega arith) (omega arith) (omega arith)
        (λ k below. absurd (omega arith)) (λ k ge below. absurd (omega arith))
