-- ===== src/Prelude/Order.antt =====
-- Total orders by a Boolean test, and `sort.Slice` of Go's package sort.
use mathlib.Core.List.{
  Pairwise, Pairwise-singleton, mem-cons_self, mem-cons_of_mem, forall_mem-cons,
}
use mathlib.Core.List.Perm
use mathlib.Core.Path.{ap₂}
use mathlib.Core.Bool.{Bool-set}
use Prim.Native.Nat.{ℕ, zero, suc, ◌≤◌, ◌<◌}
use native.Mathlib.Omega.{arith}
use flare_p_chain_indexer.Prelude.Tests.{Bool-cases, if◌then◌else◌}
use flare_p_chain_indexer.Prelude.Lists.{length, get_or, get_or-mem}
use mathlib.Core.Path.{◌≡◌}
use mathlib.Core.Logic.{inl, inr}
use mathlib.Core.Bool.{Bool, true, false, not}
use mathlib.Core.List.{List, [], ◌∷◌, Mem, Perm}

-- The order of Go's `<` and `<=` on strings and numbers.
pub record LinearOrder {ℓ} (K : Type ℓ) : Type ℓ where
  pub le : K → K → Bool
  pub total : (a b : K) → le a b ≡ false → le b a ≡ true
  pub trans : (a b c : K) → le a b ≡ true → le b c ≡ true → le a c ≡ true
  pub antisymm : (a b : K) → le a b ≡ true → le b a ≡ true → a ≡ b

module _ {ℓ} {K : Type ℓ} (o : LinearOrder K) where
  abbrev pub lt : K → K → Bool
  lt a b = not (o.le b a)

  pub le_refl : (a : K) → o.le a a ≡ true
  le_refl a = elim (Bool-cases (o.le a a)) [ inl h ↦ h | inr h ↦ o.total a a h ]

-- `sort.Slice(s, less)` for a `less` that compares the `key`s of the entries.
module _ {ℓ κ} {A : Type ℓ} {K : Type κ} (o : LinearOrder K) (key : A → K) where
  unfoldable pub insert_by : A → List A → List A
  insert_by x [] = x ∷ []
  insert_by x (y ∷ ys) = if o.le (key x) (key y) then x ∷ y ∷ ys else y ∷ insert_by x ys

  unfoldable pub sort_by : List A → List A
  unfolding insert_by
  sort_by [] = []
  sort_by (x ∷ xs) = insert_by x (sort_by xs)

  abbrev pub IsSortedBy : List A → Type ℓ
  IsSortedBy = Pairwise (λ a b. o.le (key a) (key b) ≡ true)

  abbrev IsBelow : A → List A → Type ℓ
  IsBelow a l = (x : A) → Mem x l → o.le (key a) (key x) ≡ true

  insert_by-perm : (x : A) (l : List A) → Perm (insert_by x l) (x ∷ l)
  unfolding insert_by
  insert_by-perm x [] = Perm.rfl
  insert_by-perm x (y ∷ ys) = elim (Bool-cases (o.le (key x) (key y))) [
    | inl h ↦ rw h Perm.rfl
    | inr h ↦ rw h (Perm.trans (Perm.cons y (insert_by-perm x ys)) (Perm.swap x y ys))
  ]

  -- `sort.Slice` permutes its slice.
  pub sort_by-perm : (l : List A) → Perm (sort_by l) l
  unfolding sort_by
  sort_by-perm [] = Perm.nil
  sort_by-perm (x ∷ xs) = Perm.trans (insert_by-perm x (sort_by xs)) (Perm.cons x (sort_by-perm xs))

  IsBelow-cons :
      {a b : A} {l : List A} → o.le (key a) (key b) ≡ true → IsBelow a l → IsBelow a (b ∷ l)
  IsBelow-cons p h = (forall_mem-cons (λ x. Bool-set _ _)).1 (p, h)

  IsBelow-head :
      {a b : A} {l : List A} → o.le (key a) (key b) ≡ true → IsBelow b l → IsBelow a (b ∷ l)
  IsBelow-head {a} {b} p h = IsBelow-cons p (λ x m. o.trans (key a) (key b) (key x) p (h x m))

  insert_by-IsSortedBy : (x : A) (l : List A) → IsSortedBy l → IsSortedBy (insert_by x l)
  unfolding insert_by
  insert_by-IsSortedBy x [] s = Pairwise-singleton _ x
  insert_by-IsSortedBy x (y ∷ ys) (Pairwise.cons below s) =
      elim (Bool-cases (o.le (key x) (key y))) [
        | inl h ↦ rw h (Pairwise.cons (IsBelow-head h below) (Pairwise.cons below s))
        | inr h ↦ rw h (
            Pairwise.cons
              (λ z m.
                IsBelow-cons (o.total (key x) (key y) h) below z
                  ((Perm.mem_iff (insert_by-perm x ys)).0 m))
              (insert_by-IsSortedBy x ys s))
      ]

  pub sort_by-IsSortedBy : (l : List A) → IsSortedBy (sort_by l)
  unfolding sort_by
  sort_by-IsSortedBy [] = Pairwise.nil
  sort_by-IsSortedBy (x ∷ xs) = insert_by-IsSortedBy x (sort_by xs) (sort_by-IsSortedBy xs)

  -- A later entry of a sorted list is no smaller.
  pub IsSortedBy-get_or :
      (l : List A) (i j : ℕ) (d : A)
      → IsSortedBy l
      → i ≤ j
      → j < length l
      → o.le (key (get_or l i d)) (key (get_or l j d)) ≡ true
  unfolding get_or
  IsSortedBy-get_or [] i j d s le inside = absurd (omega arith)
  IsSortedBy-get_or (x ∷ l) zero zero d s le inside = le_refl o (key x)
  IsSortedBy-get_or (x ∷ l) zero (suc j) d (Pairwise.cons below s) le inside =
      below (get_or l j d) (get_or-mem l j d (omega arith))
  IsSortedBy-get_or (x ∷ l) (suc i) zero d s le inside = absurd (omega arith)
  IsSortedBy-get_or (x ∷ l) (suc i) (suc j) d (Pairwise.cons below s) le inside =
      IsSortedBy-get_or l i j d s (omega arith) (omega arith)

  -- Entries with one key are one entry.
  abbrev pub IsKeyed : List A → Type (ℓ ⊔ κ)
  IsKeyed l = (a b : A) → Mem a l → Mem b l → key a ≡ key b → a ≡ b

  -- A sorted list is determined by its entries, if their keys tell them apart.
  pub IsSortedBy-unique :
      (l r : List A) → IsKeyed l → IsSortedBy l → IsSortedBy r → Perm l r → l ≡ r
  IsSortedBy-unique [] r k sl sr p = Perm.nil-eq p
  IsSortedBy-unique (a ∷ l) [] k sl sr p = Perm.eq-nil p
  IsSortedBy-unique (a ∷ l) (b ∷ r) k (Pairwise.cons bl sl) (Pairwise.cons br sr) p =
      let b_in : Mem b (a ∷ l) = (Perm.mem_iff p).1 mem-cons_self in
      let a_in : Mem a (b ∷ r) = (Perm.mem_iff p).0 mem-cons_self in
      let a_le : o.le (key a) (key b) ≡ true = IsBelow-head (le_refl o (key a)) bl b b_in in
      let b_le : o.le (key b) (key a) ≡ true = IsBelow-head (le_refl o (key b)) br a a_in in
      let heads : a ≡ b = k a b mem-cons_self b_in (o.antisymm (key a) (key b) a_le b_le) in
      let tails : Perm l r = Perm.cons_inv (Perm.trans p (Perm.symm (Perm.cons' heads Perm.rfl))) in
      ap₂ ◌∷◌ heads (
        IsSortedBy-unique l r (λ x y mx my. k x y (mem-cons_of_mem a mx) (mem-cons_of_mem a my)) sl
          sr tails)

  -- The result of `sort.Slice` does not depend on the order of the slice.
  pub sort_by-eq_of_perm : (l r : List A) → IsKeyed l → Perm l r → sort_by l ≡ sort_by r
  sort_by-eq_of_perm l r k p =
      let pl = sort_by-perm l in
      IsSortedBy-unique (sort_by l) (sort_by r)
        (λ a b ma mb. k a b ((Perm.mem_iff pl).0 ma) ((Perm.mem_iff pl).0 mb))
        (sort_by-IsSortedBy l) (sort_by-IsSortedBy r)
        (Perm.trans pl (Perm.trans p (Perm.symm (sort_by-perm r))))
