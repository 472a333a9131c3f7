-- ===== src/Prelude/Lists.antt =====
-- Lists measured and indexed by native numbers, under the library's names: Go's slices.
use Prim.Native.Nat.{ℕ, zero, suc, ◌+◌, ◌-◌, ◌<◌}
use mathlib.Core.Path.{◌≡◌, refl, sym, ap, ◌∙◌}
use mathlib.Core.Logic.{∥∥₁_elim, ∥∥₁_map}
use mathlib.Core.Logic.Or
use mathlib.Core.List.{
  List, [], ◌∷◌, ◌++◌, Mem, Perm, Permᴰ, mem-cons, mem-cons_self, mem-cons_of_mem, not-mem-nil,
}
use mathlib.Core.Bool.{Bool, true}
use mathlib.Core.Logic.{inl, inr}
use mathlib.Core.Option.{Option, none, some}
use native.Mathlib.Nat.{ℕ_set}
use native.Mathlib.Omega.{arith}
use flare_p_chain_indexer.Prelude.Tests.{◌==◌, if◌then◌else◌, Bool-cases}

module _ {ℓ} {A : Type ℓ} where
  abbrev pub length : List A → ℕ
  length [] = 0
  length (x ∷ xs) = suc (length xs)

  abbrev pub get_elem? : List A → ℕ → Option A
  get_elem? [] i = none
  get_elem? (x ∷ xs) zero = some x
  get_elem? (x ∷ xs) (suc i) = get_elem? xs i

  -- A write out of bounds changes nothing.
  abbrev pub set : List A → ℕ → A → List A
  set [] i v = []
  set (x ∷ xs) zero v = v ∷ xs
  set (x ∷ xs) (suc i) v = x ∷ set xs i v

  unfoldable pub get_or : List A → ℕ → A → A
  get_or [] i d = d
  get_or (x ∷ xs) zero d = x
  get_or (x ∷ xs) (suc i) d = get_or xs i d

  abbrev pub take : ℕ → List A → List A
  take zero xs = []
  take (suc n) [] = []
  take (suc n) (x ∷ xs) = x ∷ take n xs

  abbrev pub drop : ℕ → List A → List A
  drop zero xs = xs
  drop (suc n) [] = []
  drop (suc n) (x ∷ xs) = drop n xs

  abbrev pub replicate : ℕ → A → List A
  replicate zero a = []
  replicate (suc n) a = a ∷ replicate n a

  -- the elements that pass the test, in order
  abbrev pub rows_where : (A → Bool) → List A → List A
  rows_where f [] = []
  rows_where f (x ∷ xs) = let rest = rows_where f xs in if f x then x ∷ rest else rest

  pub mem-rows_where :
      (f : A → Bool) (a : A) (xs : List A) → Mem a xs → f a ≡ true → Mem a (rows_where f xs)
  mem-rows_where f a [] m h = absurd (not-mem-nil m)
  mem-rows_where f a (x ∷ xs) m h =
      Or.elim squash₁ (mem-cons.0 m) (λ same. rw ((sym same), h) mem-cons_self)
        (λ rest.
          let ih = mem-rows_where f a xs rest h in
          elim (Bool-cases (f x)) [
            | inl passed ↦ rw passed (mem-cons_of_mem x ih)
            | inr failed ↦ rw failed ih
          ])

  pub mem_of_mem-rows_where :
      (f : A → Bool) (a : A) (xs : List A) → Mem a (rows_where f xs) → ∥ Mem a xs × (f a ≡ true) ∥₁
  mem_of_mem-rows_where f a [] m = absurd (not-mem-nil m)
  mem_of_mem-rows_where f a (x ∷ xs) m = elim (Bool-cases (f x)) [
    | inl passed ↦
        Or.elim squash₁ (mem-cons.0 (rw passed at m))
          (λ same. ∣ (rw same mem-cons_self, rw same passed) ∣₁)
          (λ rest. ∥∥₁_map (mem_of_mem-rows_where f a xs rest) (λ (i, p). (mem-cons_of_mem x i, p)))
    | inr failed ↦
        ∥∥₁_map (mem_of_mem-rows_where f a xs (rw failed at m)) (λ (i, p). (mem-cons_of_mem x i, p))
  ]

  pub length-append : (xs ys : List A) → length (xs ++ ys) ≡ length xs + length ys
  length-append [] ys = omega arith
  length-append (x ∷ xs) ys = omega (arith, length-append xs ys)

  pub length-replicate : (n : ℕ) (a : A) → length (replicate n a) ≡ n
  length-replicate zero a = refl
  length-replicate (suc n) a = ap suc (length-replicate n a)

  pub length-set : (xs : List A) (i : ℕ) (v : A) → length (set xs i v) ≡ length xs
  length-set [] i v = refl
  length-set (x ∷ xs) zero v = refl
  length-set (x ∷ xs) (suc i) v = ap suc (length-set xs i v)

  pub drop-append : (n : ℕ) (xs ys : List A) → length xs ≡ n → drop n (xs ++ ys) ≡ ys
  drop-append zero [] ys h = refl
  drop-append zero (x ∷ xs) ys h = absurd (omega arith)
  drop-append (suc n) [] ys h = absurd (omega arith)
  drop-append (suc n) (x ∷ xs) ys h = drop-append n xs ys (omega arith)

  pub length-drop : (n : ℕ) (xs : List A) → length (drop n xs) ≡ length xs - n
  length-drop zero xs = omega arith
  length-drop (suc n) [] = omega arith
  length-drop (suc n) (x ∷ xs) = omega (arith, length-drop n xs)

  pub get_elem?-get_or :
      (xs : List A) (i : ℕ) (d : A) → i < length xs → get_elem? xs i ≡ some (get_or xs i d)
  unfolding get_or
  get_elem?-get_or [] i d h = absurd (omega arith)
  get_elem?-get_or (x ∷ xs) zero d h = refl
  get_elem?-get_or (x ∷ xs) (suc i) d h = get_elem?-get_or xs i d (omega arith)

  pub get_or-set :
      (xs : List A) (i j : ℕ) (v d : A)
      → i < length xs
      → get_or (set xs i v) j d ≡ (if i == j then v else get_or xs j d)
  unfolding get_or
  get_or-set [] i j v d h = absurd (omega arith)
  get_or-set (x ∷ xs) zero zero v d h = refl
  get_or-set (x ∷ xs) (suc i) (suc j) v d h = ground (arith, get_or-set xs i j v d)
  get_or-set (x ∷ xs) zero (suc j) v d h = ground arith
  get_or-set (x ∷ xs) (suc i) zero v d h = ground arith

  pub get_or-append :
      (xs ys : List A) (i : ℕ) (d : A) → get_or (xs ++ ys) (length xs + i) d ≡ get_or ys i d
  unfolding get_or
  get_or-append [] ys i d = let e : 0 + i ≡ i = omega arith in ap (λ k. get_or ys k d) e
  get_or-append (x ∷ xs) ys i d =
      let e : suc (length xs) + i ≡ suc (length xs + i) = omega arith in
      ap (λ k. get_or (x ∷ (xs ++ ys)) k d) e ∙ get_or-append xs ys i d

  pub get_or-drop :
      (n : ℕ) (xs : List A) (i : ℕ) (d : A) → get_or (drop n xs) i d ≡ get_or xs (n + i) d
  unfolding get_or
  get_or-drop zero xs i d = let e : i ≡ 0 + i = omega arith in ap (λ k. get_or xs k d) e
  get_or-drop (suc n) [] i d = refl
  get_or-drop (suc n) (x ∷ xs) i d =
      let e : suc (n + i) ≡ suc n + i = omega arith in
      get_or-drop n xs i d ∙ ap (λ k. get_or (x ∷ xs) k d) e

  pub get_or-mem : (xs : List A) (i : ℕ) (d : A) → i < length xs → Mem (get_or xs i d) xs
  unfolding get_or
  get_or-mem [] i d h = absurd (omega arith)
  get_or-mem (x ∷ xs) zero d h = mem-cons_self
  get_or-mem (x ∷ xs) (suc i) d h = mem-cons_of_mem x (get_or-mem xs i d (omega arith))

  pub length_pos_of_mem : {x : A} (xs : List A) → Mem x xs → 0 < length xs
  length_pos_of_mem [] m = absurd (not-mem-nil m)
  length_pos_of_mem (x ∷ xs) m = omega arith

  -- What is in a list stands at an index of it.
  pub mem-index :
      {x : A} (xs : List A) (d : A)
      → Mem x xs
      → ∥ ((i : ℕ) × (i < length xs) × (get_or xs i d ≡ x)) ∥₁
  unfolding get_or
  mem-index [] d m = absurd (not-mem-nil m)
  mem-index (x ∷ xs) d m =
      Or.elim squash₁ (mem-cons.0 m) (λ e. ∣ (0, omega arith, sym e) ∣₁)
        (λ rest. ∥∥₁_map (mem-index xs d rest) (λ (i, inside, e). (suc i, omega arith, e)))

  -- Lists of one length that agree at every index are equal.
  pub list_ext :
      (xs ys : List A) (d : A)
      → length xs ≡ length ys
      → ((i : ℕ) → get_or xs i d ≡ get_or ys i d)
      → xs ≡ ys
  unfolding get_or
  list_ext [] [] d size h = refl
  list_ext [] (y ∷ ys) d size h = absurd (omega arith)
  list_ext (x ∷ xs) [] d size h = absurd (omega arith)
  list_ext (x ∷ xs) (y ∷ ys) d size h = cc (h 0, list_ext xs ys d (omega arith) (λ i. h (suc i)))

  same_length : {xs ys : List A} → Permᴰ xs ys → length xs ≡ length ys
  same_length (Permᴰ.trans before after) = same_length before ∙ same_length after
  same_length (Permᴰ.swap x y) = refl
  same_length (Permᴰ.cons x rest) = ap suc (same_length rest)
  same_length Permᴰ.nil = refl

  pub length-perm : {xs ys : List A} → Perm xs ys → length xs ≡ length ys
  length-perm mixed = ∥∥₁_elim mixed (ℕ_set _ _) same_length
