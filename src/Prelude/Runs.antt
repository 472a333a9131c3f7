-- ===== src/Prelude/Runs.antt =====
-- How a Go function ends: with its value, with a non-nil `error`, or in a panic.
use Prim.Native.String.{String}
use mathlib.Core.Path.{◌≡◌, refl, ap}
use mathlib.Core.Logic.{◌⊎◌, inl, inr}
use mathlib.Core.Option.{Option, none, some}

-- The program's error values: the sentinels that code compares with, and errors known by a text.
pub data Error : Type 0 where
  empty_tree invalid_index hash_not_found : Error
  no_epochs_to_mirror no_epochs_to_register_addresses no_epochs_to_aggregate : Error
  -- errors.New, fmt.Errorf
  errorf : String → Error
  -- errors.Wrap
  wrap : String → Error → Error

pub data Run {ℓ} (A : Type ℓ) : Type ℓ where
  ok : A → Run A
  err : Error → Run A
  panic : Run A

infixl 5 ◌>>=◌ ◌>>◌
abbrev pub ◌>>=◌ {ℓ κ} : {A : Type ℓ} {B : Type κ} → Run A → (A → Run B) → Run B
panic >>= next = panic
err failure >>= next = err failure
ok value >>= next = next value

abbrev pub ◌>>◌ {ℓ} : {B : Type ℓ} → Run (Unit {0}) → Run B → Run B
m >> k = m >>= λ _. k

abbrev pub or_else {ℓ} : {A : Type ℓ} → Option A → Run A → Run A
or_else none otherwise = otherwise
or_else (some value) otherwise = ok value

-- `if err != nil { return errors.Wrap(err, text) }`
abbrev pub wrap_err {ℓ} : {A : Type ℓ} → String → Run A → Run A
wrap_err text (ok a) = ok a
wrap_err text (err e) = err (wrap text e)
wrap_err text panic = panic

pub >>=-eq-ok {ℓ κ} :
    {A : Type ℓ} {B : Type κ} (run : Run A) (next : A → Run B) {result : B}
    → (run >>= next) ≡ ok result
    → (value : A) × (run ≡ ok value) × (next value ≡ ok result)
>>=-eq-ok panic next e = cc
>>=-eq-ok (err failure) next e = cc
>>=-eq-ok (ok value) next e = (value, refl, e)

pub wrap_err-eq-ok {ℓ} :
    {A : Type ℓ} (text : String) (m : Run A) {a : A} → wrap_err text m ≡ ok a → m ≡ ok a
wrap_err-eq-ok text (ok a) h = h
wrap_err-eq-ok text (err e) h = cc
wrap_err-eq-ok text panic h = cc

pub panic-ne-ok {ℓ} : {A : Type ℓ} {a : A} → ¬ (panic ≡ ok a)
panic-ne-ok e = cc

pub ok-inj {ℓ} : {A : Type ℓ} {a b : A} → ok a ≡ ok b → a ≡ b
ok-inj e = cc

pub Run-cases {ℓ} :
    {A : Type ℓ} (r : Run A) → ((a : A) × (r ≡ ok a)) ⊎ (((e : Error) × (r ≡ err e)) ⊎ (r ≡ panic))
Run-cases (ok a) = inl (a, refl)
Run-cases (err e) = inr (inl (e, refl))
Run-cases panic = inr (inr refl)

pub err-ne-ok {ℓ} : {A : Type ℓ} {e : Error} {a : A} → ¬ (err e ≡ ok a)
err-ne-ok h = cc

pub or_else-eq-ok {ℓ} : {A : Type ℓ} (x : Option A) {a : A} → or_else x panic ≡ ok a → x ≡ some a
or_else-eq-ok none e = absurd (panic-ne-ok e)
or_else-eq-ok (some b) e = ap some (ok-inj e)
