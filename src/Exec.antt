-- ===== src/Exec.antt =====
-- Go code that acts on the world: what a step wrote stays written when a later one fails.
use flare_p_chain_indexer.Prelude.{◌≡◌, refl, Run, ok, err, panic, Error}

abbrev pub Exec {ℓ} : Type ℓ → Type ℓ → Type ℓ
Exec W A = W → Run A × W

module _ {ℓ} {W A : Type ℓ} where
  abbrev pub pure : A → Exec W A
  pure a w = (ok a, w)

  abbrev pub fail : Error → Exec W A
  fail e w = (err e, w)

  -- a step that reads and writes nothing
  abbrev pub lift : Run A → Exec W A
  lift r w = (r, w)

  -- a step that only reads
  abbrev pub asks : (W → Run A) → Exec W A
  asks f w = (f w, w)

module _ {ℓ} {W A B : Type ℓ} where
  abbrev pub continue : Run A → (A → Exec W B) → Exec W B
  continue (ok a) f w = f a w
  continue (err e) f w = (err e, w)
  continue panic f w = (panic, w)

  infixl 5 ◌>>=◌ ◌>>◌
  abbrev pub ◌>>=◌ : Exec W A → (A → Exec W B) → Exec W B
  ◌>>=◌ m f w = let (r, w') = m w in continue r f w'

  abbrev pub ◌>>◌ : Exec W A → Exec W B → Exec W B
  ◌>>◌ m n = m >>= λ _. n

  pub continue-eq-ok :
      (r : Run A) (f : A → Exec W B) (w : W) {b : B}
      → (continue r f w).0 ≡ ok b
      → (a : A) × (r ≡ ok a) × ((f a w).0 ≡ ok b)
  continue-eq-ok (ok a) f w h = (a, refl, h)
  continue-eq-ok (err e) f w h = cc
  continue-eq-ok panic f w h = cc

  -- Both steps of a successful one succeed.
  pub bind-eq-ok :
      (m : Exec W A) (f : A → Exec W B) (w : W) {b : B}
      → ((m >>= f) w).0 ≡ ok b
      → (a : A) × ((m w).0 ≡ ok a) × ((f a (m w).1).0 ≡ ok b)
  bind-eq-ok m f w h = continue-eq-ok (m w).0 f (m w).1 h

  continue-run : {r : Run A} (f : A → Exec W B) (w : W) {a : A} → r ≡ ok a → continue r f w ≡ f a w
  continue-run f w e = rw e refl

  -- A step that succeeds is followed by the next.
  pub bind-run :
      (m : Exec W A) (f : A → Exec W B) (w : W) {a : A} → (m w).0 ≡ ok a → (m >>= f) w ≡ f a (m w).1
  bind-run m f w e = continue-run f (m w).1 e
