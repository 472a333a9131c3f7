-- ===== src/Cronjob/Trace.antt =====
-- What a step adds to the calls of contracts, with rules for the ways in which steps are composed.
use Prim.Native.String.{String}
use mathlib.Core.List.{append-nil, append_assoc}
use flare_p_chain_indexer.Prelude.{
  ◌≡◌, ◌≢◌, err-ne-ok, panic-ne-ok, refl, sym, ap, ◌∙◌, Bool, true, false, List, [], ◌∷◌, ◌++◌,
  arith, Run, ok, err, panic, Option-cases, some, inl, inr, ◌⊎◌, Error, if◌then◌else◌,
}
use flare_p_chain_indexer.Prelude.Int.{ℤ}
use flare_p_chain_indexer.Prelude.Maps.{insert, string_eq}
use flare_p_chain_indexer.Exec.{Exec, continue, ◌>>=◌}
use flare_p_chain_indexer.Database.{State}
use flare_p_chain_indexer.Staking.{StakingApi}
use flare_p_chain_indexer.Cronjob.World.{
  World, Env, Event, log, fetch_state, update_state, update_job_state,
}

module _ {ℓ} {A : Type ℓ} where
  -- every element of the list
  abbrev pub All {κ} : (A → Type κ) → List A → Type κ
  All P [] = Unit
  All P (x ∷ xs) = P x × All P xs

  pub All-append {κ} : (P : A → Type κ) (xs ys : List A) → All P xs → All P ys → All P (xs ++ ys)
  All-append P [] ys h k = k
  All-append P (x ∷ xs) ys (p, h) k = (p, All-append P xs ys h k)

module _ {S : StakingApi} {PublicKey : Type 0} (P : Event S PublicKey → Type 0) where
  -- `w'` has the events of `w` and then new ones, all of them good.
  pub record Extends (w w' : World S PublicKey) : Type 0 where
    pub new : List (Event S PublicKey)
    pub appended : w'.events ≡ w.events ++ new
    pub good : All P new

  pub Extends-same : {w w' : World S PublicKey} → w'.events ≡ w.events → Extends w w'
  Extends-same {w} e = record { new = []; appended = e ∙ sym (append-nil w.events); good = tt }

  pub Extends-trans : {u v w : World S PublicKey} → Extends u v → Extends v w → Extends u w
  Extends-trans {u} {v} {w} h k = record {
    new = h.new ++ k.new;
    appended = k.appended ∙ ap (λ l. l ++ k.new) h.appended ∙ append_assoc u.events h.new k.new;
    good = All-append P h.new k.new h.good k.good;
  }

  pub Extends-log :
      (event : Event S PublicKey) (w : World S PublicKey) → P event → Extends w (log event w)
  unfolding log
  Extends-log event w p = record { new = event ∷ []; appended = refl; good = (p, tt) }

  Extends-continue :
      {A B : Type 0} (r : Run A) (f : A → Exec (World S PublicKey) B) (w w' : World S PublicKey)
      → Extends w w'
      → ((a : A) → r ≡ ok a → Extends w' (f a w').1)
      → Extends w (continue r f w').1
  Extends-continue (ok a) f w w' h k = Extends-trans h (k a refl)
  Extends-continue (err e) f w w' h k = h
  Extends-continue panic f w w' h k = h

  pub Extends-bind :
      {A B : Type 0} (m : Exec (World S PublicKey) A) (f : A → Exec (World S PublicKey) B)
      (w : World S PublicKey)
      → Extends w (m w).1
      → ((a : A) → (m w).0 ≡ ok a → Extends (m w).1 (f a (m w).1).1)
      → Extends w ((m >>= f) w).1
  Extends-bind m f w h k = Extends-continue (m w).0 f w (m w).1 h k

  pub Extends-if :
      {A : Type 0} (b : Bool) (m n : Exec (World S PublicKey) A) (w : World S PublicKey)
      → (b ≡ true → Extends w (m w).1)
      → (b ≡ false → Extends w (n w).1)
      → Extends w ((if b then m else n) w).1
  Extends-if true m n w h k = h refl
  Extends-if false m n w h k = k refl

module _ {S : StakingApi} {PublicKey : Type 0} (env : Env S PublicKey) where
  -- Reads of the state table change nothing.
  pub fetch_state-world : (name : String) (w : World S PublicKey) → (fetch_state env name w).1 ≡ w
  unfolding fetch_state
  fetch_state-world name w = ground arith

  -- Writes of the state table call no contract.
  pub update_state-events :
      (s : State) (w : World S PublicKey) → (update_state env s w).1.events ≡ w.events
  unfolding update_state
  update_state-events s w = ground arith

  pub update_job_state-events :
      (name : String) (epoch : ℤ) (force : Bool) (w : World S PublicKey)
      → (update_job_state env name epoch force w).1.events ≡ w.events
  unfolding update_job_state
  update_job_state-events name epoch force w = ground arith

  -- A write of the state table is done, or changes nothing.
  pub update_state-cases :
      (s : State) (w : World S PublicKey)
      → (update_state env s w ≡ (ok tt, record w { states = insert s.name s w.states }))
        ⊎ ((e : Error) × ((env.save_error w s ≡ some e) × (update_state env s w ≡ (err e, w))))
  unfolding update_state
  update_state-cases s w = elim (Option-cases (env.save_error w s)) [
    | inl e ↦ inl (rw (e, update_state))
    | inr (x, e) ↦ inr (x, (e, rw (e, update_state)))
  ]

-- `w'` has the state table of `w`, and its events and new ones.
pub record Stays {S : StakingApi} {PublicKey : Type 0} (w w' : World S PublicKey) : Type 0 where
  pub table : w'.states ≡ w.states
  pub new : List (Event S PublicKey)
  pub appended : w'.events ≡ w.events ++ new

module _ {S : StakingApi} {PublicKey : Type 0} where
  pub Stays-refl : (w : World S PublicKey) → Stays w w
  Stays-refl w = record { table = refl; new = []; appended = sym (append-nil w.events) }

  pub Stays-log : (event : Event S PublicKey) (w : World S PublicKey) → Stays w (log event w)
  unfolding log
  Stays-log event w = record { table = refl; new = event ∷ []; appended = refl }

  pub Stays-trans : {u v w : World S PublicKey} → Stays u v → Stays v w → Stays u w
  Stays-trans {u} h k = record {
    table = k.table ∙ h.table;
    new = h.new ++ k.new;
    appended = k.appended ∙ ap (λ l. l ++ k.new) h.appended ∙ append_assoc u.events h.new k.new;
  }

  continue-post :
      {A B : Type 0} (K : World S PublicKey → Type 0) (r : Run A)
      (f : A → Exec (World S PublicKey) B) (w : World S PublicKey)
      → K w
      → ((a : A) → r ≡ ok a → K (f a w).1)
      → K (continue r f w).1
  continue-post K (ok a) f w h k = k a refl
  continue-post K (err e) f w h k = h
  continue-post K panic f w h k = h

  -- What holds of the world after the first step, should it fail, and after the second.
  pub bind-post :
      {A B : Type 0} (K : World S PublicKey → Type 0) (m : Exec (World S PublicKey) A)
      (f : A → Exec (World S PublicKey) B) (w : World S PublicKey)
      → K (m w).1
      → ((a : A) → (m w).0 ≡ ok a → K (f a (m w).1).1)
      → K ((m >>= f) w).1
  bind-post K m f w h k = continue-post K (m w).0 f (m w).1 h k

  continue-cases :
      {A B : Type 0} (K : World S PublicKey → Type 0) (r : Run A)
      (f : A → Exec (World S PublicKey) B) (w : World S PublicKey)
      → (((a : A) → r ≢ ok a) → K w)
      → ((a : A) → r ≡ ok a → K (f a w).1)
      → K (continue r f w).1
  continue-cases K (ok a) f w h k = k a refl
  continue-cases K (err e) f w h k = h (λ a. err-ne-ok)
  continue-cases K panic f w h k = h (λ a. panic-ne-ok)

  -- As `bind-post`, where the first step is known to fail if there is no second.
  pub bind-cases :
      {A B : Type 0} (K : World S PublicKey → Type 0) (m : Exec (World S PublicKey) A)
      (f : A → Exec (World S PublicKey) B) (w : World S PublicKey)
      → (((a : A) → (m w).0 ≢ ok a) → K (m w).1)
      → ((a : A) → (m w).0 ≡ ok a → K (f a (m w).1).1)
      → K ((m >>= f) w).1
  bind-cases K m f w h k = continue-cases K (m w).0 f (m w).1 h k

  pub if-post :
      {A : Type 0} (K : World S PublicKey → Type 0) (b : Bool) (m n : Exec (World S PublicKey) A)
      (w : World S PublicKey)
      → (b ≡ true → K (m w).1)
      → (b ≡ false → K (n w).1)
      → K ((if b then m else n) w).1
  if-post K true m n w h k = h refl
  if-post K false m n w h k = k refl
