-- ===== src/Cronjob/Mirror/Sent.antt =====
-- What a run of mirrorTxs without an error has sent: one stake for each transaction, in order.
use Prim.Native.String.{String}
use mathlib.Core.Logic.{∥∥₁_map}
use mathlib.Core.List.{append-nil, append_assoc, mem-cons_self, mem-cons_of_mem}
use flare_p_chain_indexer.Prelude.{
  ◌≡◌, refl, sym, ap, ◌∙◌, Bool, true, false, ◌||◌, Bool-cases, inl, inr, List, [], ◌∷◌, ◌++◌, Mem,
  arith, Run, ok, err, panic, Error, err-ne-ok, panic-ne-ok,
}
use flare_p_chain_indexer.Prelude.Errors.{contains_text}
use flare_p_chain_indexer.Prelude.Int.{ℤ}
use flare_p_chain_indexer.Exec.{bind-eq-ok, lift}
use flare_p_chain_indexer.Database.{PChainTxData}
use flare_p_chain_indexer.Merkle.{Tree}
use flare_p_chain_indexer.Staking.{StakingApi, to_stake_data, get_merkle_proof, build_tree}
use flare_p_chain_indexer.Cronjob.World.{World, Env, Event, mirror_stake, log}
use flare_p_chain_indexer.Cronjob.Mirror.{
  is_tolerated, check_merkle_root, send_mirror_stake, after_mirror_stake, mirror_tx, mirror_loop,
  mirror_txs,
}

-- The reasons for which the contract may refuse a stake without an end of the run.
abbrev pub reasons : List String
reasons =
    "transaction already mirrored" ∷ "staking already ended" ∷ "unknown staking address"
    ∷ "staking data invalid" ∷ "Max node ids exceeded" ∷ []

any_text : Error → List String → Bool
any_text e [] = false
any_text e (t ∷ ts) = contains_text e t || any_text e ts

any_text-mem :
    (e : Error) (ts : List String)
    → any_text e ts ≡ true
    → ∥ ((t : String) × (Mem t ts × (contains_text e t ≡ true))) ∥₁
unfolding any_text
any_text-mem e [] h = cc
any_text-mem e (t ∷ ts) h = elim (Bool-cases (contains_text e t)) [
  | inl found ↦ ∣ (t, (mem-cons_self, found)) ∣₁
  | inr other ↦
      ∥∥₁_map (any_text-mem e ts (rw other at h))
        (λ (x, (inside, found)). (x, (mem-cons_of_mem t inside, found)))
]

is_tolerated-reason :
    (e : Error)
    → is_tolerated e ≡ true
    → ∥ ((reason : String) × (Mem reason reasons × (contains_text e reason ≡ true))) ∥₁
unfolding is_tolerated any_text
is_tolerated-reason e h = any_text-mem e reasons (ground (arith, h))

module _ {S : StakingApi} {PublicKey : Type 0} (env : Env S PublicKey) where
  open S use {hashes, Hash}

  -- The contract accepted the stake, or refused it with an error whose text has one of the reasons.
  abbrev pub IsSettled : Run (Unit {0}) → Type 0
  IsSettled (ok u) = Unit
  IsSettled (err e) =
      ∥ ((reason : String) × (Mem reason reasons × (contains_text e reason ≡ true))) ∥₁
  IsSettled panic = ⊥

  after_mirror_stake-IsSettled :
      (answer : Run (Unit {0})) → after_mirror_stake env answer ≡ ok tt → IsSettled answer
  unfolding after_mirror_stake
  after_mirror_stake-IsSettled (ok u) run = tt
  after_mirror_stake-IsSettled (err e) run = elim (Bool-cases (is_tolerated e)) [
    | inl tolerated ↦ is_tolerated-reason e tolerated
    | inr other ↦ absurd (err-ne-ok (rw other at run))
  ]
  after_mirror_stake-IsSettled panic run = absurd (panic-ne-ok run)

  -- The stake of the transaction was sent, and the contract took it or had a reason not to.
  abbrev pub IsStakeOf : Tree hashes → PChainTxData → Event S PublicKey → Type 0
  IsStakeOf tree tx (mirror_stake d p answer) =
      (to_stake_data S tx ≡ ok d) × ((get_merkle_proof S tree tx ≡ ok p) × IsSettled answer)
  IsStakeOf tree tx _ = ⊥

  -- The events are those of the transactions, one for each, in order.
  abbrev pub AreStakesOf : Tree hashes → List PChainTxData → List (Event S PublicKey) → Type 0
  AreStakesOf tree [] [] = Unit
  AreStakesOf tree (tx ∷ txs) (e ∷ es) = IsStakeOf tree tx e × AreStakesOf tree txs es
  AreStakesOf tree _ _ = ⊥

  -- What a run has sent.
  pub record Sent (tree : Tree hashes) (txs : List PChainTxData) (w w' : World S PublicKey)
      : Type 0 where
    pub stakes : List (Event S PublicKey)
    pub sent : w'.events ≡ w.events ++ stakes
    pub each : AreStakesOf tree txs stakes

  mirror_tx-sends :
      (tree : Tree hashes) (tx : PChainTxData) (w : World S PublicKey)
      → (mirror_tx env tree tx w).0 ≡ ok tt
      → (e : Event S PublicKey) × ((IsStakeOf tree tx e)
          × ((mirror_tx env tree tx w).1.events ≡ w.events ++ e ∷ []))
  unfolding mirror_tx send_mirror_stake log
  mirror_tx-sends tree tx w run =
      let (d, staked, run_d) = bind-eq-ok (lift (to_stake_data S tx)) _ w run in
      let (p, proved, run_p) = bind-eq-ok (lift (get_merkle_proof S tree tx)) _ w run_d in
      (
        mirror_stake d p (env.mirror_stake_answer w d p),
        ((staked, (proved, after_mirror_stake-IsSettled _ run_p)), rw (staked, proved) refl),
      )

  mirror_loop-Sent :
      (tree : Tree hashes) (txs : List PChainTxData) (w : World S PublicKey)
      → (mirror_loop env tree txs w).0 ≡ ok tt
      → Sent tree txs w (mirror_loop env tree txs w).1
  unfolding mirror_loop
  mirror_loop-Sent tree [] w run = record {
    stakes = [];
    sent = sym (append-nil w.events);
    each = tt;
  }
  mirror_loop-Sent tree (tx ∷ txs) w run =
      let (done, first, rest) =
        bind-eq-ok (mirror_tx env tree tx) (λ _. mirror_loop env tree txs) w run in
      let (e, (own, sent)) = mirror_tx-sends tree tx w first in
      let ih = mirror_loop-Sent tree txs (mirror_tx env tree tx w).1 rest in
      rw first (record {
        stakes = e ∷ ih.stakes;
        sent = ih.sent ∙ ap (λ l. l ++ ih.stakes) sent ∙ append_assoc w.events (e ∷ []) ih.stakes;
        each = (own, ih.each);
      })

  check_merkle_root-world :
      (tree : Tree hashes) (epoch : ℤ) (w : World S PublicKey)
      → (check_merkle_root env tree epoch w).1 ≡ w
  unfolding check_merkle_root
  check_merkle_root-world tree epoch w = ground arith

  -- If mirrorTxs returns no error, then exactly one stake was sent for each transaction, in order,
  -- with its stake data and its proof, and the contract accepted each or refused it with an error
  -- whose text has one of the five reasons that a run passes over.
  pub mirror_txs-Sent :
      (txs : List PChainTxData) (epoch : ℤ) (w : World S PublicKey)
      → (mirror_txs env txs epoch w).0 ≡ ok tt
      → (tree : Tree hashes) × ((build_tree S txs ≡ ok tree)
          × Sent tree txs w (mirror_txs env txs epoch w).1)
  unfolding mirror_txs
  mirror_txs-Sent txs epoch w run =
      let (tree, built, run_c) = bind-eq-ok (lift (build_tree S txs)) _ w run in
      let (done, checked, run_l) =
        bind-eq-ok (check_merkle_root env tree epoch) (λ _. mirror_loop env tree txs) w run_c in
      let same = check_merkle_root-world tree epoch w in
      (tree, (built, rw (built, checked, same) (mirror_loop-Sent tree txs w (rw same at run_l))))
