-- ===== src/Cronjob/Mirror/Stakes.antt =====
-- What the mirror cronjob sends to the contract: stakes with proofs that the contract's root accepts.
use mathlib.Core.List.{mem-cons_self, mem-cons_of_mem}
use flare_p_chain_indexer.Prelude.{
  ◌≡◌, refl, sym, ap, ◌∙◌, true, false, List, [], ◌∷◌, Mem, arith, Run, ok, err, panic, Bool-cases,
  inl, inr, errorf, wrap, empty_tree, invalid_index, hash_not_found, no_epochs_to_mirror,
  no_epochs_to_register_addresses, no_epochs_to_aggregate, ok-inj, wrap_err, wrap_err-eq-ok,
}
use flare_p_chain_indexer.Prelude.Int.{ℤ, pos, ◌+ℤ◌, int64}
use flare_p_chain_indexer.Exec.{bind-eq-ok, lift, asks}
use flare_p_chain_indexer.Database.{PChainTxData}
use flare_p_chain_indexer.Merkle
use flare_p_chain_indexer.Merkle.{Tree, verify_proof}
use flare_p_chain_indexer.Staking.{
  StakingApi, StakeData, dedupe_txs, to_stake_data, hash_transaction, get_merkle_proof, build_tree,
}
use flare_p_chain_indexer.Staking.Epochs.{get_time_range}
use flare_p_chain_indexer.Staking.Proofs.{build_tree-IsMirrored, get_merkle_root-built}
use flare_p_chain_indexer.Cronjob.{EpochCronjob, EpochRange, range_epochs}
use flare_p_chain_indexer.Cronjob.World.{World, Env, Event, mirror_stake, fetch_state}
use flare_p_chain_indexer.Cronjob.Trace.{
  Extends, Extends-same, Extends-trans, Extends-log, Extends-bind, Extends-if,
  update_job_state-events,
}
use flare_p_chain_indexer.Cronjob.Mirror.{
  get_epoch_range, get_unmirrored_txs, check_merkle_root, send_mirror_stake, after_mirror_stake,
  mirror_tx, mirror_loop, mirror_txs, mirror_if_any, mirror_epoch, mirror_epochs, call_with, call,
  mirror_state_name,
}

module _ {S : StakingApi} {PublicKey : Type 0} (env : Env S PublicKey) (c : EpochCronjob) where
  open S use {hashes, Hash}

  -- The stake data and the proof of a transaction that the database has for an epoch, which
  -- verifies against the Merkle root that the contract has for the epoch.
  pub record IsProper (stake_data : StakeData) (merkle_proof : List Hash) : Type 0 where
    pub epoch : ℤ
    pub read_in : World S PublicKey
    pub rows : List PChainTxData
    pub tx : PChainTxData
    pub leaf : Hash
    pub checked_in : World S PublicKey
    pub contract_root : Hash
    pub read :
        env.epoch_txs read_in (get_time_range c.epochs epoch).0 (get_time_range c.epochs epoch).1
        ≡ ok rows
    pub listed : Mem tx (dedupe_txs rows)
    pub staked : to_stake_data S tx ≡ ok stake_data
    pub hashed : hash_transaction S tx ≡ ok leaf
    pub confirmed : env.merkle_root checked_in epoch ≡ ok contract_root
    pub verified : verify_proof hashes leaf merkle_proof contract_root ≡ true

  -- Nothing but such stakes is sent.
  abbrev pub Proper : Event S PublicKey → Type 0
  Proper (mirror_stake stake_data merkle_proof answer) = IsProper stake_data merkle_proof
  Proper _ = ⊥

  module _ (epoch : ℤ) (read_in : World S PublicKey) (rows : List PChainTxData)
      (read : env.epoch_txs read_in
          (get_time_range c.epochs epoch).0
          (get_time_range c.epochs epoch).1
        ≡ ok rows)
      (tree : Tree hashes) (built : build_tree S (dedupe_txs rows) ≡ ok tree)
      (checked_in : World S PublicKey) (contract_root : Hash)
      (confirmed : env.merkle_root checked_in epoch ≡ ok contract_root)
      (rooted : Merkle.root hashes tree ≡ ok contract_root) where
    proof-IsProper :
        (tx : PChainTxData) (d : StakeData) (p : List Hash)
        → Mem tx (dedupe_txs rows)
        → to_stake_data S tx ≡ ok d
        → get_merkle_proof S tree tx ≡ ok p
        → IsProper d p
    proof-IsProper tx d p listed staked proved =
        let m = build_tree-IsMirrored S (dedupe_txs rows) tx tree built listed in
        let same_tree : m.tree ≡ tree = ok-inj (sym m.built ∙ built) in
        let same_proof : m.proof ≡ p =
          ok-inj (sym m.proved ∙ ap (λ t. get_merkle_proof S t tx) same_tree ∙ proved) in
        let same_root : m.root ≡ contract_root = ok-inj (
          sym m.rooted
          ∙ get_merkle_root-built S (dedupe_txs rows) tree contract_root built rooted) in
        record {
          epoch = epoch;
          read_in = read_in;
          rows = rows;
          tx = tx;
          leaf = m.leaf;
          checked_in = checked_in;
          contract_root = contract_root;
          read = read;
          listed = listed;
          staked = staked;
          hashed = m.hashed;
          confirmed = confirmed;
          verified =
              sym (ap (λ q. verify_proof hashes m.leaf q contract_root) same_proof)
              ∙ sym (ap (λ r. verify_proof hashes m.leaf m.proof r) same_root)
              ∙ m.verified;
        }

    mirror_tx-Extends :
        (tx : PChainTxData) (w : World S PublicKey)
        → Mem tx (dedupe_txs rows)
        → Extends Proper w (mirror_tx env tree tx w).1
    unfolding mirror_tx
    mirror_tx-Extends tx w listed =
        Extends-bind Proper (lift (to_stake_data S tx)) _ w (Extends-same Proper refl) λ d staked.
          Extends-bind Proper (lift (get_merkle_proof S tree tx)) _ w (Extends-same Proper refl)
            λ p proved.
              Extends-bind Proper (send_mirror_stake env d p)
                (λ answer. lift (after_mirror_stake env answer)) w
                (Extends-log Proper _ w (proof-IsProper tx d p listed staked proved))
                λ answer sent. Extends-same Proper refl

    mirror_loop-Extends :
        (txs : List PChainTxData) (w : World S PublicKey)
        → ((tx : PChainTxData) → Mem tx txs → Mem tx (dedupe_txs rows))
        → Extends Proper w (mirror_loop env tree txs w).1
    unfolding mirror_loop
    mirror_loop-Extends [] w listed = Extends-same Proper refl
    mirror_loop-Extends (tx ∷ txs) w listed =
        Extends-bind Proper (mirror_tx env tree tx) _ w
          (mirror_tx-Extends tx w (listed tx mem-cons_self))
          λ done sent. mirror_loop-Extends txs _ λ x m. listed x (mem-cons_of_mem tx m)

  checked-rooted :
      (tree : Tree hashes) (epoch : ℤ) (w : World S PublicKey)
      → (check_merkle_root env tree epoch w).0 ≡ ok tt
      → (r : Hash) × ((env.merkle_root w epoch ≡ ok r) × (Merkle.root hashes tree ≡ ok r))
  unfolding check_merkle_root
  checked-rooted tree epoch w h =
      let (root, rooted, compared) = bind-eq-ok (lift (Merkle.root hashes tree)) _ w h in
      let (contract_root, answered, agreed) =
        bind-eq-ok (asks (λ v. wrap_err "votingContract.GetMerkleRoot" (env.merkle_root v epoch))) _
          w compared in
      let confirmed =
        wrap_err-eq-ok "votingContract.GetMerkleRoot" (env.merkle_root w epoch) answered in
      elim (Bool-cases (hashes.eq root contract_root)) [
        | inl same ↦
            (contract_root, (confirmed, rooted ∙ ap ok ((hashes.eq_iff root contract_root).0 same)))
        | inr differ ↦ ground (arith, agreed, differ)
      ]

  check_merkle_root-Extends :
      (tree : Tree hashes) (epoch : ℤ) (w : World S PublicKey)
      → Extends Proper w (check_merkle_root env tree epoch w).1
  unfolding check_merkle_root
  check_merkle_root-Extends tree epoch w =
      Extends-bind Proper (lift (Merkle.root hashes tree)) _ w (Extends-same Proper refl)
        λ root rooted.
          Extends-bind Proper
            (asks (λ v. wrap_err "votingContract.GetMerkleRoot" (env.merkle_root v epoch))) _ w
            (Extends-same Proper refl)
            λ contract_root answered.
              Extends-if Proper (hashes.eq root contract_root) _ _ w
                (λ same. Extends-same Proper refl) (λ differ. Extends-same Proper refl)

  mirror_txs-Extends :
      (epoch : ℤ) (read_in w : World S PublicKey) (rows : List PChainTxData)
      → env.epoch_txs read_in (get_time_range c.epochs epoch).0 (get_time_range c.epochs epoch).1
        ≡ ok rows
      → Extends Proper w (mirror_txs env (dedupe_txs rows) epoch w).1
  unfolding mirror_txs
  mirror_txs-Extends epoch read_in w rows read =
      Extends-bind Proper (lift (build_tree S (dedupe_txs rows))) _ w (Extends-same Proper refl)
        λ tree built.
          Extends-bind Proper (check_merkle_root env tree epoch) _ w
            (check_merkle_root-Extends tree epoch w)
            λ done checked.
              let (contract_root, (confirmed, rooted)) = checked-rooted tree epoch w checked in
              mirror_loop-Extends epoch read_in rows read tree built w contract_root confirmed
                rooted (dedupe_txs rows) _ λ x m. m

  mirror_if_any-Extends :
      (epoch : ℤ) (read_in w : World S PublicKey) (rows txs : List PChainTxData)
      → env.epoch_txs read_in (get_time_range c.epochs epoch).0 (get_time_range c.epochs epoch).1
        ≡ ok rows
      → txs ≡ dedupe_txs rows
      → Extends Proper w (mirror_if_any env txs epoch w).1
  unfolding mirror_if_any
  mirror_if_any-Extends epoch read_in w rows [] read same = Extends-same Proper refl
  mirror_if_any-Extends epoch read_in w rows (x ∷ txs) read same =
      rw same (mirror_txs-Extends epoch read_in w rows read)

  mirror_epoch-Extends :
      (epoch : ℤ) (w : World S PublicKey) → Extends Proper w (mirror_epoch env c epoch w).1
  unfolding mirror_epoch get_unmirrored_txs
  mirror_epoch-Extends epoch w =
      let range = get_time_range c.epochs epoch in
      Extends-bind Proper (get_unmirrored_txs env c epoch) (λ txs. mirror_if_any env txs epoch) w
        (Extends-bind Proper (asks (λ v. env.epoch_txs v range.0 range.1)) _ w
          (Extends-same Proper refl) λ rows read. Extends-same Proper refl)
        λ txs fetched.
          let (rows, read, same) =
            bind-eq-ok (asks (λ v. env.epoch_txs v range.0 range.1)) _ w fetched in
          mirror_if_any-Extends epoch w _ rows txs read (sym (ok-inj same))

  mirror_epochs-Extends :
      (es : List ℤ) (w : World S PublicKey) → Extends Proper w (mirror_epochs env c es w).1
  unfolding mirror_epochs
  mirror_epochs-Extends [] w = Extends-same Proper refl
  mirror_epochs-Extends (e ∷ es) w =
      Extends-bind Proper (mirror_epoch env c e) _ w (mirror_epoch-Extends e w)
        λ done m. mirror_epochs-Extends es _

  get_epoch_range-world : (w : World S PublicKey) → (get_epoch_range env c w).1 ≡ w
  unfolding get_epoch_range fetch_state
  get_epoch_range-world w = ground arith

  call_with-Extends :
      (r : Run EpochRange) (w : World S PublicKey) → Extends Proper w (call_with env c r w).1
  unfolding call_with
  call_with-Extends (ok r) w =
      Extends-bind Proper (mirror_epochs env c (range_epochs r)) _ w
        (mirror_epochs-Extends (range_epochs r) w)
        λ done mirrored.
          Extends-same Proper
            (update_job_state-events env mirror_state_name (int64 (r.end +ℤ pos 1)) false _)
  call_with-Extends (err empty_tree) w = Extends-same Proper refl
  call_with-Extends (err invalid_index) w = Extends-same Proper refl
  call_with-Extends (err hash_not_found) w = Extends-same Proper refl
  call_with-Extends (err no_epochs_to_mirror) w = Extends-same Proper refl
  call_with-Extends (err no_epochs_to_register_addresses) w = Extends-same Proper refl
  call_with-Extends (err no_epochs_to_aggregate) w = Extends-same Proper refl
  call_with-Extends (err (errorf t)) w = Extends-same Proper refl
  call_with-Extends (err (wrap t e)) w = Extends-same Proper refl
  call_with-Extends panic w = Extends-same Proper refl

  -- Whatever the database, the contracts and the clock answer, a call of the mirror cronjob sends
  -- only the stake data of transactions that the database returned for an epoch, each with a proof
  -- that verifies against the Merkle root that the voting contract returned for the epoch.
  pub mirror_call-Extends : (w : World S PublicKey) → Extends Proper w (call env c w).1
  unfolding call
  mirror_call-Extends w =
      Extends-trans Proper
        (Extends-same Proper (ap (λ (u : World S PublicKey). u.events) (get_epoch_range-world w)))
        (call_with-Extends (get_epoch_range env c w).0 (get_epoch_range env c w).1)
