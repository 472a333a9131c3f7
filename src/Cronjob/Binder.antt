-- ===== src/Cronjob/Binder.antt =====
-- indexer/cronjob/address_binder.go: the public keys of the stakes' addresses are registered.
pub mod Confirmed
pub mod Keys
use Prim.Native.String.{String}
use flare_p_chain_indexer.Prelude.{
  ℕ, zero, suc, ◌+◌, ◌%◌, ◌^◌, Bool, true, false, not, Option, none, some, List, [], ◌∷◌,
  if◌then◌else◌, leb, length, get_elem?, Run, ok, err, panic, or_else,
  no_epochs_to_register_addresses, errorf, wrap_err,
}
use flare_p_chain_indexer.Prelude.Int.{ℤ, pos, ◌+ℤ◌, ◌-ℤ◌, pos_part, leb_ℤ, ltb_ℤ, int64, of_uint64}
use flare_p_chain_indexer.Prelude.Maps.{contains, add_to_set, string_eq}
use flare_p_chain_indexer.Exec.{Exec, pure, fail, lift, asks, ◌>>=◌, ◌>>◌}
use flare_p_chain_indexer.Database.{State, PChainTxData}
use flare_p_chain_indexer.Merkle
use flare_p_chain_indexer.Staking.{StakingApi, dedupe_txs}
use flare_p_chain_indexer.Staking.Epochs.{EpochInfo, get_time_range, get_epoch_index}
use flare_p_chain_indexer.Cronjob.{EpochCronjob, EpochRange, get_trimmed_epoch_range, range_epochs}
use flare_p_chain_indexer.Cronjob.World.{
  World, Env, Event, register_public_key, fetch_state, update_job_state, log,
}

abbrev pub binder_state_name : String
binder_state_name = "address_binder_cronjob"

module _ {S : StakingApi} {PublicKey : Type 0} (env : Env S PublicKey) where
  open S use {hashes, Hash, zero_hash}

  abbrev Job : Type 0 → Type 0
  Job A = Exec (World S PublicKey) A

  unfoldable pub get_start_epoch : Job ℤ
  get_start_epoch = do
    job_state ← fetch_state env binder_state_name
    pure (of_uint64 job_state.next_db_index)

  unfoldable pub is_epoch_confirmed : ℤ → Job Bool
  is_epoch_confirmed epoch = do
    merkle_root ← asks (λ w. wrap_err "votingContract.GetMerkleRoot" (env.merkle_root w epoch))
    pure (not (hashes.eq merkle_root zero_hash))

  -- The loop of getEndEpoch goes down from `epoch`; `epoch - start` rounds are enough.
  unfoldable pub end_epoch_loop : ℕ → ℤ → ℤ → Job ℤ
  end_epoch_loop zero start epoch = fail no_epochs_to_register_addresses
  end_epoch_loop (suc fuel) start epoch =
      let earlier = end_epoch_loop fuel start (int64 (epoch -ℤ pos 1)) in
      let round : Job ℤ = do
        confirmed ← is_epoch_confirmed epoch
        if confirmed then pure epoch else earlier
      in if ltb_ℤ start epoch then round else fail no_epochs_to_register_addresses

  unfoldable pub get_end_epoch : EpochCronjob → ℤ → Job ℤ
  unfolding end_epoch_loop
  get_end_epoch c start_epoch = do
    curr_epoch ← asks (λ w. get_epoch_index c.epochs (env.now w))
    end_epoch_loop (pos_part (curr_epoch -ℤ start_epoch)) start_epoch curr_epoch

  unfoldable pub get_epoch_range : EpochCronjob → Job EpochRange
  get_epoch_range c = do
    start_epoch ← get_start_epoch
    end_epoch ← get_end_epoch c start_epoch
    pure (get_trimmed_epoch_range c start_epoch end_epoch)

  unfoldable pub get_epoch_txs : EpochCronjob → ℤ → Job (List PChainTxData)
  get_epoch_txs c epoch = do
    let range = get_time_range c.epochs epoch
    txs ← asks (λ w. env.epoch_txs w range.0 range.1)
    pure (dedupe_txs txs)

  unfoldable pub send_public_key : PublicKey → Job (Unit {0})
  send_public_key k w =
      let answer = env.register_answer w k in
      (wrap_err "mirroringContract.RegisterPublicKey" answer, log (register_public_key k answer) w)

  unfoldable pub register_keys : List PublicKey → Job (Unit {0})
  register_keys [] = pure tt
  register_keys (k ∷ keys) = send_public_key k >> register_keys keys

  -- the rest of registerAddress, for a transaction that was found
  unfoldable pub register_found : PChainTxData → Job (Unit {0})
  register_found tx = do
    public_keys ← lift (env.public_keys tx.bytes)
    if leb (length public_keys % 2 ^ 32) tx.input_index
        then fail (errorf "input index out of range")
        else (do
          public_key ← lift (or_else (get_elem? public_keys tx.input_index) panic)
          register_keys public_key)

  unfoldable pub register_unregistered : String → String → Job (Unit {0})
  register_unregistered tx_id address = do
    answer ← asks (λ w. env.get_tx w tx_id address)
    tx ← lift (or_else answer (err (errorf "tx not found")))
    register_found tx

  unfoldable pub register_address : String → String → Job (Unit {0})
  register_address tx_id address = do
    registered ← asks (λ w. env.is_address_registered w address)
    if registered then pure tt else register_unregistered tx_id address

  -- a step whose error is logged only
  unfoldable pub attempt : Job (Unit {0}) → Job (Unit {0})
  attempt m w = let (r, w') = m w in (elim r [ ok _ ↦ ok tt | err _ ↦ ok tt | panic ↦ panic ], w')

  -- The result is the set of registered addresses after the loop.
  unfoldable pub register_txs : List String → List PChainTxData → Job (List String)
  register_txs registered [] = pure registered
  register_txs registered (tx ∷ txs) =
      let skip = register_txs registered txs in
      let rest = register_txs (add_to_set registered tx.input_address) txs in
      let register : Job (List String) = do
        tx_id ← lift (or_else tx.tx_id panic)
        attempt (register_address tx_id tx.input_address)
        rest
      in if contains registered tx.input_address then skip else register

  unfoldable pub register_epoch : EpochCronjob → List String → ℤ → Job (List String)
  register_epoch c registered epoch = do txs ← get_epoch_txs c epoch; register_txs registered txs

  unfoldable pub register_epochs : EpochCronjob → List String → List ℤ → Job (List String)
  register_epochs c registered [] = pure registered
  register_epochs c registered (e ∷ es) =
      register_epoch c registered e >>= λ more. register_epochs c more es

  -- the rest of Call, from the result of getEpochRange
  unfoldable pub call_with : EpochCronjob → Run EpochRange → Job (Unit {0})
  call_with c (ok r) = do
    register_epochs c [] (range_epochs r)
    update_job_state env binder_state_name (int64 (r.end +ℤ pos 1)) false
  call_with c (err no_epochs_to_register_addresses) = pure tt
  call_with c (err e) = fail e
  call_with c panic = lift panic

  unfoldable pub call : EpochCronjob → Job (Unit {0})
  unfolding call_with
  call c w = let (r, w') = get_epoch_range c w in call_with c r w'

  -- the new `First` is that of the cronjob
  unfoldable pub reset : EpochCronjob → ℤ → Job EpochCronjob
  reset c first_epoch =
      let restart : Job EpochCronjob = do
        update_job_state env binder_state_name first_epoch true
        pure (record c { epochs = record c.epochs { first = first_epoch } })
      in if leb_ℤ first_epoch (pos 0) then pure c else restart
