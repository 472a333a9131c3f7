-- ===== src/Cronjob/Mirror.antt =====
-- indexer/cronjob/mirror.go: the stakes of an epoch are mirrored to the C-chain with their proofs.
pub mod Epochs
pub mod Stakes
pub mod Sent
use Prim.Native.String.{String}
use flare_p_chain_indexer.Prelude.{
  ℕ, zero, suc, Bool, true, false, ◌||◌, Option, none, some, List, [], ◌∷◌, if◌then◌else◌, Run, ok,
  err, panic, Error, no_epochs_to_mirror, errorf, wrap, wrap_err,
}
use flare_p_chain_indexer.Prelude.Errors.{contains_text}
use flare_p_chain_indexer.Prelude.Int.{ℤ, pos, ◌+ℤ◌, ◌-ℤ◌, pos_part, leb_ℤ, ltb_ℤ, int64, of_uint64}
use flare_p_chain_indexer.Prelude.Time.{Time, Duration, add, after}
use flare_p_chain_indexer.Exec.{Exec, pure, fail, lift, asks, ◌>>=◌, ◌>>◌}
use flare_p_chain_indexer.Database.{State, PChainTxData}
use flare_p_chain_indexer.Merkle
use flare_p_chain_indexer.Merkle.{Tree}
use flare_p_chain_indexer.Staking.{
  StakingApi, StakeData, to_stake_data, get_merkle_proof, build_tree, dedupe_txs,
}
use flare_p_chain_indexer.Staking.Epochs.{EpochInfo, get_time_range, get_end_time}
use flare_p_chain_indexer.Cronjob.{EpochCronjob, EpochRange, get_trimmed_epoch_range, range_epochs}
use flare_p_chain_indexer.Cronjob.World.{
  World, Env, Event, mirror_stake, fetch_state, update_job_state, log,
}

abbrev pub mirror_state_name : String
mirror_state_name = "mirror_cronjob"

abbrev pub address_binder_state_name : String
address_binder_state_name = "address_binder_cronjob"

-- the errors of the contract after which the next transaction is mirrored
unfoldable pub is_tolerated : Error → Bool
is_tolerated e =
    contains_text e "transaction already mirrored"
    || contains_text e "staking already ended"
    || contains_text e "unknown staking address"
    || contains_text e "staking data invalid"
    || contains_text e "Max node ids exceeded"

-- The loop of getEpochRange goes down from `end`; `end - start + 1` rounds are enough.
unfoldable pub end_epoch_loop : ℕ → EpochInfo → Time → ℤ → ℤ → ℤ
end_epoch_loop zero epochs now start end = end
end_epoch_loop (suc fuel) epochs now start end =
    let lower = end_epoch_loop fuel epochs now start (int64 (end -ℤ pos 1)) in
    if leb_ℤ start end
    then (if after (get_end_time epochs end) (add now (int64 (pos 0 -ℤ epochs.period)))
        then lower
        else end)
    else end

unfoldable pub end_epoch : EpochInfo → Time → ℤ → ℤ → ℤ
unfolding end_epoch_loop
end_epoch epochs now start end =
    end_epoch_loop (pos_part (end -ℤ start +ℤ pos 1)) epochs now start end

module _ {S : StakingApi} {PublicKey : Type 0} (env : Env S PublicKey) where
  open S use {hashes, Hash}

  abbrev Job : Type 0 → Type 0
  Job A = Exec (World S PublicKey) A

  unfoldable pub get_epoch_range : EpochCronjob → Job EpochRange
  get_epoch_range c = do
    now ← asks (λ w. ok (env.now w))
    binder_job_state ← fetch_state env address_binder_state_name
    job_state ← fetch_state env mirror_state_name
    let start_epoch = of_uint64 job_state.next_db_index
    let last_epoch =
        end_epoch c.epochs now start_epoch
          (int64 (of_uint64 binder_job_state.next_db_index -ℤ pos 1))
    if ltb_ℤ last_epoch start_epoch
        then fail no_epochs_to_mirror
        else pure (get_trimmed_epoch_range c start_epoch last_epoch)

  unfoldable pub get_unmirrored_txs : EpochCronjob → ℤ → Job (List PChainTxData)
  get_unmirrored_txs c epoch = do
    let range = get_time_range c.epochs epoch
    txs ← asks (λ w. env.epoch_txs w range.0 range.1)
    pure (dedupe_txs txs)

  unfoldable pub check_merkle_root : Tree hashes → ℤ → Job (Unit {0})
  check_merkle_root tree epoch = do
    root ← lift (Merkle.root hashes tree)
    contract_root ← asks (λ w. wrap_err "votingContract.GetMerkleRoot" (env.merkle_root w epoch))
    if hashes.eq root contract_root then pure tt else fail (errorf "merkle root mismatch")

  unfoldable pub send_mirror_stake : StakeData → List Hash → Job (Run (Unit {0}))
  send_mirror_stake stake_data merkle_proof w =
      let answer = env.mirror_stake_answer w stake_data merkle_proof in
      (ok answer, log (mirror_stake stake_data merkle_proof answer) w)

  -- what mirrorTx makes of the contract's answer
  unfoldable pub after_mirror_stake : Run (Unit {0}) → Run (Unit {0})
  unfolding is_tolerated
  after_mirror_stake (ok _) = ok tt
  after_mirror_stake (err e) =
      if is_tolerated e then ok tt else err (wrap "mirroringContract.MirrorStake" e)
  after_mirror_stake panic = panic

  unfoldable pub mirror_tx : Tree hashes → PChainTxData → Job (Unit {0})
  unfolding send_mirror_stake
  mirror_tx tree tx = do
    stake_data ← lift (to_stake_data S tx)
    merkle_proof ← lift (get_merkle_proof S tree tx)
    answer ← send_mirror_stake stake_data merkle_proof
    lift (after_mirror_stake answer)

  unfoldable pub mirror_loop : Tree hashes → List PChainTxData → Job (Unit {0})
  mirror_loop tree [] = pure tt
  mirror_loop tree (tx ∷ txs) = mirror_tx tree tx >> mirror_loop tree txs

  unfoldable pub mirror_txs : List PChainTxData → ℤ → Job (Unit {0})
  mirror_txs txs epoch = do
    merkle_tree ← lift (build_tree S txs)
    check_merkle_root merkle_tree epoch
    mirror_loop merkle_tree txs

  unfoldable pub mirror_if_any : List PChainTxData → ℤ → Job (Unit {0})
  mirror_if_any [] epoch = pure tt
  mirror_if_any (tx ∷ txs) epoch = mirror_txs (tx ∷ txs) epoch

  unfoldable pub mirror_epoch : EpochCronjob → ℤ → Job (Unit {0})
  unfolding mirror_if_any
  mirror_epoch c epoch = do txs ← get_unmirrored_txs c epoch; mirror_if_any txs epoch

  unfoldable pub mirror_epochs : EpochCronjob → List ℤ → Job (Unit {0})
  mirror_epochs c [] = pure tt
  mirror_epochs c (e ∷ es) = mirror_epoch c e >> mirror_epochs c es

  -- the rest of Call, from the result of getEpochRange
  unfoldable pub call_with : EpochCronjob → Run EpochRange → Job (Unit {0})
  call_with c (ok r) = do
    mirror_epochs c (range_epochs r)
    update_job_state env mirror_state_name (int64 (r.end +ℤ pos 1)) false
  call_with c (err no_epochs_to_mirror) = pure tt
  call_with c (err e) = fail e
  call_with c panic = lift panic

  unfoldable pub call : EpochCronjob → Job (Unit {0})
  unfolding call_with
  call c w = let (r, w') = get_epoch_range c w in call_with c r w'

  -- the new `First` is that of the cronjob
  unfoldable pub reset : EpochCronjob → ℤ → Job EpochCronjob
  reset c first_epoch =
      let restart : Job EpochCronjob = do
        update_job_state env mirror_state_name first_epoch true
        pure (record c { epochs = record c.epochs { first = first_epoch } })
      in if leb_ℤ first_epoch (pos 0) then pure c else restart
