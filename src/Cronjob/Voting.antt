-- ===== src/Cronjob/Voting.antt =====
-- indexer/cronjob/voting.go: a vote for the Merkle root of each epoch that the contract asks for.
pub mod Votes
pub mod Skips
use Prim.Native.String.{String}
use flare_p_chain_indexer.Prelude.{
  ℕ, Bool, true, false, List, [], ◌∷◌, ◌++◌, replicate, length, ◌==◌, if◌then◌else◌, Run, ok, err,
  panic,
}
use flare_p_chain_indexer.Prelude.Int.{ℤ, pos, ◌+ℤ◌, leb_ℤ, int64, of_uint64, to_uint64}
use flare_p_chain_indexer.Prelude.Time.{Time, Duration}
use flare_p_chain_indexer.Exec.{Exec, pure, fail, lift, asks, ◌>>=◌, ◌>>◌}
use flare_p_chain_indexer.Database.{State, PChainTxData}
use flare_p_chain_indexer.Staking.{StakingApi, dedupe_txs, get_merkle_root}
use flare_p_chain_indexer.Staking.Epochs.{EpochInfo, get_time_range}
use flare_p_chain_indexer.Cronjob.{
  EpochCronjob, EpochRange, get_epoch_range, indexer_behind, range_epochs,
}
use flare_p_chain_indexer.Cronjob.World.{
  World, Env, Event, should_vote, submit_vote, fetch_state, update_state, log,
}

abbrev pub p_chain_state_name : String
p_chain_state_name = "p_chain_block"

abbrev pub voting_state_name : String
voting_state_name = "voting_cronjob"

module _ {S : StakingApi} {PublicKey : Type 0} (env : Env S PublicKey) where
  open S use {hashes, Hash}

  abbrev Job : Type 0 → Type 0
  Job A = Exec (World S PublicKey) A

  -- `zeroBytesHash`
  unfoldable pub zero_bytes_hash : Hash
  zero_bytes_hash = hashes.keccak (replicate 32 0)

  unfoldable pub ask_should_vote : ℤ → Job Bool
  ask_should_vote e w =
      let answer = env.should_vote_answer w e in (answer, log (should_vote e answer) w)

  unfoldable pub send_vote : ℤ → Hash → Job (Unit {0})
  send_vote e merkle_root w =
      let answer = env.submit_vote_answer w e merkle_root in
      (answer, log (submit_vote e merkle_root answer) w)

  -- the root to vote for
  unfoldable pub vote_root : List PChainTxData → Run Hash
  vote_root [] = ok zero_bytes_hash
  vote_root (tx ∷ txs) = get_merkle_root S (tx ∷ txs)

  -- true if the vote was submitted, false if the contract wants none
  unfoldable pub submit_votes : ℤ → List PChainTxData → Job Bool
  unfolding vote_root ask_should_vote send_vote
  submit_votes e voting_data = do
    let deduped = dedupe_txs voting_data
    wanted ← ask_should_vote e
    if wanted
        then (do merkle_root ← lift (vote_root deduped); send_vote e merkle_root; pure true)
        else pure false

  -- the `for` of Call over the epochs that are left; `voted` is `votedInBatch`
  unfoldable pub voting_loop : EpochCronjob → State → List ℤ → State → Bool → Job (Unit {0})
  voting_loop c idx_state [] state voted = pure tt
  voting_loop c idx_state (e ∷ es) state voted =
      let next = record state { next_db_index = to_uint64 (int64 (e +ℤ pos 1)) } in
      let after_vote = voting_loop c idx_state es state true in
      let keep_state = voting_loop c idx_state es state true in
      let move_on = update_state env next >> voting_loop c idx_state es next false in
      let round : Job (Unit {0}) = do
        let range = get_time_range c.epochs e
        voting_data ← asks (λ w. env.voting_data w range.0 range.1)
        did_vote ← submit_votes e voting_data
        if did_vote then after_vote else if voted then keep_state else move_on
      in if indexer_behind c idx_state e then pure tt else round

  unfoldable pub call : EpochCronjob → Job (Unit {0})
  unfolding voting_loop
  call c = do
    idx_state ← fetch_state env p_chain_state_name
    state ← fetch_state env voting_state_name
    now ← asks (λ w. ok (env.now w))
    epoch_range ← lift (get_epoch_range c (of_uint64 state.next_db_index) now)
    voting_loop c idx_state (range_epochs epoch_range) state false

  -- the new `First` is that of the cronjob
  unfoldable pub reset : EpochCronjob → ℤ → Job EpochCronjob
  reset c first_epoch =
      let restart : Job EpochCronjob = do
        state ← fetch_state env voting_state_name
        update_state env (record state { next_db_index = to_uint64 first_epoch })
        pure (record c { epochs = record c.epochs { first = first_epoch } })
      in if leb_ℤ first_epoch (pos 0) then pure c else restart
