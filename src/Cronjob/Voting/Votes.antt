-- ===== src/Cronjob/Voting/Votes.antt =====
-- Which votes the voting cronjob submits.
use Prim.Native.String.{String}
use mathlib.Core.List.{mem-cons_self, mem-cons_of_mem}
use flare_p_chain_indexer.Prelude.{
  ◌≡◌, ◌≢◌, refl, sym, ap, ◌⊎◌, inl, inr, replicate, ok-inj, Bool, true, false, some, List, [], ◌∷◌,
  Mem, arith, ok,
}
use flare_p_chain_indexer.Prelude.Int.{ℤ, pos, ◌+ℤ◌, int64, of_uint64, to_uint64}
use flare_p_chain_indexer.Prelude.Maps.{lookup, string_eq}
use flare_p_chain_indexer.Exec.{lift, asks}
use flare_p_chain_indexer.Database.{State, PChainTxData}
use flare_p_chain_indexer.Staking.{StakingApi, dedupe_txs, get_merkle_root}
use flare_p_chain_indexer.Staking.Epochs.{get_time_range}
use flare_p_chain_indexer.Cronjob.{
  EpochCronjob, EpochRange, get_epoch_range, indexer_behind, range_epochs,
}
use flare_p_chain_indexer.Cronjob.World.{
  World, Env, Event, should_vote, submit_vote, fetch_state, update_state,
}
use flare_p_chain_indexer.Cronjob.Trace.{
  Extends, Extends-same, Extends-log, Extends-bind, Extends-if, fetch_state-world,
  update_state-events,
}
use flare_p_chain_indexer.Cronjob.Voting.{
  p_chain_state_name, voting_state_name, zero_bytes_hash, vote_root, ask_should_vote, send_vote,
  submit_votes, voting_loop, call,
}

module _ {S : StakingApi} {PublicKey : Type 0} (env : Env S PublicKey) (c : EpochCronjob) where
  open S use {hashes, Hash}

  -- The vote for rows: the Merkle root of their tree, or the hash of 32 zero bytes if there are none.
  abbrev pub IsVoteFor : List PChainTxData → Hash → Type 0
  IsVoteFor txs merkle_root =
      ((txs ≡ []) × (merkle_root ≡ hashes.keccak (replicate 32 0)))
      ⊎ ((txs ≢ []) × (get_merkle_root S txs ≡ ok merkle_root))

  vote_root-IsVoteFor :
      (txs : List PChainTxData) (merkle_root : Hash)
      → vote_root env txs ≡ ok merkle_root
      → IsVoteFor txs merkle_root
  unfolding vote_root zero_bytes_hash
  vote_root-IsVoteFor [] merkle_root e = inl (refl, sym (ok-inj e))
  vote_root-IsVoteFor (tx ∷ txs) merkle_root e = inr (λ h. cc, e)

  -- The root that is voted for is that of the rows that the database has for the epoch.
  pub record IsRootOf (e : ℤ) (merkle_root : Hash) : Type 0 where
    pub seen : World S PublicKey
    pub rows : List PChainTxData
    pub read :
        env.voting_data seen (get_time_range c.epochs e).0 (get_time_range c.epochs e).1 ≡ ok rows
    pub rooted : IsVoteFor (dedupe_txs rows) merkle_root

  -- What may be done for the epochs `Q`: they are asked for, and voted for by the right root.
  abbrev pub Proper : (ℤ → Type 0) → Event S PublicKey → Type 0
  Proper Q (should_vote e answer) = Q e
  Proper Q (submit_vote e merkle_root answer) = Q e × IsRootOf e merkle_root
  Proper Q _ = ⊥

  module _ (Q : ℤ → Type 0) where
    submit_votes-Extends :
        (e : ℤ) (rows : List PChainTxData) (seen w : World S PublicKey)
        → Q e
        → env.voting_data seen (get_time_range c.epochs e).0 (get_time_range c.epochs e).1 ≡ ok rows
        → Extends (Proper Q) w (submit_votes env e rows w).1
    unfolding submit_votes
    submit_votes-Extends e rows seen w q read =
        Extends-bind (Proper Q) (ask_should_vote env e) _ w (Extends-log (Proper Q) _ w q)
          λ wanted asked.
            Extends-if (Proper Q) wanted _ _ _
              (λ yes_wanted.
                Extends-bind (Proper Q) (lift (vote_root env (dedupe_txs rows))) _ _
                  (Extends-same (Proper Q) refl)
                  λ merkle_root rooted.
                    Extends-bind (Proper Q) (send_vote env e merkle_root) _ _
                      (Extends-log (Proper Q) _ _ (
                        q,
                        record {
                          seen = seen;
                          rows = rows;
                          read = read;
                          rooted = vote_root-IsVoteFor (dedupe_txs rows) merkle_root rooted;
                        },
                      ))
                      λ done sent. Extends-same (Proper Q) refl)
              (λ not_wanted. Extends-same (Proper Q) refl)

    module _ (idx_state : State) where
      voting_loop-Extends :
          (es : List ℤ) (state : State) (voted : Bool) (w : World S PublicKey)
          → ((e : ℤ) → Mem e es → indexer_behind c idx_state e ≡ false → Q e)
          → Extends (Proper Q) w (voting_loop env c idx_state es state voted w).1
      unfolding voting_loop
      voting_loop-Extends [] state voted w q = Extends-same (Proper Q) refl
      voting_loop-Extends (e ∷ es) state voted w q =
          let rest = λ (x : ℤ) (m : Mem x es). q x (mem-cons_of_mem e m) in
          Extends-if (Proper Q) (indexer_behind c idx_state e) _ _ w
            (λ behind. Extends-same (Proper Q) refl)
            λ up_to_date.
              let range = get_time_range c.epochs e in
              Extends-bind (Proper Q) (asks (λ v. env.voting_data v range.0 range.1)) _ w
                (Extends-same (Proper Q) refl)
                λ rows read.
                  Extends-bind (Proper Q) (submit_votes env e rows) _ w
                    (submit_votes-Extends e rows w w (q e mem-cons_self up_to_date) read)
                    λ did_vote submitted.
                      let after = (submit_votes env e rows w).1 in
                      let next = record state { next_db_index = to_uint64 (int64 (e +ℤ pos 1)) } in
                      Extends-if (Proper Q) did_vote _ _ after
                        (λ y. voting_loop-Extends es state true after rest)
                        (λ n.
                          Extends-if (Proper Q) voted _ _ after
                            (λ y. voting_loop-Extends es state true after rest)
                            (λ n'.
                              Extends-bind (Proper Q) (update_state env next) _ after
                                (Extends-same (Proper Q) (update_state-events env next after))
                                (λ done saved. voting_loop-Extends es next false _ rest)))

  -- The epochs that a call may vote for: those of its range that the indexer is past.
  pub record IsDue (w : World S PublicKey) (e : ℤ) : Type 0 where
    pub idx_state : State
    pub state : State
    pub epoch_range : EpochRange
    pub indexed : lookup p_chain_state_name w.states ≡ some idx_state
    pub job : lookup voting_state_name w.states ≡ some state
    pub ranged : get_epoch_range c (of_uint64 state.next_db_index) (env.now w) ≡ ok epoch_range
    pub inside : Mem e (range_epochs epoch_range)
    pub not_behind : indexer_behind c idx_state e ≡ false

  fetched :
      (name : String) (w : World S PublicKey) (s : State)
      → (fetch_state env name w).0 ≡ ok s
      → lookup name w.states ≡ some s
  unfolding fetch_state
  fetched name w s h = ground arith

  -- Whatever the database, the contracts and the clock answer, a call only asks and votes for
  -- epochs of its range whose end the indexer has passed, and each vote is for the Merkle root of
  -- the deduplicated rows that the database returned for the epoch, or for the hash of 32 zero bytes
  -- if there are none.
  pub call-Extends : (w : World S PublicKey) → Extends (Proper (IsDue w)) w (call env c w).1
  unfolding call
  call-Extends w =
      let P = Proper (IsDue w) in
      let unchanged = λ (name : String) (v : World S PublicKey).
        ap (λ (u : World S PublicKey). u.events) (fetch_state-world env name v) in
      Extends-bind P (fetch_state env p_chain_state_name) _ w
        (Extends-same P (unchanged p_chain_state_name w))
        λ idx_state indexed. rw (fetch_state-world env p_chain_state_name w) (
          Extends-bind P (fetch_state env voting_state_name) _ w
            (Extends-same P (unchanged voting_state_name w))
            λ state job. rw (fetch_state-world env voting_state_name w) (
              Extends-bind P (lift (get_epoch_range c (of_uint64 state.next_db_index) (env.now w)))
                _ w (Extends-same P refl)
                λ r ranged.
                  voting_loop-Extends (IsDue w) idx_state (range_epochs r) state false w
                    λ e inside not_behind. record {
                      idx_state = idx_state;
                      state = state;
                      epoch_range = r;
                      indexed = fetched p_chain_state_name w idx_state indexed;
                      job = fetched voting_state_name w state job;
                      ranged = ranged;
                      inside = inside;
                      not_behind = not_behind;
                    }))
