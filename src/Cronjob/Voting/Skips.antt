-- ===== src/Cronjob/Voting/Skips.antt =====
-- When the voting cronjob moves its state on: past leading epochs that the contract wants no vote for.
use Prim.Native.String.{String}
use mathlib.Core.List.{append-nil, append_assoc}
use flare_p_chain_indexer.Prelude.{
  ◌≡◌, ◌≢◌, ◌⊎◌, none, refl, sym, ap, ◌∙◌, true, false, List, [], ◌∷◌, ◌++◌, map, arith, ok, inl,
  inr,
}
use flare_p_chain_indexer.Prelude.Int.{ℤ, pos, ◌+ℤ◌, int64, of_uint64, to_uint64}
use flare_p_chain_indexer.Prelude.Maps.{Assoc, insert, string_eq}
use flare_p_chain_indexer.Exec.{lift, asks}
use flare_p_chain_indexer.Database.{State, PChainTxData}
use flare_p_chain_indexer.Staking.{StakingApi, dedupe_txs}
use flare_p_chain_indexer.Staking.Epochs.{get_time_range}
use flare_p_chain_indexer.Cronjob.{
  EpochCronjob, EpochRange, get_epoch_range, indexer_behind, range_epochs,
}
use flare_p_chain_indexer.Cronjob.World.{World, Env, Event, should_vote, fetch_state, log}
use flare_p_chain_indexer.Cronjob.Trace.{
  Stays, Stays-refl, Stays-log, Stays-trans, bind-post, bind-cases, if-post, update_state-cases,
}
use flare_p_chain_indexer.Cronjob.Voting.{
  p_chain_state_name, voting_state_name, vote_root, ask_should_vote, send_vote, submit_votes,
  voting_loop, call,
}

-- The state after the epoch was passed over.
abbrev pub past : State → ℤ → State
past state e = record state { next_db_index = to_uint64 (int64 (e +ℤ pos 1)) }

-- The state table after the epochs were passed over one by one.
unfoldable pub saved : State → List ℤ → Assoc String State → Assoc String State
saved state [] table = table
saved state (e ∷ es) table = saved state es (insert state.name (past state e) table)

-- The job state after the epochs were passed over.
unfoldable pub past_all : State → List ℤ → State
past_all state [] = state
past_all state (e ∷ es) = past_all (past state e) es

module _ {S : StakingApi} {PublicKey : Type 0} where
  -- The world after the contract said for each epoch that it wants no vote, and the state was saved.
  unfoldable pub skip_to : State → List ℤ → World S PublicKey → World S PublicKey
  skip_to state [] w = w
  skip_to state (e ∷ es) w = skip_to (past state e) es (record w {
    states = insert state.name (past state e) w.states;
    events = w.events ++ should_vote e (ok false) ∷ [];
  })

module _ {S : StakingApi} {PublicKey : Type 0} (env : Env S PublicKey) (c : EpochCronjob)
    (idx_state : State) where
  -- Why the epochs that are left were not passed over: there is none, or for the first of them the
  -- indexer is behind, its rows cannot be read, the contract did not say that it wants no vote, or
  -- the state cannot be saved.
  abbrev pub Stops : List ℤ → State → World S PublicKey → Type 0
  Stops [] state w = Unit
  Stops (e ∷ es) state w =
      (indexer_behind c idx_state e ≡ true)
      ⊎ (((rows : List PChainTxData)
            → env.voting_data w (get_time_range c.epochs e).0 (get_time_range c.epochs e).1
              ≢ ok rows)
          ⊎ ((env.should_vote_answer w e ≢ ok false)
              ⊎ (env.save_error (log (should_vote e (ok false)) w) (past state e) ≢ none)))

  -- A run over the epochs `es` passed over `skipped`: the contract wanted no vote for any of them,
  -- and nothing else was done before. What was left changed the state table no more.
  pub record Skipped (es : List ℤ) (state : State) (w w' : World S PublicKey) : Type 0 where
    pub skipped : List ℤ
    pub left : List ℤ
    pub split : es ≡ skipped ++ left
    pub table : w'.states ≡ saved state skipped w.states
    pub rest : List (Event S PublicKey)
    pub asked : w'.events ≡ (w.events ++ map (λ e. should_vote e (ok false)) skipped) ++ rest
    -- and it passed over as many as it could
    pub stops : Stops left (past_all state skipped) (skip_to state skipped w)

  none-Skipped :
      (es : List ℤ) (state : State) (w w' : World S PublicKey)
      → Stops es state w
      → Stays w w'
      → Skipped es state w w'
  unfolding saved past_all skip_to
  none-Skipped es state w w' stops h = record {
    stops = stops;
    skipped = [];
    left = es;
    split = refl;
    table = h.table;
    rest = h.new;
    asked = h.appended ∙ ap (λ l. l ++ h.new) (sym (append-nil w.events));
  }

module _ {S : StakingApi} {PublicKey : Type 0} (env : Env S PublicKey) (c : EpochCronjob) where
  submit_votes-Stays :
      (e : ℤ) (rows : List PChainTxData) (w : World S PublicKey)
      → Stays w (submit_votes env e rows w).1
  unfolding submit_votes
  submit_votes-Stays e rows w =
      bind-post (Stays w) (ask_should_vote env e) _ w (Stays-log _ w) λ wanted asked.
        if-post (Stays w) wanted _ _ _
          (λ y.
            bind-post (Stays w) (lift (vote_root env (dedupe_txs rows))) _ _ (Stays-log _ w)
              λ merkle_root rooted.
                bind-post (Stays w) (send_vote env e merkle_root) _ _
                  (Stays-trans (Stays-log _ w) (Stays-log _ _))
                  (λ done sent. Stays-trans (Stays-log _ w) (Stays-log _ _)))
          (λ n. Stays-log _ w)

  -- a vote, or no answer, is not the answer that no vote is wanted
  submit_votes-not_false :
      (e : ℤ) (rows : List PChainTxData) (w : World S PublicKey)
      → (submit_votes env e rows w).0 ≢ ok false
      → env.should_vote_answer w e ≢ ok false
  unfolding submit_votes ask_should_vote
  submit_votes-not_false e rows w h answer = h (rw (answer, submit_votes) refl)

  -- without a vote, the contract was asked and nothing else was done
  submit_votes-false :
      (e : ℤ) (rows : List PChainTxData) (w : World S PublicKey)
      → (submit_votes env e rows w).0 ≡ ok false
      → (submit_votes env e rows w).1 ≡ log (should_vote e (ok false)) w
  unfolding submit_votes
  submit_votes-false e rows w h = ground arith

  module _ (idx_state : State) where
    -- after a vote the state table is left alone
    voting_loop-voted :
        (es : List ℤ) (state : State) (w : World S PublicKey)
        → Stays w (voting_loop env c idx_state es state true w).1
    unfolding voting_loop
    voting_loop-voted [] state w = Stays-refl w
    voting_loop-voted (e ∷ es) state w =
        let range = get_time_range c.epochs e in
        if-post (Stays w) (indexer_behind c idx_state e) _ _ w (λ b. Stays-refl w)
          λ n.
            bind-post (Stays w) (asks (λ v. env.voting_data v range.0 range.1)) _ w (Stays-refl w)
              λ rows read.
                let done = submit_votes-Stays e rows w in
                bind-post (Stays w) (submit_votes env e rows) _ w done λ did_vote submitted.
                  let after = (submit_votes env e rows w).1 in
                  if-post (Stays w) did_vote _ _ after
                    (λ y. Stays-trans done (voting_loop-voted es state after))
                    (λ y. Stays-trans done (voting_loop-voted es state after))

    -- the rest of the run, after one epoch was passed over
    Skipped-cons :
        (e : ℤ) (es : List ℤ) (state : State) (w w' : World S PublicKey)
        → Skipped env c idx_state es
            (past state e)
            (record (log (should_vote e (ok false)) w) {
              states = insert state.name (past state e) w.states;
            })
            w'
        → Skipped env c idx_state (e ∷ es) state w w'
    unfolding saved log past_all skip_to
    Skipped-cons e es state w w' h = record {
      stops = h.stops;
      skipped = e ∷ h.skipped;
      left = h.left;
      split = ap (λ l. e ∷ l) h.split;
      table = h.table;
      rest = h.rest;
      asked =
          h.asked
          ∙ ap (λ l. l ++ h.rest)
              (append_assoc w.events (should_vote e (ok false) ∷ [])
                (map (λ x. should_vote x (ok false)) h.skipped));
    }

    voting_loop-Skipped :
        (es : List ℤ) (state : State) (w : World S PublicKey)
        → Skipped env c idx_state es state w (voting_loop env c idx_state es state false w).1
    unfolding voting_loop log
    voting_loop-Skipped [] state w = none-Skipped env c idx_state [] state w w tt (Stays-refl w)
    voting_loop-Skipped (e ∷ es) state w =
        let range = get_time_range c.epochs e in
        let K = Skipped env c idx_state (e ∷ es) state w in
        let unchanged = none-Skipped env c idx_state (e ∷ es) state w in
        if-post K (indexer_behind c idx_state e) _ _ w
          (λ behind. unchanged w (inl behind) (Stays-refl w))
          λ n.
            bind-cases K (asks (λ v. env.voting_data v range.0 range.1)) _ w
              (λ unread. unchanged w (inr (inl unread)) (Stays-refl w))
              λ rows read.
                let done = submit_votes-Stays e rows w in
                let after = (submit_votes env e rows w).1 in
                let refuses : (submit_votes env e rows w).0 ≢ ok false
                    → Stops env c idx_state (e ∷ es) state w =
                  λ h. inr (inr (inl (submit_votes-not_false e rows w h))) in
                bind-cases K (submit_votes env e rows) _ w
                  (λ failed. unchanged after (refuses (failed false)) done)
                  λ did_vote submitted.
                    if-post K did_vote _ _ after
                      (λ y.
                        unchanged _ (refuses (λ e. cc (rw y at submitted, e)))
                          (Stays-trans done (voting_loop-voted es state after)))
                      (λ no_vote.
                        let asked : after ≡ log (should_vote e (ok false)) w =
                          submit_votes-false e rows w (rw no_vote at submitted) in
                        elim (update_state-cases env (past state e) after) [
                          | inl written ↦
                              rw (written, asked)
                                (Skipped-cons e es state w _
                                  (voting_loop-Skipped es (past state e) _))
                          | inr (x, (unsaved, refused)) ↦
                              let saves = rw asked at unsaved in
                              rw refused (unchanged after (inr (inr (inr (λ e. cc)))) done)
                        ])

  -- If a call can read the two states and the epoch range, it moves the job's state exactly past
  -- the leading epochs of the range for which the contract said, before anything else was asked or
  -- done, that it wants no vote; no later answer and no vote changes the state table.
  pub call-Skipped :
      (w : World S PublicKey) (idx_state state : State) (r : EpochRange)
      → fetch_state env p_chain_state_name w ≡ (ok idx_state, w)
      → fetch_state env voting_state_name w ≡ (ok state, w)
      → get_epoch_range c (of_uint64 state.next_db_index) (env.now w) ≡ ok r
      → Skipped env c idx_state (range_epochs r) state w (call env c w).1
  unfolding call
  call-Skipped w idx_state state r indexed job ranged =
      rw (indexed, job, ranged) (voting_loop-Skipped idx_state (range_epochs r) state w)
