-- ===== src/Cronjob/UptimeVoting.antt =====
-- indexer/cronjob/uptime_voting.go: the uptimes of the ended epochs are aggregated, voted for and
-- stored. The floating-point threshold, the contract, the clock and the errors of the database are
-- parameters.
pub mod Looped
pub mod Voted
pub mod Deleted
use Prim.Native.String.{String}
use flare_p_chain_indexer.Prelude.{
  rows_where, ℕ, Bool, true, false, not, ◌||◌, Option, none, some, List, [], ◌∷◌, ◌++◌,
  if◌then◌else◌, Run, ok, err, panic, Error, no_epochs_to_aggregate, wrap, wrap_err,
}
use flare_p_chain_indexer.Prelude.{◌>>=◌ as then_run}
use flare_p_chain_indexer.Prelude.Int.{ℤ, pos, ◌+ℤ◌, ◌-ℤ◌, leb_ℤ, ltb_ℤ, eq_ℤ, int64}
use flare_p_chain_indexer.Prelude.Time.{Time, add, before}
use flare_p_chain_indexer.Exec.{Exec, pure, fail, lift, asks, ◌>>=◌, ◌>>◌}
use flare_p_chain_indexer.Database.{UptimeAggregation, UptimeCronjob}
use flare_p_chain_indexer.Database.PChain.{create_rows}
use flare_p_chain_indexer.Staking.Epochs.{EpochInfo, get_epoch_index, get_time_range}
use flare_p_chain_indexer.Cronjob.{EpochCronjob, EpochRange, get_trimmed_epoch_range, range_epochs}
use flare_p_chain_indexer.Cronjob.Uptime.{UptimeDb, aggregate_epoch}

-- a call of SubmitValidatorUptimeVote with its answer
pub record Vote : Type 0 where
  pub epoch : ℤ
  pub node_ids : List (List ℕ)
  pub answer : Run (Unit {0})

-- the field of the cronjob, the tables of the uptimes, and the votes that were sent
pub record UptimeWorld : Type 0 where
  pub last_aggregated_epoch : ℤ
  pub aggregations : List UptimeAggregation
  pub uptimes : List UptimeCronjob
  pub votes : List Vote

-- `uptimeVotingCronjob`, with the answers of what is not modelled
pub record UptimeVoting : Type 0 where
  pub cronjob : EpochCronjob
  pub delete_old_uptimes_epoch_threshold : ℤ
  -- `float64(a.Value) / float64(a.StakingDuration) < c.uptimeThreshold`
  pub below_threshold : ℤ → ℤ → Bool
  pub now : UptimeWorld → Time
  pub uptime_db : UptimeWorld → UptimeDb
  pub node_id_from_string : String → Run (List ℕ)
  pub submit_answer : UptimeWorld → ℤ → List (List ℕ) → Run (Unit {0})
  -- errors of the database, on a read, a write and a deletion
  pub fetch_error : UptimeWorld → Option Error
  pub persist_error : UptimeWorld → Option Error
  pub delete_error : UptimeWorld → Option Error

abbrev Job : Type 0 → Type 0
Job = Exec UptimeWorld

-- `Order("epoch desc").First`
unfoldable pub last_aggregation : List UptimeAggregation → Option UptimeAggregation
last_aggregation [] = none
last_aggregation (a ∷ rows) = elim (last_aggregation rows) [
  | none ↦ some a
  | some b ↦ if ltb_ℤ a.epoch b.epoch then some b else some a
]

-- FetchLastUptimeAggregation of database/queries.go
unfoldable pub fetch_last_uptime_aggregation :
    Option Error → List UptimeAggregation → Run (Option UptimeAggregation)
unfolding last_aggregation
fetch_last_uptime_aggregation none rows = ok (last_aggregation rows)
fetch_last_uptime_aggregation (some e) rows = err e

-- the first epoch after the last aggregation
unfoldable pub first_epoch_to_aggregate : Option UptimeAggregation → ℤ
first_epoch_to_aggregate none = pos 0
first_epoch_to_aggregate (some a) = int64 (a.epoch +ℤ pos 1)

-- DeleteUptimesBefore of database/queries.go
unfoldable pub uptimes_from : Time → List UptimeCronjob → List UptimeCronjob
uptimes_from t uptimes = rows_where (λ (u : UptimeCronjob). not (before u.timestamp t)) uptimes

module _ (c : UptimeVoting) where
  open c use {cronjob}

  -- the rest of aggregationRange, for the last epoch to aggregate
  unfoldable pub range_to : ℤ → UptimeWorld → Run EpochRange
  unfolding fetch_last_uptime_aggregation first_epoch_to_aggregate
  range_to last_epoch w =
      if ltb_ℤ last_epoch (pos 0) || leb_ℤ last_epoch w.last_aggregated_epoch
      then err no_epochs_to_aggregate
      else then_run
          (wrap_err "failed fetching last uptime aggregation"
            (fetch_last_uptime_aggregation (c.fetch_error w) w.aggregations))
          (λ last. ok (get_trimmed_epoch_range cronjob (first_epoch_to_aggregate last) last_epoch))

  unfoldable pub aggregation_range : UptimeWorld → Run EpochRange
  unfolding range_to
  aggregation_range w =
      then_run (get_epoch_index cronjob.epochs (add (c.now w) (int64 (pos 0 -ℤ cronjob.delay))))
        (λ current. range_to (int64 (current -ℤ pos 1)) w)

  -- the loop of submitVotes
  unfoldable pub voted_nodes : List UptimeAggregation → Run (List (List ℕ))
  voted_nodes [] = ok []
  voted_nodes (a ∷ rows) =
      let rest = voted_nodes rows in
      let with_node =
        then_run (wrap_err "ids.NodeIDFromString" (c.node_id_from_string a.node_id))
          (λ id. then_run rest (λ ids. ok (id ∷ ids))) in
      if eq_ℤ a.staking_duration (pos 0)
      then rest
      else if c.below_threshold a.value a.staking_duration
      then rest
      else with_node

  unfoldable pub send_vote : ℤ → List (List ℕ) → Job (Unit {0})
  send_vote epoch node_ids w =
      let answer = c.submit_answer w epoch node_ids in
      (
        answer,
        record w {
          votes = w.votes ++ record { epoch = epoch; node_ids = node_ids; answer = answer } ∷ [];
        },
      )

  unfoldable pub submit_votes : ℤ → List UptimeAggregation → Job (Unit {0})
  unfolding voted_nodes send_vote
  submit_votes epoch rows = do node_ids ← lift (voted_nodes rows); send_vote epoch node_ids

  -- the loop of Call, with the aggregations and the last aggregated epoch so far
  unfoldable pub aggregate_loop :
      List ℤ → List UptimeAggregation → ℤ → Job (List UptimeAggregation × ℤ)
  unfolding submit_votes
  aggregate_loop [] aggregations last w = (ok (aggregations, last), w)
  aggregate_loop (epoch ∷ epochs) aggregations last w =
      elim (aggregate_epoch (c.uptime_db w) cronjob.epochs epoch) [
        | err e ↦ (err e, w)
        | panic ↦ (panic, w)
        | ok rows ↦
            let (submitted, w') = submit_votes epoch rows w in
            elim submitted [
              | err e ↦ (ok (aggregations, last), w')
              | panic ↦ (panic, w')
              | ok u ↦ aggregate_loop epochs (aggregations ++ rows) epoch w'
            ]
      ]

  -- PersistUptimeAggregations of database/queries.go, with the error as Call returns it
  unfoldable pub persist : List UptimeAggregation → Job (Unit {0})
  unfolding create_rows
  persist rows w = elim (create_rows (c.persist_error w) w.aggregations rows) [
    | ok stored ↦ (ok tt, record w { aggregations = stored })
    | err e ↦ (err (wrap "failed persisting uptime aggregations" e), w)
    | panic ↦ (panic, w)
  ]

  unfoldable pub last_epoch_to_delete : ℤ → ℤ
  last_epoch_to_delete last =
      if ltb_ℤ c.delete_old_uptimes_epoch_threshold (pos 5)
      then int64 (last -ℤ pos 5)
      else int64 (last -ℤ c.delete_old_uptimes_epoch_threshold)

  -- deleteOldUptimes; Call only logs its error
  unfoldable pub delete_old_uptimes : Job (Unit {0})
  unfolding last_epoch_to_delete uptimes_from
  delete_old_uptimes w =
      let epoch = last_epoch_to_delete w.last_aggregated_epoch in
      let kept = uptimes_from (get_time_range cronjob.epochs epoch).1 w.uptimes in
      let deletion : Run (Unit {0}) × UptimeWorld = elim (c.delete_error w) [
        | some e ↦ (err e, w)
        | none ↦ (ok tt, record w { uptimes = kept })
      ] in
      if leb_ℤ c.delete_old_uptimes_epoch_threshold (pos 0)
      then (ok tt, w)
      else if ltb_ℤ epoch (pos 0)
      then (ok tt, w)
      else deletion

  unfoldable pub set_last : ℤ → Job (Unit {0})
  set_last last w = (ok tt, record w { last_aggregated_epoch = last })

  -- the error of deleteOldUptimes is only logged
  unfoldable pub delete_logged : Job (Unit {0})
  unfolding delete_old_uptimes
  delete_logged w = (ok tt, (delete_old_uptimes w).1)

  -- the rest of Call, after the loop
  unfoldable pub finish : List UptimeAggregation × ℤ → Job (Unit {0})
  unfolding persist set_last delete_logged
  finish done = persist done.0 >> (set_last done.1 >> delete_logged)

  -- Call for a range of epochs
  unfoldable pub aggregate_range : EpochRange → Job (Unit {0})
  unfolding aggregate_loop finish
  aggregate_range r w = (aggregate_loop (range_epochs r) [] w.last_aggregated_epoch >>= finish) w

  -- the rest of Call, from the result of aggregationRange
  unfoldable pub call_with : Run EpochRange → Job (Unit {0})
  unfolding aggregate_range
  call_with (ok r) = aggregate_range r
  call_with (err no_epochs_to_aggregate) = pure tt
  call_with (err e) = fail e
  call_with panic = lift panic

  unfoldable pub call : Job (Unit {0})
  unfolding call_with aggregation_range
  call w = call_with (aggregation_range w) w
