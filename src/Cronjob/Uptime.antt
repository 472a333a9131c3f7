-- ===== src/Cronjob/Uptime.antt =====
-- indexer/cronjob/uptime_voting.go: the uptime of the nodes in an epoch, from what the uptime
-- cronjob recorded. The queries of the database are a parameter.
pub mod Connected
pub mod Intervals
use Prim.Native.String.{String}
use flare_p_chain_indexer.Prelude.{
  ℕ, Bool, true, false, Option, none, some, List, [], ◌∷◌, if◌then◌else◌, drop, length, get_elem?,
  Run, ok, err, panic, ◌>>=◌, or_else, wrap_err,
}
use flare_p_chain_indexer.Prelude.Int.{ℤ, pos, ◌+ℤ◌, ◌-ℤ◌, leb_ℤ, ltb_ℤ, int64}
use flare_p_chain_indexer.Prelude.Time.{Time, unix, of_unix}
use flare_p_chain_indexer.Prelude.Str.{str_eq, str_order}
use flare_p_chain_indexer.Prelude.Order.{sort_by}
use flare_p_chain_indexer.Prelude.Search.{sort_search}
use flare_p_chain_indexer.Prelude.Maps.{add_to_set, string_eq}
use flare_p_chain_indexer.Utils.{interval_intersection}
use flare_p_chain_indexer.Database.{
  PChainTx, UptimeCronjob, UptimeCronjobStatus, connected, disconnected, timeout, service_error,
  indexer_started, UptimeAggregation,
}
use flare_p_chain_indexer.Staking.Epochs.{EpochInfo, get_time_range}

pub record NodeStakingInterval : Type 0 where
  pub node_id : String
  pub start : ℤ
  pub end : ℤ

-- database.FetchNodeStakingIntervals for validators, and database.FetchNodeUptimes
pub record UptimeDb : Type 0 where
  pub staking_txs : Time → Time → Run (List PChainTx)
  pub node_uptimes : String → Time → Time → Run (List UptimeCronjob)

unfoldable pub is_disconnected : UptimeCronjobStatus → Bool
is_disconnected disconnected = true
is_disconnected connected = false
is_disconnected timeout = false
is_disconnected service_error = false
is_disconnected indexer_started = false

-- the loop of aggregateNodeUptime, with the connected time and the time of the last entry
unfoldable pub connected_loop : List UptimeCronjob → ℤ → ℤ → ℤ × ℤ
unfolding is_disconnected
connected_loop [] prev connected_time = (connected_time, prev)
connected_loop (u ∷ uptimes) prev connected_time =
    let curr = unix u.timestamp in
    connected_loop uptimes curr (
      if is_disconnected u.status
      then connected_time
      else int64 (connected_time +ℤ int64 (curr -ℤ prev)))

-- the last `if` of aggregateNodeUptime
unfoldable pub up_to_end : ℤ → ℤ × ℤ → ℤ
up_to_end end_timestamp (connected_time, prev) =
    if ltb_ℤ prev end_timestamp
    then int64 (connected_time +ℤ int64 (end_timestamp -ℤ prev))
    else connected_time

-- the rest of aggregateNodeUptime, for the entries that were fetched
unfoldable pub aggregate_uptimes : List UptimeCronjob → ℤ → ℤ → ℤ
unfolding connected_loop up_to_end
aggregate_uptimes uptimes start_timestamp end_timestamp =
    up_to_end end_timestamp (connected_loop uptimes start_timestamp (pos 0))

module _ (db : UptimeDb) where
  unfoldable pub aggregate_node_uptime : String → ℤ → ℤ → Run ℤ
  unfolding aggregate_uptimes
  aggregate_node_uptime node_id start_timestamp end_timestamp = do
    uptimes ← db.node_uptimes node_id (of_unix start_timestamp) (of_unix end_timestamp)
    ok (aggregate_uptimes uptimes start_timestamp end_timestamp)

  -- the `for` of aggregateNode, from the first interval of the node on
  unfoldable pub node_loop : String → ℤ → ℤ → List NodeStakingInterval → ℤ → ℤ → Run (ℤ × ℤ)
  node_loop node_id epoch_start epoch_end [] node_connected_time staking_duration =
      ok (node_connected_time, staking_duration)
  node_loop node_id epoch_start epoch_end (interval ∷ intervals) node_connected_time
        staking_duration =
      let (start, end) = interval_intersection interval.start interval.end epoch_start epoch_end in
      let skip =
        node_loop node_id epoch_start epoch_end intervals node_connected_time staking_duration in
      let count : Run (ℤ × ℤ) = do
        ct ← wrap_err "failed aggregating node uptime" (aggregate_node_uptime node_id start end)
        node_loop node_id epoch_start epoch_end intervals (int64 (node_connected_time +ℤ ct))
            (int64 (staking_duration +ℤ int64 (end -ℤ start)))
      in if str_eq interval.node_id node_id
        then (if leb_ℤ end start then skip else count)
        else ok (node_connected_time, staking_duration)

  -- The closure of sort.Search. It is called below the length only.
  unfoldable pub is_from_node : String → List NodeStakingInterval → ℕ → Bool
  is_from_node node_id intervals i = elim (get_elem? intervals i) [
    | none ↦ true
    | some interval ↦ str_order.le node_id interval.node_id
  ]

  unfoldable pub aggregate_node :
      EpochInfo → ℤ → String → List NodeStakingInterval → Run UptimeAggregation
  unfolding node_loop is_from_node
  aggregate_node epochs epoch node_id staking_intervals = do
    let idx = sort_search (length staking_intervals) (is_from_node node_id staking_intervals)
    let range = get_time_range epochs epoch
    totals ←
        node_loop node_id (unix range.0) (unix range.1) (drop idx staking_intervals) (pos 0) (pos 0)
    ok (record {
      epoch = epoch;
      start_time = range.0;
      end_time = range.1;
      node_id = node_id;
      value = totals.0;
      staking_duration = totals.1;
    })

  -- the entries of `intervals`; a missing time panics
  unfoldable pub intervals_of : List PChainTx → Run (List NodeStakingInterval)
  intervals_of [] = ok []
  intervals_of (tx ∷ txs) = do
    start ← or_else tx.start_time panic
    stop ← or_else tx.end_time panic
    rest ← intervals_of txs
    ok (record { node_id = tx.node_id; start = unix start; end = unix stop } ∷ rest)

  unfoldable pub fetch_node_staking_intervals : Time → Time → Run (List NodeStakingInterval)
  unfolding intervals_of
  fetch_node_staking_intervals start end = do
    txs ← db.staking_txs start end
    intervals ← intervals_of txs
    ok (sort_by str_order (λ (i : NodeStakingInterval). i.node_id) intervals)

  unfoldable pub epoch_nodes : List NodeStakingInterval → List String
  epoch_nodes [] = []
  epoch_nodes (interval ∷ intervals) = add_to_set (epoch_nodes intervals) interval.node_id

  unfoldable pub aggregate_nodes :
      EpochInfo → ℤ → List NodeStakingInterval → List String → Run (List UptimeAggregation)
  aggregate_nodes epochs epoch staking_intervals [] = ok []
  aggregate_nodes epochs epoch staking_intervals (node_id ∷ node_ids) = do
    node_aggregation ← aggregate_node epochs epoch node_id staking_intervals
    rest ← aggregate_nodes epochs epoch staking_intervals node_ids
    ok (node_aggregation ∷ rest)

  -- The nodes of the set come in some order.
  unfoldable pub aggregate_epoch : EpochInfo → ℤ → Run (List UptimeAggregation)
  unfolding aggregate_nodes epoch_nodes fetch_node_staking_intervals
  aggregate_epoch epochs epoch = do
    let range = get_time_range epochs epoch
    staking_intervals ←
        wrap_err "failed fetching node staking intervals"
          (fetch_node_staking_intervals range.0 range.1)
    aggregate_nodes epochs epoch staking_intervals (epoch_nodes staking_intervals)
