-- ===== src/Cronjob/Uptime/Intervals.antt =====
-- aggregateNode of indexer/cronjob/uptime_voting.go: sort.Search and the loop that stops at the next
-- node together meet every staking interval of the node.
use Prim.Native.String.{String}
use flare_p_chain_indexer.Prelude.{List, [], ◌∷◌, if◌then◌else◌, Run, ok, ◌>>=◌, wrap_err}
use flare_p_chain_indexer.Prelude.Int.{ℤ, pos, ◌+ℤ◌, ◌-ℤ◌, leb_ℤ, int64}
use flare_p_chain_indexer.Prelude.Time.{unix}
use flare_p_chain_indexer.Prelude.Str.{str_eq}
use flare_p_chain_indexer.Utils.{interval_intersection}
use flare_p_chain_indexer.Database.{UptimeAggregation}
use flare_p_chain_indexer.Staking.Epochs.{EpochInfo, get_time_range}
use flare_p_chain_indexer.Cronjob.Uptime.{
  NodeStakingInterval, UptimeDb, node_loop, aggregate_node_uptime,
}

abbrev pub node_of : NodeStakingInterval → String
node_of interval = interval.node_id

-- the intervals of a node, in order
pub own : String → List NodeStakingInterval → List NodeStakingInterval
own node_id [] = []
own node_id (i ∷ intervals) =
    let rest = own node_id intervals in if str_eq i.node_id node_id then i ∷ rest else rest

-- the aggregation of the intervals of one node
pub aggregate_own :
    UptimeDb → EpochInfo → ℤ → String → List NodeStakingInterval → Run UptimeAggregation
aggregate_own db epochs epoch node_id intervals = do
  let range = get_time_range epochs epoch
  totals ← node_loop db node_id (unix range.0) (unix range.1) intervals (pos 0) (pos 0)
  ok (record {
    epoch = epoch;
    start_time = range.0;
    end_time = range.1;
    node_id = node_id;
    value = totals.0;
    staking_duration = totals.1;
  })

module _ (db : UptimeDb) (node_id : String) (epoch_start epoch_end : ℤ) where
  -- what the loop does for an interval of the node, and then `next`
  abbrev round : NodeStakingInterval → ℤ → ℤ → (ℤ → ℤ → Run (ℤ × ℤ)) → Run (ℤ × ℤ)
  round interval ct sd next =
      let (start, end) = interval_intersection interval.start interval.end epoch_start epoch_end in
      let count : Run (ℤ × ℤ) = do
        more ←
            wrap_err "failed aggregating node uptime" (aggregate_node_uptime db node_id start end)
        next (int64 (ct +ℤ more)) (int64 (sd +ℤ int64 (end -ℤ start)))
      in if leb_ℤ end start then next ct sd else count
