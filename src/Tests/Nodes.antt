-- ===== src/Tests/Nodes.antt =====
-- Runs of indexer/cronjob/uptime_voting.go on concrete entries.
use flare_p_chain_indexer.Prelude.{◌≡◌, refl, some, List, [], ◌∷◌, ok, arith}
use flare_p_chain_indexer.Prelude.Int.{ℤ, pos, int64, ◌+ℤ◌, ◌-ℤ◌}
use flare_p_chain_indexer.Prelude.Order.{sort_by}
use flare_p_chain_indexer.Prelude.Str.{str_order}
use flare_p_chain_indexer.Prelude.Time.{unix}
use flare_p_chain_indexer.Database.{UptimeCronjob, UptimeCronjobStatus, connected, disconnected}
use flare_p_chain_indexer.Cronjob.Uptime.{NodeStakingInterval, UptimeDb, aggregate_uptimes}
use flare_p_chain_indexer.Cronjob.Uptime.Connected.{InOrder, IsUptime, aggregate_uptimes-IsUptime}
use flare_p_chain_indexer.Cronjob.Uptime.Intervals.{node_of}

abbrev entry : ℤ → UptimeCronjobStatus → UptimeCronjob
entry time status = record { timestamp = time; node_id = some "n"; status = status }

abbrev entries : List UptimeCronjob
entries =
    entry (pos 12_000_000_000) connected
    ∷ entry (pos 15_000_000_000) disconnected
    ∷ entry (pos 17_000_000_000) connected
    ∷ []

in_order : InOrder (pos 10) (pos 20) entries
unfolding unix
in_order = (omega arith, (omega arith, (omega arith, omega arith)))

-- three of the ten seconds are lost
aggregated : aggregate_uptimes entries (pos 10) (pos 20) ≡ pos 7
unfolding aggregate_uptimes unix int64 ◌+ℤ◌ ◌-ℤ◌
aggregated = refl

aggregate_uptimes-IsUptime_example :
    IsUptime (pos 10) (pos 20) entries (aggregate_uptimes entries (pos 10) (pos 20))
aggregate_uptimes-IsUptime_example =
    aggregate_uptimes-IsUptime (pos 10) (pos 20) entries
      (record { low = omega arith; high = omega arith })
      (record { low = omega arith; high = omega arith }) in_order

abbrev interval : ℤ → ℤ → NodeStakingInterval
interval start end = record { node_id = "n"; start = start; end = end }

abbrev other : NodeStakingInterval
other = record { node_id = "m"; start = pos 0; end = pos 9 }

abbrev intervals : List NodeStakingInterval
intervals =
    sort_by str_order node_of (interval (pos 0) (pos 4) ∷ other ∷ interval (pos 5) (pos 8) ∷ [])

abbrev toy_db : UptimeDb
toy_db = record { staking_txs = λ from to. ok []; node_uptimes = λ node from to. ok entries }
