-- ===== src/Tests/Uptimes.antt =====
-- Runs of a call of indexer/cronjob/uptime_voting.go.
use flare_p_chain_indexer.Prelude.{◌≡◌, refl, false, some, none, [], ◌∷◌, ok, arith}
use flare_p_chain_indexer.Prelude.Int.{pos, negsuc, int64, ◌+ℤ◌, ◌-ℤ◌}
use flare_p_chain_indexer.Prelude.Str.{codes}
use flare_p_chain_indexer.Database.{UptimeCronjob, connected}
use flare_p_chain_indexer.Cronjob.Uptime.{UptimeDb}
use flare_p_chain_indexer.Cronjob.UptimeVoting.{UptimeWorld, UptimeVoting, call, delete_old_uptimes}
use flare_p_chain_indexer.Cronjob.UptimeVoting.Voted.{Ends, call-Ends}
use flare_p_chain_indexer.Cronjob.UptimeVoting.Deleted.{KeepsRecent, delete_old_uptimes-KeepsRecent}
use flare_p_chain_indexer.Prelude.Int.{quot, ◌*ℤ◌}
use flare_p_chain_indexer.Prelude.Time.{add, sub, unix}
use flare_p_chain_indexer.Prelude.Order.{sort_by}
use flare_p_chain_indexer.Prelude.Str.{str_order}
use flare_p_chain_indexer.Prelude.Search.{sort_search}
use flare_p_chain_indexer.Staking.Epochs.{get_epoch_index, get_time_range}
use flare_p_chain_indexer.Cronjob.{EpochCronjob, range_epochs, get_trimmed_epoch_range}
use flare_p_chain_indexer.Cronjob.Uptime.{aggregate_epoch, aggregate_node, aggregate_node_uptime}
use flare_p_chain_indexer.Prelude.Maps.{add_to_set}
use flare_p_chain_indexer.Utils.{interval_intersection}
use flare_p_chain_indexer.Tests.{toy_job, row_a}

abbrev old_uptime : UptimeCronjob
old_uptime = record { timestamp = pos 90; node_id = some "NodeID-1"; status = connected }

-- a validator that stakes all the time and is never disconnected
abbrev quiet_db : UptimeDb
quiet_db = record {
  staking_txs = λ from to.
      ok
        (record row_a.tx { start_time = some (pos 0); end_time = some (pos 999_000_000_000) } ∷ []);
  node_uptimes = λ node from to. ok [];
}

-- epochs of ten seconds from 100 seconds on
abbrev job : EpochCronjob
job = record toy_job {
  epochs = record { period = pos 10_000_000_000; start = pos 100_000_000_000; first = pos 0 };
}

abbrev voting : UptimeVoting
voting = record {
  cronjob = job;
  delete_old_uptimes_epoch_threshold = pos 6;
  below_threshold = λ value duration. false;
  now = λ w. pos 150_000_000_000;
  uptime_db = λ w. quiet_db;
  node_id_from_string = λ s. ok (codes s);
  submit_answer = λ w epoch ids. ok tt;
  fetch_error = λ w. none;
  persist_error = λ w. none;
  delete_error = λ w. none;
}

abbrev world : UptimeWorld
world = record {
  last_aggregated_epoch = negsuc 0;
  aggregations = [];
  uptimes = old_uptime ∷ [];
  votes = [];
}

-- epochs 0 and 1 are voted for, with the validator
called : (call voting world).0 ≡ ok tt
unfolding call get_epoch_index int64 ◌-ℤ◌ quot sub add ◌+ℤ◌ range_epochs get_trimmed_epoch_range
    aggregate_epoch sort_by add_to_set aggregate_node sort_search str_order interval_intersection
    unix get_time_range ◌*ℤ◌ aggregate_node_uptime
called = refl

call-Ends_example : Ends voting world (call voting world).1
call-Ends_example = call-Ends voting world called

delete_old_uptimes-KeepsRecent_example :
    KeepsRecent voting world (delete_old_uptimes voting world).1
delete_old_uptimes-KeepsRecent_example =
    delete_old_uptimes-KeepsRecent voting world (record { low = omega arith; high = omega arith })
      (record { low = omega arith; high = omega arith })

votes_cast : (call voting world).1.last_aggregated_epoch ≡ pos 1
unfolding call get_epoch_index int64 ◌-ℤ◌ quot sub add ◌+ℤ◌ range_epochs get_trimmed_epoch_range
    aggregate_epoch sort_by add_to_set aggregate_node sort_search str_order interval_intersection
    unix get_time_range ◌*ℤ◌ aggregate_node_uptime
votes_cast = refl
