-- ===== src/Cronjob.antt =====
-- indexer/cronjob/cronjob.go: the epochs that one call of a cronjob processes.
pub mod Range
pub mod World
pub mod Trace
pub mod Voting
pub mod Mirror
pub mod Binder
pub mod Uptime
pub mod UptimeVoting
use flare_p_chain_indexer.Prelude.{
  ℕ, zero, suc, Bool, ◌||◌, List, [], ◌∷◌, leb, if◌then◌else◌, Run, ok, ◌>>=◌,
}
use flare_p_chain_indexer.Prelude.Int.{ℤ, pos, ◌+ℤ◌, ◌-ℤ◌, pos_part, eq_ℤ, leb_ℤ, ltb_ℤ, int64}
use flare_p_chain_indexer.Prelude.Time.{Time, Duration, add, after}
use flare_p_chain_indexer.Utils.{max}
use flare_p_chain_indexer.Database.{State}
use flare_p_chain_indexer.Staking.Epochs.{EpochInfo, get_end_time, get_epoch_index}

pub record EpochCronjob : Type 0 where
  pub enabled : Bool
  pub timeout : Duration
  pub epochs : EpochInfo
  pub delay : Duration
  pub batch_size : ℤ

-- a closed interval
pub record EpochRange : Type 0 where
  pub start : ℤ
  pub end : ℤ

abbrev pub default_epoch_batch_size : ℤ
default_epoch_batch_size = pos 100

-- the `batchSize` that the function computes with
unfoldable pub batch_size_for : EpochCronjob → ℤ → ℤ → ℤ
batch_size_for c start end =
    if eq_ℤ c.batch_size (pos 0)
    then default_epoch_batch_size
    else if ltb_ℤ c.batch_size (pos 0)
    then int64 (int64 (end -ℤ start) +ℤ pos 1)
    else c.batch_size

unfoldable pub get_trimmed_epoch_range : EpochCronjob → ℤ → ℤ → EpochRange
unfolding batch_size_for max
get_trimmed_epoch_range c from end =
    let start = max from c.epochs.first in
    let batch_size = batch_size_for c start end in
    if leb_ℤ (int64 (start +ℤ batch_size)) end
    then record { start = start; end = int64 (int64 (batch_size +ℤ start) -ℤ pos 1) }
    else record { start = start; end = end }

unfoldable pub get_epoch_range : EpochCronjob → ℤ → Time → Run EpochRange
get_epoch_range c start now = do
  current ← get_epoch_index c.epochs now
  ok (get_trimmed_epoch_range c start (int64 (current -ℤ pos 1)))

unfoldable pub indexer_behind : EpochCronjob → State → ℤ → Bool
indexer_behind c idx_state epoch =
    after (get_end_time c.epochs epoch) (add idx_state.updated (int64 (pos 0 -ℤ c.delay)))
    || leb idx_state.next_db_index idx_state.last_chain_index

-- The rounds of `for epoch := start; epoch <= end; epoch++`, on fuel.
unfoldable pub epochs_from : ℕ → ℤ → ℤ → List ℤ
epochs_from zero epoch end = []
epochs_from (suc fuel) epoch end =
    let rest = epochs_from fuel (int64 (epoch +ℤ pos 1)) end in
    if leb_ℤ epoch end then epoch ∷ rest else []

-- All the rounds, if `end` is below the largest int64. For that `end` the loop wraps around and does
-- not stop, and these are the rounds of its first pass.
unfoldable pub range_epochs : EpochRange → List ℤ
unfolding epochs_from
range_epochs r = epochs_from (pos_part (r.end -ℤ r.start +ℤ pos 1)) r.start r.end
