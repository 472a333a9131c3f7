-- ===== src/Cronjob/UptimeVoting/Deleted.antt =====
-- What indexer/cronjob/uptime_voting.go leaves as it was: the
-- uptimes of recent epochs, when it deletes old ones.
use flare_p_chain_indexer.Prelude.{
  mem-rows_where, ◌≡◌, refl, inl, inr, true, false, Bool-cases, Option-cases, arith, Mem,
}
use flare_p_chain_indexer.Prelude.Int.{ℤ, pos, ◌-ℤ◌, ◌≤ℤ◌, leb_ℤ, ltb_ℤ, int64-eq, int_laws}
use flare_p_chain_indexer.Prelude.Time.{before}
use flare_p_chain_indexer.Database.{UptimeCronjob}
use flare_p_chain_indexer.Staking.Epochs.{get_time_range}
use flare_p_chain_indexer.Cronjob.Range.{IsSmall}
use flare_p_chain_indexer.Cronjob.UptimeVoting.{
  UptimeWorld, UptimeVoting, uptimes_from, last_epoch_to_delete, delete_old_uptimes,
}

-- What a deletion leaves.
pub record KeepsRecent (c : UptimeVoting) (w w' : UptimeWorld) : Type 0 where
  -- the uptimes from the end of that epoch on are kept
  pub kept :
      (u : UptimeCronjob)
      → Mem u w.uptimes
      → before u.timestamp
          (get_time_range c.cronjob.epochs (last_epoch_to_delete c w.last_aggregated_epoch)).1
        ≡ false
      → Mem u w'.uptimes
  -- that epoch is at least five before the last aggregated
  pub behind : last_epoch_to_delete c w.last_aggregated_epoch ≤ℤ w.last_aggregated_epoch -ℤ pos 5
  -- a threshold that is not positive deletes nothing
  pub off : c.delete_old_uptimes_epoch_threshold ≤ℤ pos 0 → w' ≡ w

module _ (c : UptimeVoting) (w : UptimeWorld) where
  abbrev last_kept : ℤ
  last_kept = last_epoch_to_delete c w.last_aggregated_epoch

  delete_old_uptimes-kept :
      (u : UptimeCronjob)
      → Mem u w.uptimes
      → before u.timestamp (get_time_range c.cronjob.epochs last_kept).1 ≡ false
      → Mem u (delete_old_uptimes c w).1.uptimes
  unfolding delete_old_uptimes uptimes_from
  delete_old_uptimes-kept u m late =
      let still : Mem u (uptimes_from (get_time_range c.cronjob.epochs last_kept).1 w.uptimes) =
        mem-rows_where _ u w.uptimes m (rw late refl) in
      elim (Bool-cases (leb_ℤ c.delete_old_uptimes_epoch_threshold (pos 0))) [
        | inl off ↦ rw off m
        | inr on ↦ elim (Bool-cases (ltb_ℤ last_kept (pos 0))) [
          | inl early ↦ rw (on, early) m
          | inr there ↦ elim (Option-cases (c.delete_error w)) [
            | inl worked ↦ rw (on, there, worked, delete_old_uptimes) still
            | inr (x, failed) ↦ rw (on, there, failed, delete_old_uptimes) m
          ]
        ]
      ]

  last_epoch_to_delete-behind :
      IsSmall w.last_aggregated_epoch
      → IsSmall c.delete_old_uptimes_epoch_threshold
      → last_kept ≤ℤ w.last_aggregated_epoch -ℤ pos 5
  unfolding last_epoch_to_delete
  last_epoch_to_delete-behind last threshold =
      let five =
        int64-eq (w.last_aggregated_epoch -ℤ pos 5)
          (record { low = omega int_laws; high = omega int_laws }) in
      let whole =
        int64-eq (w.last_aggregated_epoch -ℤ c.delete_old_uptimes_epoch_threshold)
          (record { low = omega int_laws; high = omega int_laws }) in
      elim (Bool-cases (ltb_ℤ c.delete_old_uptimes_epoch_threshold (pos 5))) [
        | inl less ↦ rw (less, five) (omega int_laws)
        | inr more ↦
            rw (more, whole)
              (let ge : pos 5 ≤ℤ c.delete_old_uptimes_epoch_threshold = ground arith in
                omega int_laws)
      ]

  -- For numbers far from the ends of int64, deleteOldUptimes keeps every uptime from the end of an
  -- epoch on that is at least five before the last aggregated one, whatever the threshold, and
  -- deletes nothing if the threshold is not positive.
  pub delete_old_uptimes-KeepsRecent :
      IsSmall w.last_aggregated_epoch
      → IsSmall c.delete_old_uptimes_epoch_threshold
      → KeepsRecent c w (delete_old_uptimes c w).1
  unfolding delete_old_uptimes
  delete_old_uptimes-KeepsRecent last threshold = record {
    kept = delete_old_uptimes-kept;
    behind = last_epoch_to_delete-behind last threshold;
    off = λ h.
        let e : leb_ℤ c.delete_old_uptimes_epoch_threshold (pos 0) ≡ true = ground arith in
        rw e refl;
  }
