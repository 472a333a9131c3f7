-- ===== src/Cronjob/Mirror/Epochs.antt =====
-- The loop of getEpochRange in indexer/cronjob/mirror.go.
use flare_p_chain_indexer.Prelude.{
  ℕ, zero, suc, ◌≡◌, Bool, true, false, Bool-cases, inl, inr, arith,
}
use flare_p_chain_indexer.Prelude.Int.{
  ℤ, pos, ◌+ℤ◌, ◌-ℤ◌, ◌≤ℤ◌, ◌<ℤ◌, leb_ℤ, pos_part, int64, int64-eq, int_laws,
}
use flare_p_chain_indexer.Prelude.Time.{Time, add, after}
use flare_p_chain_indexer.Staking.Epochs.{EpochInfo, get_end_time}
use flare_p_chain_indexer.Cronjob.Range.{IsSmall, pos_part_cases}
use flare_p_chain_indexer.Cronjob.Mirror.{end_epoch_loop, end_epoch}

-- the end of an epoch is less than a period ago
abbrev pub is_recent : EpochInfo → Time → ℤ → Bool
is_recent epochs now e = after (get_end_time epochs e) (add now (int64 (pos 0 -ℤ epochs.period)))

-- `r` is the last epoch up to `end` that is not recent, if one from `start` on is not.
pub record IsLastEnded (epochs : EpochInfo) (now : Time) (start end r : ℤ) : Type 0 where
  pub bounded : r ≤ℤ end
  pub ended : start ≤ℤ r → is_recent epochs now r ≡ false
  pub later : (e : ℤ) → start ≤ℤ e → r <ℤ e → e ≤ℤ end → is_recent epochs now e ≡ true

module _ (epochs : EpochInfo) (now : Time) (start : ℤ) where
  last_or :
      (end : ℤ) {r : ℤ}
      → IsLastEnded epochs now start (end -ℤ pos 1) r
      → is_recent epochs now end ≡ true
      → (e : ℤ) → start ≤ℤ e
      → r <ℤ e
      → e ≤ℤ end
      → is_recent epochs now e ≡ true
  last_or end h recent e from_start after_r up = elim (Bool-cases (leb_ℤ end e)) [
    | inl last ↦
        let above : end ≤ℤ e = ground arith in let same : e ≡ end = omega int_laws in rw same recent
    | inr not_last ↦
        let below : e <ℤ end = ground arith in h.later e from_start after_r (omega int_laws)
  ]

  end_epoch_loop-IsLastEnded :
      (n : ℕ) (end : ℤ)
      → IsSmall end
      → pos 0 ≤ℤ start
      → end <ℤ start +ℤ pos n
      → IsLastEnded epochs now start end (end_epoch_loop n epochs now start end)
  unfolding end_epoch_loop
  end_epoch_loop-IsLastEnded zero end small low few = record {
    bounded = omega arith;
    ended = λ h. absurd (omega int_laws);
    later = λ e h after_r up. absurd (omega int_laws);
  }
  end_epoch_loop-IsLastEnded (suc n) end small low few = elim (Bool-cases (leb_ℤ start end)) [
    | inl inside ↦
        let from_start : start ≤ℤ end = ground arith in
        elim (Bool-cases (is_recent epochs now end)) [
          | inl recent ↦
              let exact : int64 (end -ℤ pos 1) ≡ end -ℤ pos 1 =
                int64-eq (end -ℤ pos 1) (record { low = omega int_laws; high = omega int_laws }) in
              let less : IsSmall (end -ℤ pos 1) = record {
                low = omega int_laws;
                high = omega int_laws;
              } in
              let ih = end_epoch_loop-IsLastEnded n (end -ℤ pos 1) less low (omega int_laws) in
              rw (inside, recent, exact)
                (record {
                  bounded = (let b = ih.bounded in omega int_laws);
                  ended = ih.ended;
                  later = λ e h after_r up. last_or end ih recent e h after_r up;
                })
          | inr past ↦
              rw (inside, past)
                (record {
                  bounded = omega arith;
                  ended = λ h. past;
                  later = λ e h after_r up. absurd (omega arith);
                })
        ]
    | inr outside ↦
        let before_start : end <ℤ start = ground arith in
        rw outside (record {
          bounded = omega arith;
          ended = λ h. absurd (omega arith);
          later = λ e h after_r up. absurd (omega arith);
        })
  ]

  -- For a start from 0 on and an end far from the ends of int64: the loop stops at the last epoch,
  -- not after `end`, that ended at least a period ago, or before `start` if there is none; every
  -- later epoch up to `end` ended less than a period ago.
  pub end_epoch-IsLastEnded :
      (end : ℤ)
      → IsSmall end
      → pos 0 ≤ℤ start
      → IsLastEnded epochs now start end (end_epoch epochs now start end)
  unfolding end_epoch
  end_epoch-IsLastEnded end small low =
      let sign = pos_part_cases (end -ℤ start +ℤ pos 1) in
      end_epoch_loop-IsLastEnded (pos_part (end -ℤ start +ℤ pos 1)) end small low (omega int_laws)
