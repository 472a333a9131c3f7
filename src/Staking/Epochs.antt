-- ===== src/Staking/Epochs.antt =====
-- utils/staking/epochs.go: the epochs of the voting contract, as ranges of time.
use native.Mathlib.Nat.{div-le_self, div-mul-le_self, lt-div-mul-add, div-eq_of_lt-le, div-eq_of_lt}
use flare_p_chain_indexer.Prelude.{
  ℕ, suc, ◌+◌, ◌-◌, ◌*◌, ◌/◌, ◌^◌, ◌≤◌, ◌<◌, ◌≡◌, ◌↔◌, refl, ap, ◌∙◌, false, arith, if◌then◌else◌,
  Run, ok, panic, ◌>>=◌,
}
use flare_p_chain_indexer.Prelude.Int.{
  ℤ, pos, negsuc, ◌+ℤ◌, ◌-ℤ◌, ◌*ℤ◌, ◌≤ℤ◌, ◌<ℤ◌, eq_ℤ, int64, int64_pos, quot, int_laws, +ℤ_pos,
  *ℤ_pos, -ℤ_add,
}
use flare_p_chain_indexer.Prelude.Time.{Time, Duration, add, sub, of_unix, second}

pub record EpochInfo : Type 0 where
  pub period : Duration
  pub start : Time
  pub first : ℤ

-- NewEpochInfo takes `First` from the configuration.
pub new_epoch_info : ℤ → Time → Duration → EpochInfo
new_epoch_info first start period = record { period = period; start = start; first = first }

unfoldable pub get_start_time : EpochInfo → ℤ → Time
get_start_time e epoch = add e.start (int64 (epoch *ℤ e.period))

unfoldable pub get_end_time : EpochInfo → ℤ → Time
unfolding get_start_time
get_end_time e epoch = get_start_time e (int64 (epoch +ℤ pos 1))

unfoldable pub get_time_range : EpochInfo → ℤ → Time × Time
unfolding get_end_time
get_time_range e epoch = (get_start_time e epoch, get_end_time e epoch)

-- Division by a period of 0 panics.
unfoldable pub get_epoch_index : EpochInfo → Time → Run ℤ
get_epoch_index e t =
    if eq_ℤ e.period (pos 0) then panic else ok (int64 (quot (sub t e.start) e.period))

-- GetEpochConfig: the contract's answer is the start in seconds and the period in seconds.
pub get_epoch_config : Run (ℤ × ℤ) → Run (Time × Duration)
get_epoch_config answer = do cfg ← answer; ok (of_unix (int64 cfg.0), int64 (int64 cfg.1 *ℤ second))

-- `t` lies in the epoch.
pub record InEpoch (e : EpochInfo) (epoch : ℤ) (t : Time) : Type 0 where
  pub begun : get_start_time e epoch ≤ℤ t
  pub not_ended : t <ℤ get_end_time e epoch

module _ (e : EpochInfo) (p : ℕ) (is_period : e.period ≡ pos p) where
  pub get_start_time_pos :
      (k : ℕ) → k * p < 2 ^ 63 → get_start_time e (pos k) ≡ e.start +ℤ pos (k * p)
  unfolding get_start_time add
  get_start_time_pos k h = rw (is_period, *ℤ_pos k p, int64_pos (k * p) h)

  pub get_end_time_pos :
      (k : ℕ)
      → suc k < 2 ^ 63
      → suc k * p < 2 ^ 63
      → get_end_time e (pos k) ≡ e.start +ℤ pos (suc k * p)
  unfolding get_end_time
  get_end_time_pos k small h =
      let e1 : k + 1 ≡ suc k = omega arith in
      rw (+ℤ_pos k 1, e1, int64_pos (suc k) small) (get_start_time_pos (suc k) h)

  module _ (positive : 0 < p) (d : ℕ) (near : d < 2 ^ 63) where
    pub sub_pos : sub (e.start +ℤ pos d) e.start ≡ pos d
    unfolding sub
    sub_pos = rw (-ℤ_add e.start d) (ground arith)

    -- from the start on, the index is the number of whole periods gone by
    pub get_epoch_index_pos : get_epoch_index e (e.start +ℤ pos d) ≡ ok (pos (d / p))
    unfolding get_epoch_index quot
    get_epoch_index_pos =
        let nonzero : eq_ℤ (pos p) (pos 0) ≡ false = ground arith in
        let small : d / p < 2 ^ 63 = omega (arith, div-le_self d p) in
        rw (is_period, nonzero, sub_pos, int64_pos (d / p) small)

    -- GetEpochIndex and GetTimeRange agree: an epoch is the index of a time exactly if the time
    -- lies in its range. The period is positive, the time not before the start, and the times of
    -- the epoch do not pass the largest duration.
    pub get_epoch_index_iff :
        (k : ℕ)
        → suc k * p < 2 ^ 63
        → (get_epoch_index e (e.start +ℤ pos d) ≡ ok (pos k)) ↔ InEpoch e (pos k) (e.start +ℤ pos d)
    get_epoch_index_iff k h =
        let small : suc k < 2 ^ 63 = grind arith in
        let below : k * p < 2 ^ 63 = grind arith in
        let at_start = get_start_time_pos k below in
        let at_end = get_end_time_pos k small h in
        (
          λ found.
              let same : d / p ≡ k = cc (get_epoch_index_pos, found) in
              let low : d / p * p ≤ d = div-mul-le_self d p in
              let high : d < d / p * p + p = lt-div-mul-add positive in
              let low' : k * p ≤ d = rw same at low in
              let high' : d < k * p + p = rw same at high in
              record {
                begun = rw at_start (omega int_laws);
                not_ended = rw at_end (omega int_laws);
              },
          λ inside.
              let low : e.start +ℤ pos (k * p) ≤ℤ e.start +ℤ pos d = rw at_start at inside.begun in
              let high : e.start +ℤ pos d <ℤ e.start +ℤ pos (suc k * p) =
                rw at_end at inside.not_ended in
              let same : d / p ≡ k = div-eq_of_lt-le p (omega int_laws) (omega int_laws) in
              get_epoch_index_pos ∙ ap (λ i. ok (pos i)) same,
        )

sub_negsuc : (t : Time) (d : ℕ) → 0 < d → d < 2 ^ 63 → sub (t -ℤ pos d) t ≡ negsuc (d - 1)
unfolding sub
sub_negsuc t d after small =
    let gone : t -ℤ pos d -ℤ t ≡ negsuc (d - 1) = omega int_laws in rw gone (ground arith)

-- Within one period before the start GetEpochIndex answers 0, the index of the first epoch: Go's
-- division truncates towards zero.
pub get_epoch_index-before_start :
    (e : EpochInfo) (p d : ℕ)
    → e.period ≡ pos p
    → 0 < d
    → d < p
    → p < 2 ^ 63
    → (get_epoch_index e (e.start -ℤ pos d) ≡ ok (pos 0)) × (¬ InEpoch e (pos 0) (e.start -ℤ pos d))
unfolding get_epoch_index quot
get_epoch_index-before_start e p d is_period after below small =
    let nonzero : eq_ℤ (pos p) (pos 0) ≡ false = ground arith in
    let whole : suc (d - 1) / p ≡ 0 = div-eq_of_lt (omega arith) in
    let at_zero = get_start_time_pos e p is_period 0 (omega arith) in
    (
      rw (is_period, nonzero, sub_negsuc e.start d after (omega arith), whole)
          (unfold int64 in refl),
      λ inside.
          let begun : e.start +ℤ pos (0 * p) ≤ℤ e.start -ℤ pos d = rw at_zero at inside.begun in
          absurd (omega int_laws),
    )
