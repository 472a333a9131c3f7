-- ===== src/Cronjob/Range.antt =====
-- getTrimmedEpochRange of indexer/cronjob/cronjob.go: what the trimmed range is.
use mathlib.Core.Logic.{◌⊎◌, inl, inr}
use mathlib.Core.Logic.Or
use mathlib.Core.List.{mem-cons, mem-cons_self, mem-cons_of_mem, not-mem-nil}
use native.Mathlib.Bridge.{le_prop}
use flare_p_chain_indexer.Prelude.{
  ℕ, zero, suc, ◌^◌, ◌≡◌, ◌↔◌, refl, sym, ap, ◌∙◌, ◌-◌, List, [], ◌∷◌, true, false, Mem, arith,
  if◌then◌else◌, Bool-cases,
}
use flare_p_chain_indexer.Prelude.Int.{
  ℤ, pos, negsuc, pos_part, neg_part, ◌+ℤ◌, ◌-ℤ◌, ◌≤ℤ◌, ◌<ℤ◌, eq_ℤ, leb_ℤ, ltb_ℤ, int64, int64-eq,
  InInt64, int_laws, +ℤ_parts,
}
use flare_p_chain_indexer.Utils.{max}
use flare_p_chain_indexer.Cronjob.{
  EpochCronjob, EpochRange, default_epoch_batch_size, batch_size_for, get_trimmed_epoch_range,
  epochs_from, range_epochs,
}

-- Far enough from the ends of int64 that the sums below do not wrap.
pub record IsSmall (a : ℤ) : Type 0 where
  pub low : negsuc (2 ^ 60) ≤ℤ a
  pub high : a ≤ℤ pos (2 ^ 60)

-- The batch size of the configuration, with the default for 0.
abbrev pub batch_of : EpochCronjob → ℤ
batch_of c = if eq_ℤ c.batch_size (pos 0) then default_epoch_batch_size else c.batch_size

pub record IsTrimmed (c : EpochCronjob) (from end : ℤ) (r : EpochRange) : Type 0 where
  pub starts : r.start ≡ max from c.epochs.first
  pub within : r.end ≤ℤ end
  -- an epoch to process is kept
  pub progress : max from c.epochs.first ≤ℤ end → r.start ≤ℤ r.end
  -- a negative batch size leaves the range whole
  pub unlimited : c.batch_size <ℤ pos 0 → r.end ≡ end
  -- else at most a batch is kept, and less only if the range is shorter
  pub batch : pos 0 ≤ℤ c.batch_size → r.end -ℤ r.start <ℤ batch_of c
  pub full : pos 0 ≤ℤ c.batch_size → (r.end ≡ end) ⊎ (r.end +ℤ pos 1 ≡ r.start +ℤ batch_of c)

module _ (c : EpochCronjob) (from end : ℤ) (from_small : IsSmall from) (end_small : IsSmall end)
    (first_small : IsSmall c.epochs.first) (batch_small : IsSmall c.batch_size) where
  max-IsSmall : IsSmall (max from c.epochs.first)
  unfolding max
  max-IsSmall = ground arith

  cut :
      (s b : ℤ)
      → IsSmall s
      → IsSmall b
      → (int64 (s +ℤ b) ≡ s +ℤ b) × (int64 (int64 (b +ℤ s) -ℤ pos 1) ≡ b +ℤ s -ℤ pos 1)
  cut s b hs hb = (
    int64-eq (s +ℤ b) (record { low = omega int_laws; high = omega int_laws }),
    rw (int64-eq (b +ℤ s) (record { low = omega int_laws; high = omega int_laws }))
        (int64-eq (b +ℤ s -ℤ pos 1) (record { low = omega int_laws; high = omega int_laws })),
  )

  unlimited_size : (s : ℤ) → IsSmall s → int64 (int64 (end -ℤ s) +ℤ pos 1) ≡ end -ℤ s +ℤ pos 1
  unlimited_size s hs =
      rw (int64-eq (end -ℤ s) (record { low = omega int_laws; high = omega int_laws }))
        (int64-eq (end -ℤ s +ℤ pos 1) (record { low = omega int_laws; high = omega int_laws }))

  batch_of-IsSmall : pos 0 ≤ℤ c.batch_size → IsSmall (batch_of c) × (pos 0 <ℤ batch_of c)
  batch_of-IsSmall h = ground arith

  batch_size_for_batch : (s : ℤ) → pos 0 ≤ℤ c.batch_size → batch_size_for c s end ≡ batch_of c
  unfolding batch_size_for
  batch_size_for_batch s h = ground arith

  batch_size_for_unlimited :
      (s : ℤ) → IsSmall s → c.batch_size <ℤ pos 0 → batch_size_for c s end ≡ end -ℤ s +ℤ pos 1
  unfolding batch_size_for
  batch_size_for_unlimited s hs h =
      let nonzero : eq_ℤ c.batch_size (pos 0) ≡ false = ground arith in
      let negative : ltb_ℤ c.batch_size (pos 0) ≡ true = ground arith in
      rw (nonzero, negative) (unlimited_size s hs)

  IsTrimmed-batch :
      pos 0 ≤ℤ c.batch_size → IsTrimmed c from end (get_trimmed_epoch_range c from end)
  unfolding get_trimmed_epoch_range
  IsTrimmed-batch h =
      let s = max from c.epochs.first in
      let (small, positive) = batch_of-IsSmall h in
      let (to_next, to_last) = cut s (batch_of c) max-IsSmall small in
      elim (Bool-cases (leb_ℤ (s +ℤ batch_of c) end)) [
        | inl over ↦
            rw (batch_size_for_batch s h, to_next, over, to_last)
              (record {
                starts = refl;
                within = grind (int_laws, over);
                progress = λ _. omega int_laws;
                unlimited = λ neg. absurd (omega arith);
                batch = λ _. omega int_laws;
                full = λ _. inr (omega int_laws);
              })
        | inr fits ↦
            let not_over : end <ℤ s +ℤ batch_of c = ground arith in
            rw (batch_size_for_batch s h, to_next, fits)
              (record {
                starts = refl;
                within = omega arith;
                progress = λ p. p;
                unlimited = λ _. refl;
                batch = λ _. omega int_laws;
                full = λ _. inl refl;
              })
      ]

  IsTrimmed-unlimited :
      c.batch_size <ℤ pos 0 → IsTrimmed c from end (get_trimmed_epoch_range c from end)
  unfolding get_trimmed_epoch_range
  IsTrimmed-unlimited h =
      let s = max from c.epochs.first in
      let hs = max-IsSmall in
      let sum : s +ℤ (end -ℤ s +ℤ pos 1) ≡ end +ℤ pos 1 = omega int_laws in
      let exact : int64 (end +ℤ pos 1) ≡ end +ℤ pos 1 =
        int64-eq (end +ℤ pos 1) (record { low = omega int_laws; high = omega int_laws }) in
      let above : leb_ℤ (end +ℤ pos 1) end ≡ false = ground (arith, +ℤ_parts end (pos 1)) in
      rw (batch_size_for_unlimited s hs h, sum, exact, above)
        (record {
          starts = refl;
          within = omega arith;
          progress = λ p. p;
          unlimited = λ _. refl;
          batch = λ nonneg. absurd (omega arith);
          full = λ nonneg. absurd (omega arith);
        })

  -- For numbers far from the ends of int64: the range starts at the later of the two firsts, does
  -- not pass `end`, is not empty if there is an epoch to process, and is cut only to the batch size.
  pub get_trimmed_epoch_range-IsTrimmed : IsTrimmed c from end (get_trimmed_epoch_range c from end)
  get_trimmed_epoch_range-IsTrimmed = elim (Bool-cases (ltb_ℤ c.batch_size (pos 0))) [
    | inl negative ↦ IsTrimmed-unlimited (ground arith)
    | inr nonneg ↦ IsTrimmed-batch (ground arith)
  ]

-- one of the two parts is 0
pub pos_part_cases : (a : ℤ) → (pos_part a ≡ 0) ⊎ (neg_part a ≡ 0)
pos_part_cases (pos n) = inr refl
pos_part_cases (negsuc n) = inl refl

between_prop : (a b : ℤ) (n : ℕ) → IsProp ((a ≤ℤ b) × (b <ℤ a +ℤ pos n))
between_prop a b n = hlevel le_prop

up_from : ℕ → ℤ → List ℤ
up_from zero e = []
up_from (suc n) e = e ∷ up_from n (e +ℤ pos 1)

up_from-mem : (n : ℕ) (e x : ℤ) → Mem x (up_from n e) ↔ ((e ≤ℤ x) × (x <ℤ e +ℤ pos n))
unfolding up_from
up_from-mem zero e x = ((λ m. absurd (not-mem-nil m)), (λ h. absurd (omega int_laws)))
up_from-mem (suc n) e x =
    let ih = up_from-mem n (e +ℤ pos 1) x in
    (
      λ m.
          Or.elim (between_prop e x (suc n)) (mem-cons.0 m)
            (λ same. rw same (omega int_laws, omega int_laws))
            (λ rest. let (low, high) = ih.0 rest in (omega int_laws, omega int_laws)),
      λ (low, high). elim (Bool-cases (ltb_ℤ e x)) [
        | inl later ↦
            mem-cons_of_mem e
              (ih.1 ((let h : e <ℤ x = ground arith in omega int_laws), omega int_laws))
        | inr not_later ↦
            let h : x ≤ℤ e = ground arith in
            let same : x ≡ e = omega int_laws in rw same mem-cons_self
      ],
    )

-- With enough fuel the loop meets the epochs from `e` to `end`.
epochs_from-up :
    (fuel : ℕ) (e end : ℤ)
    → InInt64 e
    → end <ℤ pos (2 ^ 63 - 1)
    → end -ℤ e <ℤ pos fuel
    → epochs_from fuel e end ≡ up_from (pos_part (end -ℤ e +ℤ pos 1)) e
unfolding epochs_from up_from
epochs_from-up zero e end range below enough =
    let sign = pos_part_cases (end -ℤ e +ℤ pos 1) in
    let none_left : pos_part (end -ℤ e +ℤ pos 1) ≡ 0 = omega int_laws in rw none_left refl
epochs_from-up (suc fuel) e end range below enough =
    let sign = pos_part_cases (end -ℤ e +ℤ pos 1) in
    elim (Bool-cases (leb_ℤ e end)) [
      | inl more ↦
          let before : e ≤ℤ end = ground arith in
          let sign' = pos_part_cases (end -ℤ (e +ℤ pos 1) +ℤ pos 1) in
          let next : int64 (e +ℤ pos 1) ≡ e +ℤ pos 1 =
            int64-eq (e +ℤ pos 1) (record { low = omega int_laws; high = omega int_laws }) in
          let one_more : pos_part (end -ℤ e +ℤ pos 1)
              ≡ suc (pos_part (end -ℤ (e +ℤ pos 1) +ℤ pos 1)) =
            omega int_laws in
          rw (more, next, one_more)
            (ap (λ l. e ∷ l)
              (epochs_from-up fuel (e +ℤ pos 1) end
                (record { low = omega int_laws; high = omega int_laws }) below (omega int_laws)))
      | inr past ↦
          let after : end <ℤ e = ground arith in
          let none_left : pos_part (end -ℤ e +ℤ pos 1) ≡ 0 = omega int_laws in
          rw (past, none_left) refl
    ]

-- For a start in the range of int64 and an end below the largest int64, the loop over an epoch range
-- ends: more rounds than those of the model add no epoch, and the epochs it meets are exactly those
-- of the closed interval.
pub range_epochs-ends :
    (r : EpochRange) (fuel : ℕ)
    → InInt64 r.start
    → r.end <ℤ pos (2 ^ 63 - 1)
    → r.end -ℤ r.start <ℤ pos fuel
    → (epochs_from fuel r.start r.end ≡ range_epochs r)
      × ((x : ℤ) → Mem x (range_epochs r) ↔ ((r.start ≤ℤ x) × (x ≤ℤ r.end)))
unfolding range_epochs
range_epochs-ends r fuel range below enough =
    let n = pos_part (r.end -ℤ r.start +ℤ pos 1) in
    let sign = pos_part_cases (r.end -ℤ r.start +ℤ pos 1) in
    let whole = epochs_from-up n r.start r.end range below (omega int_laws) in
    (
      epochs_from-up fuel r.start r.end range below enough ∙ sym whole,
      λ x.
          let m = up_from-mem n r.start x in
          rw whole (
            (λ inside. let (low, high) = m.0 inside in (low, omega int_laws)),
            (λ (low, high). m.1 (low, omega int_laws)),
          ),
    )
