-- ===== src/Cronjob/Uptime/Connected.antt =====
-- aggregateNodeUptime of indexer/cronjob/uptime_voting.go: connected and disconnected time.
use flare_p_chain_indexer.Prelude.{
  ◌^◌, ◌≡◌, Bool, true, false, Bool-cases, inl, inr, List, [], ◌∷◌, arith, if◌then◌else◌,
}
use flare_p_chain_indexer.Prelude.Int.{
  ℤ, pos, ◌+ℤ◌, ◌-ℤ◌, ◌≤ℤ◌, ltb_ℤ, int64, int64-eq, int_laws, parts_of_eq,
}
use flare_p_chain_indexer.Prelude.Time.{unix}
use flare_p_chain_indexer.Database.{UptimeCronjob}
use flare_p_chain_indexer.Cronjob.Range.{IsSmall}
use flare_p_chain_indexer.Cronjob.Uptime.{
  is_disconnected, up_to_end, connected_loop, aggregate_uptimes,
}

-- The entries come in ascending order of time, from `prev` on and up to `end`.
abbrev pub InOrder : ℤ → ℤ → List UptimeCronjob → Type 0
InOrder prev end [] = prev ≤ℤ end
InOrder prev end (u ∷ uptimes) = (prev ≤ℤ unix u.timestamp) × InOrder (unix u.timestamp) end uptimes

InOrder-end : (prev end : ℤ) (uptimes : List UptimeCronjob) → InOrder prev end uptimes → prev ≤ℤ end
InOrder-end prev end [] up = up
InOrder-end prev end (u ∷ uptimes) (step, rest) =
    let up = InOrder-end (unix u.timestamp) end uptimes rest in omega arith

-- The seconds before entries that say `disconnected`, each back to the entry before it.
pub down_time : ℤ → List UptimeCronjob → ℤ
down_time prev [] = pos 0
down_time prev (u ∷ uptimes) =
    let curr = unix u.timestamp in
    (if is_disconnected u.status then curr -ℤ prev else pos 0) +ℤ down_time curr uptimes

-- A total that is exact, and within the interval.
pub record IsUptime (start end : ℤ) (uptimes : List UptimeCronjob) (total : ℤ) : Type 0 where
  pub exact : total +ℤ down_time start uptimes ≡ end -ℤ start
  pub nonneg : pos 0 ≤ℤ total
  pub bounded : total ≤ℤ end -ℤ start

module _ (end : ℤ) (end_small : IsSmall end) where
  -- the total `r` that is reached from `prev` and `total`, with `d` seconds down
  record IsRest (prev total d r : ℤ) : Type 0 where
    whole : r +ℤ d ≡ total +ℤ (end -ℤ prev)
    more : total ≤ℤ r
    down : pos 0 ≤ℤ d

  up_to_end-IsRest :
      (prev total : ℤ)
      → IsSmall prev
      → prev ≤ℤ end
      → pos 0 ≤ℤ total
      → total +ℤ (end -ℤ prev) ≤ℤ pos (2 ^ 62)
      → IsRest prev total (pos 0) (up_to_end end (total, prev))
  unfolding up_to_end
  up_to_end-IsRest prev total small up low high = elim (Bool-cases (ltb_ℤ prev end)) [
    | inl before ↦
        rw
          (
            before,
            int64-eq (end -ℤ prev) (record { low = omega int_laws; high = omega int_laws }),
            int64-eq (total +ℤ (end -ℤ prev))
                (record { low = omega int_laws; high = omega int_laws }),
          )
          (record { whole = omega int_laws; more = omega int_laws; down = omega arith })
    | inr not_before ↦
        let at_end : end ≤ℤ prev = ground arith in
        rw not_before (record { whole = omega int_laws; more = omega int_laws; down = omega arith })
  ]

  module _ (prev curr total : ℤ) (step : prev ≤ℤ curr) (up : curr ≤ℤ end) (small : IsSmall prev)
      (low : pos 0 ≤ℤ total) (high : total +ℤ (end -ℤ prev) ≤ℤ pos (2 ^ 62)) where
    counted : Bool → ℤ
    counted gone = if gone then total else int64 (total +ℤ int64 (curr -ℤ prev))

    counted-false : counted false ≡ total +ℤ (curr -ℤ prev)
    unfolding counted
    counted-false =
        rw (int64-eq (curr -ℤ prev) (record { low = omega int_laws; high = omega int_laws })) (
          int64-eq (total +ℤ (curr -ℤ prev))
            (record { low = omega int_laws; high = omega int_laws }))

    counted-bounds :
        (gone : Bool) → (pos 0 ≤ℤ counted gone) × (counted gone +ℤ (end -ℤ curr) ≤ℤ pos (2 ^ 62))
    counted-bounds true = unfold counted in (low, omega int_laws)
    counted-bounds false = rw counted-false (omega int_laws, omega int_laws)

    IsRest-cons :
        (gone : Bool) (d r : ℤ)
        → IsRest curr (counted gone) d r
        → IsRest prev total ((if gone then curr -ℤ prev else pos 0) +ℤ d) r
    IsRest-cons true d r h =
        let exact : r +ℤ d ≡ total +ℤ (end -ℤ curr) = unfold counted in h.whole in
        let whole = parts_of_eq (r +ℤ d) (total +ℤ (end -ℤ curr)) exact in
        let more : total ≤ℤ r = unfold counted in h.more in
        let down = h.down in record { whole = omega int_laws; more = more; down = omega int_laws }
    IsRest-cons false d r h =
        let exact : r +ℤ d ≡ total +ℤ (curr -ℤ prev) +ℤ (end -ℤ curr) =
          rw counted-false at h.whole in
        let whole = parts_of_eq (r +ℤ d) (total +ℤ (curr -ℤ prev) +ℤ (end -ℤ curr)) exact in
        let more : total +ℤ (curr -ℤ prev) ≤ℤ r = rw counted-false at h.more in
        let down = h.down in
        record { whole = omega int_laws; more = omega int_laws; down = omega int_laws }

  connected_loop-IsRest :
      (uptimes : List UptimeCronjob) (prev total : ℤ)
      → IsSmall prev
      → InOrder prev end uptimes
      → pos 0 ≤ℤ total
      → total +ℤ (end -ℤ prev) ≤ℤ pos (2 ^ 62)
      → IsRest prev total
          (down_time prev uptimes)
          (up_to_end end (connected_loop uptimes prev total))
  unfolding connected_loop down_time counted
  connected_loop-IsRest [] prev total small up low high =
      up_to_end-IsRest prev total small up low high
  connected_loop-IsRest (u ∷ uptimes) prev total small (step, rest) low high =
      let curr = unix u.timestamp in
      let up = InOrder-end curr end uptimes rest in
      let curr_small : IsSmall curr = record { low = omega arith; high = omega arith } in
      let gone = is_disconnected u.status in
      let (low', high') = counted-bounds prev curr total step up small low high gone in
      IsRest-cons prev curr total step up small low high gone _ _ (
        connected_loop-IsRest uptimes curr (counted prev curr total step up small low high gone)
          curr_small rest low' high')

whole-IsUptime :
    (start end : ℤ) (uptimes : List UptimeCronjob) (total : ℤ) (end_small : IsSmall end)
    → IsRest end end_small start (pos 0) (down_time start uptimes) total
    → IsUptime start end uptimes total
whole-IsUptime start end uptimes total end_small h =
    let down_total = down_time start uptimes in
    let whole = parts_of_eq (total +ℤ down_total) (pos 0 +ℤ (end -ℤ start)) h.whole in
    let more = h.more in
    let down = h.down in record { exact = omega int_laws; nonneg = more; bounded = omega int_laws }

-- For entries in ascending order inside an interval far from the ends of int64, the aggregate is
-- the length of the interval less the seconds before entries that say `disconnected`, and neither
-- negative nor longer than the interval.
pub aggregate_uptimes-IsUptime :
    (start end : ℤ) (uptimes : List UptimeCronjob)
    → IsSmall start
    → IsSmall end
    → InOrder start end uptimes
    → IsUptime start end uptimes (aggregate_uptimes uptimes start end)
unfolding aggregate_uptimes
aggregate_uptimes-IsUptime start end uptimes start_small end_small ordered =
    let up = InOrder-end start end uptimes ordered in
    let r =
      connected_loop-IsRest end end_small uptimes start (pos 0) start_small ordered (omega arith)
        (omega int_laws) in
    whole-IsUptime start end uptimes _ end_small r
