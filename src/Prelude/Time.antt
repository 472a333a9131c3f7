-- ===== src/Prelude/Time.antt =====
-- `time.Time` and `time.Duration` of Go's package time. A time is a number of nanoseconds since the
-- Unix epoch, a duration an `int64` of nanoseconds.
use Prim.Native.Nat.{◌/◌, ◌^◌, ◌-◌}
use mathlib.Core.Bool.{Bool}
use flare_p_chain_indexer.Prelude.Tests.{if◌then◌else◌}
use flare_p_chain_indexer.Prelude.Int.{ℤ, pos, negsuc, ◌+ℤ◌, ◌-ℤ◌, ◌*ℤ◌, ltb_ℤ}

abbrev pub Time : Type 0
Time = ℤ

abbrev pub Duration : Type 0
Duration = ℤ

-- `time.Second`
abbrev pub second : Duration
second = pos 1_000_000_000

-- `t.Add(d)`
unfoldable pub add : Time → Duration → Time
add t d = t +ℤ d

-- `t.Sub(u)`, which stops at the largest and the smallest duration
unfoldable pub sub : Time → Time → Duration
sub t u =
    let d = t -ℤ u in
    if ltb_ℤ d (negsuc (2 ^ 63 - 1))
    then negsuc (2 ^ 63 - 1)
    else if ltb_ℤ (pos (2 ^ 63 - 1)) d
    then pos (2 ^ 63 - 1)
    else d

-- `t.After(u)`, `t.Before(u)`
abbrev pub after : Time → Time → Bool
after t u = ltb_ℤ u t

abbrev pub before : Time → Time → Bool
before t u = ltb_ℤ t u

-- `t.Unix()`, which rounds down
unfoldable pub unix : Time → ℤ
unix (pos n) = pos (n / 1_000_000_000)
unix (negsuc n) = negsuc (n / 1_000_000_000)

-- `time.Unix(s, 0)`
unfoldable pub of_unix : ℤ → Time
of_unix s = s *ℤ second
