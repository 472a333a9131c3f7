-- ===== src/Utils.antt =====
-- utils/math.go, at the 64-bit integers that the callers use.
use flare_p_chain_indexer.Prelude.{if◌then◌else◌}
use flare_p_chain_indexer.Prelude.Int.{ℤ, ltb_ℤ}

unfoldable pub max : ℤ → ℤ → ℤ
max a b = if ltb_ℤ a b then b else a

unfoldable pub min : ℤ → ℤ → ℤ
min a b = if ltb_ℤ b a then b else a

-- [a1, a2] and [b1, b2]; without a common point the ends come in the wrong order
unfoldable pub interval_intersection : ℤ → ℤ → ℤ → ℤ → ℤ × ℤ
unfolding max min
interval_intersection a1 a2 b1 b2 = (max a1 b1, min a2 b2)
