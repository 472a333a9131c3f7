-- ===== src/Encoding/Hex.antt =====
-- Hexadecimal texts of utils/encoding.go stand for their bytes.
use flare_p_chain_indexer.Prelude.{
  ℕ, zero, suc, ◌+◌, ◌*◌, ◌/◌, ◌%◌, ◌^◌, ◌<◌, ◌≡◌, refl, ap, some, List, [], ◌∷◌, ◌++◌, length,
  replicate, arith, ok,
}
use flare_p_chain_indexer.Encoding.{
  hex_digit, hex_value, encode_hex, decode_hex, put_uint, get_uint, make_even, trim_prefix,
  pad_hex_string, hex_prefix,
}

abbrev pub AreBytes : List ℕ → Type 0
AreBytes [] = Unit
AreBytes (b ∷ bytes) = (b < 256) × AreBytes bytes

pub AreBytes-append : (xs ys : List ℕ) → AreBytes xs → AreBytes ys → AreBytes (xs ++ ys)
AreBytes-append [] ys h k = k
AreBytes-append (x ∷ xs) ys (b, h) k = (b, AreBytes-append xs ys h k)

pub replicate-AreBytes : (n b : ℕ) → b < 256 → AreBytes (replicate n b)
replicate-AreBytes zero b h = tt
replicate-AreBytes (suc n) b h = (h, replicate-AreBytes n b h)

hex_value-hex_digit : (n : ℕ) → n < 16 → hex_value (hex_digit n) ≡ some n
unfolding hex_value hex_digit
hex_value-hex_digit n h = ground arith

-- Decoding undoes encoding.
pub decode_hex-encode_hex :
    (bytes : List ℕ) → AreBytes bytes → decode_hex (encode_hex bytes) ≡ ok bytes
unfolding decode_hex encode_hex
decode_hex-encode_hex [] h = refl
decode_hex-encode_hex (b ∷ bytes) (small, h) =
    let byte : 16 * (b / 16) + b % 16 ≡ b = omega arith in
    rw
      (
        hex_value-hex_digit (b / 16) (omega arith),
        hex_value-hex_digit (b % 16) (omega arith),
        decode_hex-encode_hex bytes h,
        byte,
      )
      refl

pub encode_hex-append : (xs ys : List ℕ) → encode_hex (xs ++ ys) ≡ encode_hex xs ++ encode_hex ys
unfolding encode_hex
encode_hex-append [] ys = refl
encode_hex-append (x ∷ xs) ys =
    ap (λ t. hex_digit (x / 16) ∷ hex_digit (x % 16) ∷ t) (encode_hex-append xs ys)

pub length-encode_hex : (bytes : List ℕ) → length (encode_hex bytes) ≡ 2 * length bytes
unfolding encode_hex
length-encode_hex [] = omega arith
length-encode_hex (b ∷ bytes) = omega (arith, length-encode_hex bytes)

pub put_uint-AreBytes : (n v : ℕ) → AreBytes (put_uint n v)
unfolding put_uint
put_uint-AreBytes zero v = tt
put_uint-AreBytes (suc n) v = (omega arith, put_uint-AreBytes n (v / 256))

pub length-put_uint : (n v : ℕ) → length (put_uint n v) ≡ n
unfolding put_uint
length-put_uint zero v = refl
length-put_uint (suc n) v = ap suc (length-put_uint n (v / 256))

pub get_uint-put_uint_2 : (v : ℕ) → v < 2 ^ 16 → get_uint (put_uint 2 v) ≡ v
unfolding get_uint put_uint
get_uint-put_uint_2 v h = omega arith

pub get_uint-put_uint_4 : (v : ℕ) → v < 2 ^ 32 → get_uint (put_uint 4 v) ≡ v
unfolding get_uint put_uint
get_uint-put_uint_4 v h = omega arith

-- A text with the prefix and the full number of digits is only stripped of its prefix.
pub pad_hex_string-full :
    (bytes : List ℕ)
    → AreBytes bytes
    → length bytes ≡ 32
    → pad_hex_string (hex_prefix ++ encode_hex bytes) 64 ≡ ok (encode_hex bytes)
unfolding pad_hex_string trim_prefix make_even
pad_hex_string-full bytes h size =
    let full : length (encode_hex bytes) ≡ 64 = omega (arith, length-encode_hex bytes) in
    rw (full, decode_hex-encode_hex bytes h) (rw full refl)
