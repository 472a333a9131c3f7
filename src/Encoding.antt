-- ===== src/Encoding.antt =====
-- utils/encoding.go and services/utils/encoding.go: hexadecimal texts and attestation requests. A
-- text is its bytes.
pub mod Hex
pub mod Requests
use flare_p_chain_indexer.Prelude.{
  ℕ, zero, suc, ◌+◌, ◌-◌, ◌*◌, ◌/◌, ◌%◌, ◌^◌, Bool, true, false, not, ◌&&◌, ◌||◌, Option, none,
  some, List, [], ◌∷◌, ◌++◌, length, take, drop, replicate, ltb, leb, ◌==◌, if◌then◌else◌, Run, ok,
  err, errorf, ◌>>=◌, or_else, wrap_err,
}
use flare_p_chain_indexer.Prelude.Int.{ℤ, pos, to_uint64}

abbrev pub Text : Type 0
Text = List ℕ

-- the digits 0 to 9 and a to f
unfoldable pub hex_digit : ℕ → ℕ
hex_digit n = if ltb n 10 then 48 + n else 87 + n

-- the value of a digit 0 to 9, a to f, or A to F
unfoldable pub hex_value : ℕ → Option ℕ
hex_value c =
    if leb 48 c && leb c 57
    then some (c - 48)
    else if leb 97 c && leb c 102
    then some (c - 87)
    else if leb 65 c && leb c 70
    then some (c - 55)
    else none

-- `hex.EncodeToString`
unfoldable pub encode_hex : List ℕ → Text
unfolding hex_digit
encode_hex [] = []
encode_hex (b ∷ bytes) = hex_digit (b / 16) ∷ hex_digit (b % 16) ∷ encode_hex bytes

-- `hex.DecodeString`
unfoldable pub decode_hex : Text → Run (List ℕ)
unfolding hex_value
decode_hex [] = ok []
decode_hex (c ∷ []) = err (errorf "encoding/hex: odd length hex string")
decode_hex (c ∷ d ∷ text) = do
  high ← or_else (hex_value c) (err (errorf "encoding/hex: invalid byte"))
  low ← or_else (hex_value d) (err (errorf "encoding/hex: invalid byte"))
  rest ← decode_hex text
  ok ((16 * high + low) ∷ rest)

-- "0x"
abbrev pub hex_prefix : Text
hex_prefix = 48 ∷ 120 ∷ []

-- `strings.TrimPrefix(text, "0x")`
unfoldable pub trim_prefix : Text → Text
trim_prefix [] = []
trim_prefix (c ∷ []) = c ∷ []
trim_prefix (c ∷ d ∷ text) = if c == 48 && d == 120 then text else c ∷ d ∷ text

-- `strings.HasPrefix(text, "0x")`
unfoldable pub has_prefix : Text → Bool
has_prefix [] = false
has_prefix (c ∷ []) = false
has_prefix (c ∷ d ∷ text) = c == 48 && d == 120

unfoldable pub decode_hex_string : Text → Run (List ℕ)
unfolding decode_hex has_prefix
decode_hex_string s =
    if has_prefix s then decode_hex (drop 2 s) else err (errorf "string does not have hex prefix")

-- the `n` bytes of a number, the lowest first
unfoldable pub put_uint : ℕ → ℕ → List ℕ
put_uint zero v = []
put_uint (suc n) v = v % 256 ∷ put_uint n (v / 256)

-- the number of bytes, the lowest first
unfoldable pub get_uint : List ℕ → ℕ
get_uint [] = 0
get_uint (b ∷ bytes) = b + 256 * get_uint bytes

unfoldable pub uint64_to_hex : ℕ → Text
unfolding put_uint encode_hex
uint64_to_hex value = encode_hex (put_uint 8 value)

unfoldable pub uint32_to_hex : ℕ → Text
unfolding put_uint encode_hex
uint32_to_hex value = encode_hex (put_uint 4 value)

unfoldable pub uint16_to_hex : ℕ → Text
unfolding put_uint encode_hex
uint16_to_hex value = encode_hex (put_uint 2 value)

-- the digit "0" in front of a text of odd length
unfoldable pub make_even : Text → Text
make_even value = if length value % 2 == 0 then value else 48 ∷ value

unfoldable pub pad_hex_string : Text → ℕ → Run Text
unfolding trim_prefix make_even decode_hex
pad_hex_string value len =
    let text = make_even (trim_prefix value) in
    let padded : Run Text = decode_hex text >>= λ bytes.
    if ltb len (length text)
    then err (errorf "string too long")
    else ok (replicate (len - length text) 48 ++ text) in
    if len % 2 == 0 then padded else err (errorf "length must be even")

-- TransactionHexToBytes32 and Hex20ToBytes20, for their numbers of bytes
unfoldable pub hex_to_bytes : ℕ → Text → Run (List ℕ)
unfolding trim_prefix decode_hex
hex_to_bytes size text = decode_hex (trim_prefix text) >>= λ bytes.
    if length bytes == size then ok bytes else err (errorf "wrong number of bytes")

-- `api.ARPChainStaking`
pub record ArPChainStaking : Type 0 where
  pub attestation_type : ℕ
  pub source_id : ℤ
  pub message_integrity_code : Text
  pub id : Text
  pub block_number : ℕ

unfoldable pub pack_p_chain_staking_request : ArPChainStaking → Run Text
unfolding uint16_to_hex uint32_to_hex pad_hex_string
pack_p_chain_staking_request request = do
  mi_code ←
      wrap_err "error packing MessageIntegrityCode"
        (pad_hex_string request.message_integrity_code 64)
  id ← wrap_err "error packing id" (pad_hex_string request.id 64)
  ok (
      hex_prefix
      ++ (uint16_to_hex request.attestation_type
          ++ (uint32_to_hex (to_uint64 request.source_id % 2 ^ 32)
              ++ (mi_code ++ (id ++ uint32_to_hex request.block_number)))))

-- `bytes[from:to]`
abbrev pub slice : ℕ → ℕ → List ℕ → List ℕ
slice from to bytes = take (to - from) (drop from bytes)

-- `hexutil.Encode` of go-ethereum is a parameter.
module _ (encode : List ℕ → Text) where
  -- the fields of the request in its 74 bytes
  unfoldable pub request_of : List ℕ → ArPChainStaking
  unfolding get_uint
  request_of bytes = record {
    attestation_type = get_uint (slice 0 2 bytes);
    source_id = pos (get_uint (slice 2 6 bytes));
    message_integrity_code = encode (slice 6 38 bytes);
    id = encode (slice 38 70 bytes);
    block_number = get_uint (slice 70 74 bytes);
  }

  unfoldable pub unpack_p_chain_staking_request : Text → Run ArPChainStaking
  unfolding trim_prefix decode_hex request_of
  unpack_p_chain_staking_request request = do
    byte_request ← wrap_err "error decoding request" (decode_hex (trim_prefix request))
    if length byte_request == 74
        then ok (request_of byte_request)
        else err (errorf "invalid request length")
