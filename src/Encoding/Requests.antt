-- ===== src/Encoding/Requests.antt =====
-- Attestation requests of services/utils/encoding.go: unpacking undoes packing.
use mathlib.Core.List.{append-nil, append_assoc}
use flare_p_chain_indexer.Prelude.{
  ℕ, zero, suc, ◌+◌, ◌-◌, ◌%◌, ◌^◌, ◌<◌, ◌≡◌, refl, sym, ap, ◌∙◌, List, [], ◌∷◌, ◌++◌, length, take,
  drop-append, length-append, arith, ok, ◌>>=◌,
}
use flare_p_chain_indexer.Prelude.Int.{pos, to_uint64, word_of}
use flare_p_chain_indexer.Encoding.{
  Text, encode_hex, put_uint, hex_prefix, trim_prefix, uint16_to_hex, uint32_to_hex,
  ArPChainStaking, pack_p_chain_staking_request, slice, request_of, unpack_p_chain_staking_request,
}
use flare_p_chain_indexer.Encoding.Hex.{
  AreBytes, AreBytes-append, decode_hex-encode_hex, encode_hex-append, put_uint-AreBytes,
  length-put_uint, get_uint-put_uint_2, get_uint-put_uint_4, pad_hex_string-full,
}

-- A request whose numbers fit their widths, and whose two texts are 32 bytes with their prefix.
pub record IsRequest (request : ArPChainStaking) : Type 0 where
  pub code : List ℕ
  pub id_bytes : List ℕ
  pub source : ℕ
  pub type_fits : request.attestation_type < 2 ^ 16
  pub source_is : request.source_id ≡ pos source
  pub source_fits : source < 2 ^ 32
  pub block_fits : request.block_number < 2 ^ 32
  pub code_is : request.message_integrity_code ≡ hex_prefix ++ encode_hex code
  pub code_bytes : AreBytes code
  pub code_size : length code ≡ 32
  pub id_is : request.id ≡ hex_prefix ++ encode_hex id_bytes
  pub id_are_bytes : AreBytes id_bytes
  pub id_size : length id_bytes ≡ 32

take-append : (xs ys : List ℕ) (n : ℕ) → length xs ≡ n → take n (xs ++ ys) ≡ xs
take-append [] [] zero h = refl
take-append [] (y ∷ ys) zero h = refl
take-append [] ys (suc n) h = absurd (omega arith)
take-append (x ∷ xs) ys zero h = absurd (omega arith)
take-append (x ∷ xs) ys (suc n) h = ap (λ l. x ∷ l) (take-append xs ys n (omega arith))

-- a field between what comes before it and what comes after it
slice-append :
    (before field after : List ℕ) (from to : ℕ)
    → length before ≡ from
    → from + length field ≡ to
    → slice from to (before ++ (field ++ after)) ≡ field
slice-append before field after from to start stop =
    ap (take (to - from)) (drop-append from before (field ++ after) start)
    ∙ take-append field after (to - from) (omega arith)

-- the bytes of a request
bytes_of : ℕ → ℕ → List ℕ → List ℕ → ℕ → List ℕ
bytes_of a s code id b = put_uint 2 a ++ (put_uint 4 s ++ (code ++ (id ++ put_uint 4 b)))

module _ (a s : ℕ) (code id : List ℕ) (b : ℕ) (code_size : length code ≡ 32)
    (id_size : length id ≡ 32) where
  abbrev all : List ℕ
  all = bytes_of a s code id b

  length-bytes_of : length all ≡ 74
  unfolding bytes_of
  length-bytes_of = omega (
    arith,
    length-append (put_uint 2 a) (put_uint 4 s ++ (code ++ (id ++ put_uint 4 b))),
    length-append (put_uint 4 s) (code ++ (id ++ put_uint 4 b)),
    length-append code (id ++ put_uint 4 b),
    length-append id (put_uint 4 b),
    length-put_uint 2 a,
    length-put_uint 4 s,
    length-put_uint 4 b,
  )

  slice-type : slice 0 2 all ≡ put_uint 2 a
  unfolding bytes_of
  slice-type = slice-append [] (put_uint 2 a) _ 0 2 refl (omega (arith, length-put_uint 2 a))

  slice-source : slice 2 6 all ≡ put_uint 4 s
  unfolding bytes_of
  slice-source =
      slice-append (put_uint 2 a) (put_uint 4 s) _ 2 6 (length-put_uint 2 a)
        (omega (arith, length-put_uint 4 s))

  abbrev numbers : List ℕ
  numbers = put_uint 2 a ++ put_uint 4 s

  length-numbers : length numbers ≡ 6
  length-numbers =
      omega (
        arith,
        length-append (put_uint 2 a) (put_uint 4 s),
        length-put_uint 2 a,
        length-put_uint 4 s,
      )

  -- the same bytes, with the first fields in front
  all_code : numbers ++ (code ++ (id ++ put_uint 4 b)) ≡ all
  unfolding bytes_of
  all_code = append_assoc (put_uint 2 a) (put_uint 4 s) (code ++ (id ++ put_uint 4 b))

  all_id : (numbers ++ code) ++ (id ++ put_uint 4 b) ≡ all
  all_id = append_assoc numbers code (id ++ put_uint 4 b) ∙ all_code

  all_block : ((numbers ++ code) ++ id) ++ (put_uint 4 b ++ []) ≡ all
  all_block =
      ap (λ l. ((numbers ++ code) ++ id) ++ l) (append-nil (put_uint 4 b))
      ∙ append_assoc (numbers ++ code) id (put_uint 4 b)
      ∙ all_id

  slice-code : slice 6 38 all ≡ code
  slice-code =
      ap (slice 6 38) (sym all_code)
      ∙ slice-append numbers code (id ++ put_uint 4 b) 6 38 length-numbers (omega arith)

  slice-id : slice 38 70 all ≡ id
  slice-id =
      ap (slice 38 70) (sym all_id)
      ∙ slice-append (numbers ++ code) id (put_uint 4 b) 38 70
          (omega (arith, length-append numbers code, length-numbers)) (omega arith)

  slice-block : slice 70 74 all ≡ put_uint 4 b
  slice-block =
      ap (slice 70 74) (sym all_block)
      ∙ slice-append ((numbers ++ code) ++ id) (put_uint 4 b) [] 70 74
          (omega
            (arith, length-append (numbers ++ code) id, length-append numbers code, length-numbers))
          (omega (arith, length-put_uint 4 b))

encode_hex-bytes_of :
    (a s : ℕ) (code id : List ℕ) (b : ℕ)
    → encode_hex (bytes_of a s code id b)
      ≡ uint16_to_hex a
        ++ (uint32_to_hex s ++ (encode_hex code ++ (encode_hex id ++ uint32_to_hex b)))
unfolding bytes_of uint16_to_hex uint32_to_hex
encode_hex-bytes_of a s code id b =
    encode_hex-append (put_uint 2 a) (put_uint 4 s ++ (code ++ (id ++ put_uint 4 b)))
    ∙ ap (λ t. encode_hex (put_uint 2 a) ++ t)
        (encode_hex-append (put_uint 4 s) (code ++ (id ++ put_uint 4 b))
          ∙ ap (λ t. encode_hex (put_uint 4 s) ++ t)
              (encode_hex-append code (id ++ put_uint 4 b)
                ∙ ap (λ t. encode_hex code ++ t) (encode_hex-append id (put_uint 4 b))))

bytes_of-AreBytes :
    (a s : ℕ) (code id : List ℕ) (b : ℕ)
    → AreBytes code
    → AreBytes id
    → AreBytes (bytes_of a s code id b)
unfolding bytes_of
bytes_of-AreBytes a s code id b h k = AreBytes-append (put_uint 2 a) _ (put_uint-AreBytes 2 a) (
    AreBytes-append (put_uint 4 s) _ (put_uint-AreBytes 4 s)
      (AreBytes-append code _ h (AreBytes-append id _ k (put_uint-AreBytes 4 b))))

to_uint64_small : (n : ℕ) → n < 2 ^ 32 → to_uint64 (pos n) % 2 ^ 32 ≡ n
unfolding to_uint64 word_of
to_uint64_small n h = omega arith

-- What a request is packed to.
pack-eq :
    (request : ArPChainStaking) (r : IsRequest request)
    → pack_p_chain_staking_request request
      ≡ ok (
          hex_prefix
          ++ encode_hex
              (bytes_of request.attestation_type r.source r.code r.id_bytes request.block_number))
unfolding pack_p_chain_staking_request
pack-eq request r =
    rw
      (
        r.code_is,
        r.id_is,
        r.source_is,
        pad_hex_string-full r.code r.code_bytes r.code_size,
        pad_hex_string-full r.id_bytes r.id_are_bytes r.id_size,
        to_uint64_small r.source r.source_fits,
        encode_hex-bytes_of request.attestation_type r.source r.code r.id_bytes
            request.block_number,
      )
      refl

-- What the bytes of a request are unpacked to.
request_of-bytes_of :
    (encode : List ℕ → Text)
    (documented : (bytes : List ℕ) → encode bytes ≡ hex_prefix ++ encode_hex bytes)
    (request : ArPChainStaking) (r : IsRequest request)
    → request_of encode
        (bytes_of request.attestation_type r.source r.code r.id_bytes request.block_number)
      ≡ request
unfolding request_of
request_of-bytes_of encode documented request r =
    let a = request.attestation_type in
    let b = request.block_number in
    rw
      (
        slice-type a r.source r.code r.id_bytes b r.code_size r.id_size,
        slice-source a r.source r.code r.id_bytes b r.code_size r.id_size,
        slice-code a r.source r.code r.id_bytes b r.code_size r.id_size,
        slice-id a r.source r.code r.id_bytes b r.code_size r.id_size,
        slice-block a r.source r.code r.id_bytes b r.code_size r.id_size,
        documented r.code,
        documented r.id_bytes,
        sym r.code_is,
        sym r.id_is,
        get_uint-put_uint_2 a r.type_fits,
        get_uint-put_uint_4 r.source r.source_fits,
        get_uint-put_uint_4 b r.block_fits,
        sym r.source_is,
      )
      refl

-- For a request whose numbers fit their widths and whose texts are 32 bytes with the prefix 0x in
-- small digits, packing succeeds and unpacking gives the request again.
pub pack_p_chain_staking_request-unpack_p_chain_staking_request :
    (encode : List ℕ → Text)
    (documented : (bytes : List ℕ) → encode bytes ≡ hex_prefix ++ encode_hex bytes)
    (request : ArPChainStaking)
    → IsRequest request
    → (pack_p_chain_staking_request request >>= unpack_p_chain_staking_request encode) ≡ ok request
unfolding unpack_p_chain_staking_request trim_prefix request_of
pack_p_chain_staking_request-unpack_p_chain_staking_request encode documented request r =
    let a = request.attestation_type in
    let b = request.block_number in
    let whole = bytes_of a r.source r.code r.id_bytes b in
    rw
      (
        pack-eq request r,
        decode_hex-encode_hex whole
            (bytes_of-AreBytes a r.source r.code r.id_bytes b r.code_bytes r.id_are_bytes),
        length-bytes_of a r.source r.code r.id_bytes b r.code_size r.id_size,
      )
      (ap ok (request_of-bytes_of encode documented request r))
