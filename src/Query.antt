-- ===== src/Query.antt =====
-- services/routes/query.go: attestation requests are answered from the tables of the P-chain. The
-- identifiers of avalanchego and the encoding of contract data are parameters.
pub mod Sound
use Prim.Native.String.{String}
use text.Mathlib.Text.{find?}
use flare_p_chain_indexer.Prelude.{
  ℕ, zero, ◌+◌, ◌*◌, ◌%◌, ◌^◌, Bool, true, false, not, ◌&&◌, Option, none, some, List, [], ◌∷◌,
  ◌++◌, drop, ◌==◌, if◌then◌else◌, Run, ok, err, panic, Error, errorf, ◌>>=◌, or_else,
}
use flare_p_chain_indexer.Prelude.Int.{ℤ, eq_ℤ, to_uint64}
use flare_p_chain_indexer.Prelude.Errors.{str_append}
use flare_p_chain_indexer.Prelude.Time.{unix}
use flare_p_chain_indexer.Database.{PChainTxData, add_validator_tx, add_delegator_tx}
use flare_p_chain_indexer.Database.PChain.{PChainTables, type_eq, find_p_chain_tx_in_block_height}
use flare_p_chain_indexer.Encoding.{
  Text, hex_value, encode_hex, hex_prefix, has_prefix, hex_to_bytes, ArPChainStaking,
  pack_p_chain_staking_request, unpack_p_chain_staking_request,
}

-- What is not modelled: the identifiers of avalanchego and go-ethereum's packages.
pub record QueryApi : Type 0 where
  pub chain_id : ℤ
  -- ids.ToID, with the empty identifier on an error, and its text
  pub to_id : List ℕ → String
  -- ids.NodeIDFromString, ids.FromString and address.ParseToID
  pub node_id_from_string : String → Run (List ℕ)
  pub id_from_string : String → Run (List ℕ)
  pub parse_to_id : String → Run (List ℕ)
  -- hexutil.Encode
  pub encode : List ℕ → Text
  -- arguments.Pack of the values of HashPChainStaking, in their order, and the text of the Keccak-256
  -- hash of the result
  pub hash_values : ℕ → ℕ → ℕ → List ℕ → ℕ → List ℕ → ℕ → ℕ → ℕ → List ℕ → Run Text

-- the fields of `api.DHPChainStaking` that the route fills
pub record DhPChainStaking : Type 0 where
  pub block_number : ℕ
  pub transaction_hash : Text
  pub transaction_type : ℕ
  pub node_id : Text
  pub start_time : ℤ
  pub end_time : ℤ
  pub weight : ℕ
  pub source_address : Text

pub data VerificationStatus : Type 0 where
  status_ok non_existent_block non_existent_transaction : VerificationStatus

-- `api.APIVerification`, whose hash the route leaves empty
pub record ApiVerification : Type 0 where
  pub request : Option ArPChainStaking
  pub response : Option DhPChainStaking
  pub status : VerificationStatus

-- How a handler ends: with a reply, with one of two statuses and an error, or in a panic.
pub data Reply {ℓ} (A : Type ℓ) : Type ℓ where
  reply : A → Reply A
  invalid_request : Error → Reply A
  internal_error : Error → Reply A
  crash : Reply A

abbrev pub then_reply {ℓ} : {A B : Type ℓ} → Reply A → (A → Reply B) → Reply B
then_reply (reply a) f = f a
then_reply (invalid_request e) f = invalid_request e
then_reply (internal_error e) f = internal_error e
then_reply crash f = crash

-- a result whose error is an internal one
abbrev pub internal {ℓ} : {A : Type ℓ} → Run A → Reply A
internal (ok a) = reply a
internal (err e) = internal_error e
internal panic = crash

-- `AttestationTypePChainStaking`
abbrev pub p_chain_staking : ℕ
p_chain_staking = 5

-- the bytes of a text up to the first bad pair of digits: what hex.DecodeString returns, with or
-- without an error
unfoldable pub decoded_bytes : Text → List ℕ
decoded_bytes [] = []
decoded_bytes (c ∷ []) = []
decoded_bytes (c ∷ d ∷ text) =
    let rest = decoded_bytes text in
    elim (hex_value c) [
      | none ↦ []
      | some high ↦ elim (hex_value d) [ none ↦ [] | some low ↦ (16 * high + low) ∷ rest ]
    ]

-- the bytes that DecodeHexString returns
unfoldable pub id_bytes : Text → List ℕ
unfolding decoded_bytes
id_bytes s = if has_prefix s then decoded_bytes (drop 2 s) else []

module _ (api : QueryApi) where
  unfoldable pub node_id_to_hex : String → Run Text
  node_id_to_hex node_id = do id ← api.node_id_from_string node_id; ok (hex_prefix ++ encode_hex id)

  unfoldable pub address_to_hex : String → Run Text
  address_to_hex addr_str = do
    let with_separator : String = elim (find? addr_str "-") [
      | none ↦ str_append "-" addr_str
      | some _ ↦ addr_str
    ]
    id ← api.parse_to_id with_separator
    ok (hex_prefix ++ encode_hex id)

  unfoldable pub id_to_hex : String → Run Text
  id_to_hex id_str = do id ← api.id_from_string id_str; ok (hex_prefix ++ encode_hex id)

  -- the node's text, empty on an error
  unfoldable pub node_text : Run Text → Run Text
  node_text (ok t) = ok t
  node_text (err e) = ok []
  node_text panic = panic

  -- the address, or else an identifier
  unfoldable pub source_text : Run Text → Run Text → Run Text
  source_text (ok t) id = ok t
  source_text (err e) (ok t) = ok t
  source_text (err e) (err f) = err (errorf "failed to convert address to hex")
  source_text (err e) panic = panic
  source_text panic id = panic

  -- the verification of a staking transaction
  unfoldable pub confirm : ArPChainStaking → PChainTxData → Run ApiVerification
  unfolding node_text source_text node_id_to_hex address_to_hex id_to_hex
  confirm request tx = do
    node_id ← node_text (node_id_to_hex tx.node_id)
    address ← source_text (address_to_hex tx.input_address) (id_to_hex tx.input_address)
    start ← or_else tx.start_time panic
    stop ← or_else tx.end_time panic
    ok (record {
      request = some request;
      response = some (record {
        block_number = request.block_number;
        transaction_hash = request.id;
        transaction_type = if type_eq tx.tx_type add_validator_tx then 0 else 1;
        node_id = node_id;
        start_time = unix start;
        end_time = unix stop;
        weight = tx.weight;
        source_address = address;
      });
      status = status_ok;
    })

  -- a verification without a response
  abbrev pub not_found : VerificationStatus → ApiVerification
  not_found status = record { request = none; response = none; status = status }

  -- the switch of executePChainStakingRequest
  unfoldable pub verify : ArPChainStaking → Option PChainTxData × Bool → Run ApiVerification
  unfolding confirm
  verify request (tx, false) = ok (not_found non_existent_block)
  verify request (none, true) = ok (not_found non_existent_transaction)
  verify request (some tx, true) =
      let found = confirm request tx in
      if not (type_eq tx.tx_type add_validator_tx) && not (type_eq tx.tx_type add_delegator_tx)
      then ok (not_found non_existent_transaction)
      else found

  module _ (t : PChainTables) where
    -- executePChainStakingRequest, as processPChainStakingRequest replies
    unfoldable pub process_p_chain_staking_request : ArPChainStaking → Reply ApiVerification
    unfolding id_bytes verify
    process_p_chain_staking_request request =
        let answered = internal (
          find_p_chain_tx_in_block_height t (api.to_id (id_bytes request.id)) request.block_number
          >>= verify request) in
        if not (request.attestation_type == p_chain_staking)
        then invalid_request (errorf "invalid attestation type")
        else if not (eq_ℤ request.source_id api.chain_id)
        then invalid_request (errorf "invalid source chain id")
        else answered

    unfoldable pub process_attestation_request : Text → Reply ApiVerification
    unfolding process_p_chain_staking_request
    process_attestation_request request = elim (unpack_p_chain_staking_request api.encode request) [
      | ok unpacked ↦ process_p_chain_staking_request unpacked
      | err e ↦ invalid_request e
      | panic ↦ crash
    ]

    unfoldable pub hash_p_chain_staking : ArPChainStaking → DhPChainStaking → Run Text
    hash_p_chain_staking request response = do
      tx_hash ← hex_to_bytes 32 response.transaction_hash
      node_id ← hex_to_bytes 20 response.node_id
      src_address ← hex_to_bytes 20 response.source_address
      api.hash_values request.attestation_type (to_uint64 request.source_id % 2 ^ 32)
          response.block_number tx_hash response.transaction_type node_id
          (to_uint64 response.start_time) (to_uint64 response.end_time) response.weight src_address

    -- the code of a verification; a `nil` response panics
    unfoldable pub code_of : ArPChainStaking → ApiVerification → Reply Text
    unfolding hash_p_chain_staking
    code_of request v = elim v.response [
      | none ↦ crash
      | some response ↦ internal (hash_p_chain_staking request response)
    ]

    unfoldable pub integrity_request : ArPChainStaking → Reply Text
    unfolding code_of
    integrity_request request =
        then_reply (process_p_chain_staking_request request) (code_of request)

    unfoldable pub prepare_attestation_request : ArPChainStaking → Reply Text
    unfolding code_of
    prepare_attestation_request request = then_reply (process_p_chain_staking_request request) λ v.
        then_reply (code_of request v) λ code.
          internal (pack_p_chain_staking_request (record request { message_integrity_code = code }))
