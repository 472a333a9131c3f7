-- ===== src/Tests/Requests.antt =====
-- Runs of utils/encoding.go, services/utils/encoding.go and services/routes/query.go.
use flare_p_chain_indexer.Prelude.{
  ℕ, ◌≡◌, refl, arith, false, some, none, List, ◌++◌, replicate, ok, err, errorf, ◌>>=◌,
}
use flare_p_chain_indexer.Prelude.Int.{pos}
use flare_p_chain_indexer.Prelude.Str.{codes}
use flare_p_chain_indexer.Prelude.Time.{unix}
use flare_p_chain_indexer.Prelude.Errors.{str_append}
use flare_p_chain_indexer.Encoding.{
  Text, ArPChainStaking, encode_hex, hex_prefix, pack_p_chain_staking_request,
  unpack_p_chain_staking_request,
}
use flare_p_chain_indexer.Encoding.Hex.{replicate-AreBytes}
use flare_p_chain_indexer.Encoding.Requests.{
  IsRequest, pack_p_chain_staking_request-unpack_p_chain_staking_request,
}
use flare_p_chain_indexer.Database.PChain.{
  find_p_chain_tx_in_block_height, first_in_block, join_inputs,
}
use flare_p_chain_indexer.Query.{
  QueryApi, ApiVerification, status_ok, reply, crash, process_p_chain_staking_request,
  integrity_request, prepare_attestation_request,
}
use flare_p_chain_indexer.Query.Sound.{
  Confirmed, process_p_chain_staking_request-Confirmed, integrity_request-crash,
}
use flare_p_chain_indexer.Tests.Queries.{tables}

abbrev encode : List ℕ → Text
encode bytes = hex_prefix ++ encode_hex bytes

abbrev request : ArPChainStaking
request = record {
  attestation_type = 5;
  source_id = pos 14;
  message_integrity_code = hex_prefix ++ encode_hex (replicate 32 7);
  id = hex_prefix ++ encode_hex (replicate 32 171);
  block_number = 5;
}

abbrev request-IsRequest : IsRequest request
request-IsRequest = record {
  code = replicate 32 7;
  id_bytes = replicate 32 171;
  source = 14;
  type_fits = omega arith;
  source_is = refl;
  source_fits = omega arith;
  block_fits = omega arith;
  code_is = refl;
  code_bytes = replicate-AreBytes 32 7 (omega arith);
  code_size = refl;
  id_is = refl;
  id_are_bytes = replicate-AreBytes 32 171 (omega arith);
  id_size = refl;
}

pack_p_chain_staking_request-unpack_p_chain_staking_request_example :
    (pack_p_chain_staking_request request >>= unpack_p_chain_staking_request encode) ≡ ok request
pack_p_chain_staking_request-unpack_p_chain_staking_request_example =
    pack_p_chain_staking_request-unpack_p_chain_staking_request encode (λ bytes. refl) request
      request-IsRequest

abbrev api : QueryApi
api = record {
  chain_id = pos 14;
  to_id = λ bytes. "c";
  node_id_from_string = λ s. ok (codes s);
  id_from_string = λ s. err (errorf "no identifier");
  parse_to_id = λ s. ok (codes s);
  encode = encode;
  hash_values = λ a b c d e f g h i j. ok (hex_prefix ++ encode_hex d);
}

abbrev confirmed : ApiVerification
confirmed = record {
  request = some request;
  response = some (record {
    block_number = 5;
    transaction_hash = request.id;
    transaction_type = 0;
    node_id = hex_prefix ++ encode_hex (codes "NodeID-1");
    start_time = pos 12;
    end_time = pos 99;
    weight = 30;
    source_address = hex_prefix ++ encode_hex (codes "-");
  });
  status = status_ok;
}

confirms : process_p_chain_staking_request api tables request ≡ reply confirmed
unfolding process_p_chain_staking_request find_p_chain_tx_in_block_height first_in_block join_inputs
    unix str_append
confirms = refl

process_p_chain_staking_request-Confirmed_example : Confirmed api tables request confirmed
process_p_chain_staking_request-Confirmed_example =
    process_p_chain_staking_request-Confirmed api tables request confirmed confirms refl

-- a request for a block that no row is of
abbrev too_high : ArPChainStaking
too_high = record request { block_number = 6 }

unknown : find_p_chain_tx_in_block_height tables "c" 6 ≡ ok (none, false)
unfolding find_p_chain_tx_in_block_height first_in_block join_inputs
unknown = refl

integrity_request-crash_example :
    (integrity_request api tables too_high ≡ crash)
    × (prepare_attestation_request api tables too_high ≡ crash)
integrity_request-crash_example =
    integrity_request-crash api tables too_high (none, false) refl refl unknown refl
