-- ===== src/Tests/Served.antt =====
-- A run of createMirroringData of services/routes/mirroring.go.
use flare_p_chain_indexer.Prelude.{◌≡◌, refl, false, List, [], ◌∷◌, ◌++◌, replicate, get_or, ok}
use flare_p_chain_indexer.Prelude.Int.{◌+ℤ◌, int64, to_uint64, ◌*ℤ◌, quot, ◌-ℤ◌}
use flare_p_chain_indexer.Prelude.Time.{add, sub, unix}
use flare_p_chain_indexer.Prelude.Maps.{insert}
use flare_p_chain_indexer.Prelude.Str.{str_order}
use flare_p_chain_indexer.Prelude.Order.{sort_by}
use flare_p_chain_indexer.Prelude.Search.{sort_search}
use flare_p_chain_indexer.Merkle.{
  build, build_loop, get_proof_from_hash, sorted_hash_pair, binary_search, is_at_or_after,
  get_proof,
}
use flare_p_chain_indexer.Staking.{
  build_tree, dedupe_txs, id_of, hash_transaction, get_merkle_proof, copy_20,
}
use flare_p_chain_indexer.Staking.Epochs.{get_epoch_index, get_time_range}
use flare_p_chain_indexer.Database.PChain.{get_p_chain_txs_for_epoch, join_inputs}
use flare_p_chain_indexer.Mirroring.{
  MirroringHandlers, MirroringResponse, mirror_db_gorm, create_mirroring_data, mirroring_loop,
  some_data,
}
use flare_p_chain_indexer.Mirroring.Served.{Served, create_mirroring_data-Served}
use flare_p_chain_indexer.Tests.{toy_staking, toy_epochs, row_b}
use flare_p_chain_indexer.Tests.Queries.{tables}

abbrev handlers : MirroringHandlers
handlers = record {
  staking = toy_staking;
  db = mirror_db_gorm tables;
  epochs = toy_epochs;
  row_id = λ row. row.weight;
  encode = λ bytes. bytes;
  pack_mirror_stake = λ data_ proof. ok (data_.tx_id ++ proof);
  is_record_not_found = λ e. false;
}

abbrev responses : List MirroringResponse
responses =
    record {
      stake_data = record {
        tx_id = 98 ∷ [];
        staking_type = 0;
        input_address = replicate 20 0;
        node_id = 78 ∷ 111 ∷ 100 ∷ 101 ∷ 73 ∷ 68 ∷ 45 ∷ 49 ∷ [];
        start_time = 12;
        end_time = 99;
        weight = 20;
      };
      merkle_proof = (693 ∷ []) ∷ (71 ∷ []) ∷ [];
      tx_input = 98 ∷ 693 ∷ 71 ∷ [];
    }
    ∷ []

serves : create_mirroring_data handlers row_b.tx ≡ ok responses
unfolding create_mirroring_data get_epoch_index get_p_chain_txs_for_epoch build_tree dedupe_txs
    sort_by get_time_range add ◌+ℤ◌ int64 ◌*ℤ◌ quot sub ◌-ℤ◌ insert str_order id_of hash_transaction
    join_inputs build build_loop get_proof_from_hash sorted_hash_pair mirroring_loop some_data
    get_merkle_proof sort_search unix copy_20 binary_search is_at_or_after get_or get_proof
    to_uint64
serves = refl

create_mirroring_data-Served_example : Served handlers tables row_b.tx responses
create_mirroring_data-Served_example =
    create_mirroring_data-Served handlers tables row_b.tx responses refl serves
