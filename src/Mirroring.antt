-- ===== src/Mirroring.antt =====
-- services/routes/mirroring.go: the data of a stake with its Merkle proof, as the mirror cronjob sends
-- it. The ABI encoding of the contract's method and the identifiers of the rows are parameters.
pub mod Served
use Prim.Native.String.{String}
use flare_p_chain_indexer.Prelude.{
  ℕ, Bool, true, false, Option, none, some, List, [], ◌∷◌, map, ◌==◌, if◌then◌else◌, Run, ok, err,
  panic, Error, errorf, ◌>>=◌, or_else,
}
use flare_p_chain_indexer.Prelude.Time.{Time}
use flare_p_chain_indexer.Database.{PChainTx, PChainTxData}
use flare_p_chain_indexer.Database.PChain.{
  PChainTables, get_p_chain_txs_for_epoch, fetch_p_chain_tx,
}
use flare_p_chain_indexer.Merkle.{Tree}
use flare_p_chain_indexer.Staking.{
  StakingApi, StakeData, dedupe_txs, to_stake_data, build_tree, get_merkle_proof,
}
use flare_p_chain_indexer.Staking.Epochs.{EpochInfo, get_epoch_index, get_time_range}
use flare_p_chain_indexer.Encoding.{Text}
use flare_p_chain_indexer.Query.{Reply, invalid_request, internal_error, crash, internal}

-- `mirrorDB`
pub record MirrorDb : Type 0 where
  pub epoch_txs : Time → Time → Run (List PChainTxData)
  pub get_tx : String → Run PChainTx

abbrev pub mirror_db_gorm : PChainTables → MirrorDb
mirror_db_gorm t = record { epoch_txs = get_p_chain_txs_for_epoch t; get_tx = fetch_p_chain_tx t }

-- `mirroringRouteHandlers`, with what is not modelled
pub record MirroringHandlers : Type 1 where
  pub staking : StakingApi
  pub open staking use {hashes, Hash}
  pub db : MirrorDb
  pub epochs : EpochInfo
  -- the primary key of a row
  pub row_id : PChainTx → ℕ
  -- hexutil.Encode
  pub encode : List ℕ → Text
  -- the ABI encoding of a call of `mirrorStake`
  pub pack_mirror_stake : StakeData → List Hash → Run (List ℕ)
  -- `errors.Is(err, gorm.ErrRecordNotFound)`
  pub is_record_not_found : Error → Bool

pub record MirroringStakeData : Type 0 where
  pub tx_id : Text
  pub staking_type : ℕ
  pub input_address : Text
  pub node_id : Text
  pub start_time : ℕ
  pub end_time : ℕ
  pub weight : ℕ

pub record MirroringResponse : Type 0 where
  pub stake_data : MirroringStakeData
  pub merkle_proof : List Text
  pub tx_input : Text

module _ (rh : MirroringHandlers) where
  open rh use {staking, hashes, Hash, db, epochs, row_id, encode, pack_mirror_stake}

  abbrev pub encoded_data : StakeData → MirroringStakeData
  encoded_data d = record {
    tx_id = encode d.tx_id;
    staking_type = d.staking_type;
    input_address = encode d.input_address;
    node_id = encode d.node_id;
    start_time = d.start_time;
    end_time = d.end_time;
    weight = d.weight;
  }

  -- the response for one row
  unfoldable pub respond : Tree hashes → PChainTxData → Run MirroringResponse
  respond merkle_tree tx_data = do
    stake_data ← to_stake_data staking tx_data
    merkle_proof ← get_merkle_proof staking merkle_tree tx_data
    tx_data_bytes ← pack_mirror_stake stake_data merkle_proof
    ok (record {
      stake_data = encoded_data stake_data;
      merkle_proof = map (λ proof. encode (hashes.bytes proof)) merkle_proof;
      tx_input = encode tx_data_bytes;
    })

  unfoldable pub mirroring_loop :
      Tree hashes → PChainTx → List PChainTxData → Run (List MirroringResponse)
  unfolding respond
  mirroring_loop merkle_tree tx [] = ok []
  mirroring_loop merkle_tree tx (tx_data ∷ txs) =
      let rest = mirroring_loop merkle_tree tx txs in
      let own = respond merkle_tree tx_data in
      if row_id tx_data.tx == row_id tx
      then own >>= (λ response. rest >>= λ responses. ok (response ∷ responses))
      else rest

  -- An answer without a response is an error, whose text reads the identifier.
  unfoldable pub some_data : PChainTx → List MirroringResponse → Run (List MirroringResponse)
  some_data tx [] = or_else tx.tx_id panic >>= λ id. err (errorf "no mirroring data found for tx")
  some_data tx (response ∷ responses) = ok (response ∷ responses)

  unfoldable pub create_mirroring_data : PChainTx → Run (List MirroringResponse)
  unfolding mirroring_loop some_data
  create_mirroring_data tx = do
    start_time ← or_else tx.start_time panic
    epoch ← get_epoch_index epochs start_time
    rows ← db.epoch_txs (get_time_range epochs epoch).0 (get_time_range epochs epoch).1
    merkle_tree ← build_tree staking (dedupe_txs rows)
    mirroring_data ← mirroring_loop merkle_tree tx (dedupe_txs rows)
    some_data tx mirroring_data

  unfoldable pub list_mirroring_transactions : String → Reply (List MirroringResponse)
  unfolding create_mirroring_data
  list_mirroring_transactions tx_id = elim (db.get_tx tx_id) [
    | ok tx ↦ internal (create_mirroring_data tx)
    | err e ↦
        if rh.is_record_not_found e
        then invalid_request (errorf "tx not found")
        else internal_error e
    | panic ↦ crash
  ]
