-- ===== src/Indexer/PChain/TxRows.antt =====
-- The row of one transaction: the update functions of indexer/pchain/batch_indexer.go.
use Prim.Native.String.{String}
use flare_p_chain_indexer.Prelude.{ℕ, ◌≡◌, refl, Option, some, List, [], ◌∷◌, ◌++◌, ok, err-ne-ok}
use flare_p_chain_indexer.Prelude.Time.{Time, of_unix}
use flare_p_chain_indexer.Prelude.Int.{of_uint64}
use flare_p_chain_indexer.Exec.{bind-eq-ok, lift}
use flare_p_chain_indexer.Database.{
  PChainTx, PChainTxType, reward_validator_tx, add_delegator_tx, add_validator_tx, import_tx,
  export_tx, advance_time_tx, create_chain_tx, create_subnet_tx, add_subnet_validator_tx,
  unknown_tx, PChainBlockType,
}
use flare_p_chain_indexer.Indexer.Outputs.{rewards_owner_address}
use flare_p_chain_indexer.Indexer.PChain.{
  Staker, UnsignedTx, reward_validator, add_validator, add_delegator, import_from, export_to,
  advance_time, add_subnet_validator, create_chain, create_subnet, other_tx, PChainApi,
  TxBatchIndexer, append_tx, add_in_out, get_reward_outputs, get_add_staker_tx_outputs, add_base_tx,
  update_reward_validator_tx, update_add_staker_tx, update_transfer_tx, update_advance_time_tx,
  update_general_base_tx, add_unsigned_tx,
}

-- the type that the row of a transaction has
abbrev pub kind_of : UnsignedTx → PChainTxType
kind_of (reward_validator id) = reward_validator_tx
kind_of (add_validator tx shares) = add_validator_tx
kind_of (add_delegator tx) = add_delegator_tx
kind_of (import_from chain_id tx) = import_tx
kind_of (export_to chain_id tx) = export_tx
kind_of (advance_time time) = advance_time_tx
kind_of (add_subnet_validator tx) = add_subnet_validator_tx
kind_of (create_chain tx) = create_chain_tx
kind_of (create_subnet tx) = create_subnet_tx
kind_of other_tx = unknown_tx

-- The row has the data of the stake.
pub record IsStake (api : PChainApi) (tx : Staker) (row : PChainTx) : Type 0 where
  pub node_id : row.node_id ≡ tx.node_id
  pub start_time : row.start_time ≡ some tx.start_time
  pub end_time : row.end_time ≡ some tx.end_time
  pub weight : row.weight ≡ tx.weight
  pub owner : rewards_owner_address api.format_address tx.rewards_owner ≡ ok row.rewards_owner

-- What the row has of its own kind of transaction.
abbrev pub HasDetails : PChainApi → UnsignedTx → PChainTx → Type 0
HasDetails api (reward_validator id) row = row.reward_tx_id ≡ id
HasDetails api (add_validator tx shares) row = IsStake api tx row × (row.fee_percentage ≡ shares)
HasDetails api (add_delegator tx) row = IsStake api tx row
HasDetails api (import_from chain_id tx) row = row.chain_id ≡ chain_id
HasDetails api (export_to chain_id tx) row = row.chain_id ≡ chain_id
HasDetails api (advance_time time) row = row.time ≡ some (of_unix (of_uint64 time))
HasDetails api _ row = Unit

-- the columns that all rows of a block have in common, with the identifier of the transaction
pub record Common : Type 0 where
  pub tx_id : Option String
  pub block_id : String
  pub block_type : PChainBlockType
  pub block_height : ℕ
  pub timestamp : Time
  pub bytes : List ℕ

abbrev pub common_of : PChainTx → Common
common_of row = record {
  tx_id = row.tx_id;
  block_id = row.block_id;
  block_type = row.block_type;
  block_height = row.block_height;
  timestamp = row.timestamp;
  bytes = row.bytes;
}

-- The row of a transaction: what every row of the block has, the type of the transaction, and the
-- details of its kind.
pub record IsTxRow (api : PChainApi) (db_tx : PChainTx) (u : UnsignedTx) (row : PChainTx)
    : Type 0 where
  pub common : common_of row ≡ common_of db_tx
  pub kind : row.tx_type ≡ kind_of u
  pub details : HasDetails api u row

module _ (api : PChainApi) where
  -- A row was added.
  abbrev pub AddsRow : PChainTx → UnsignedTx → TxBatchIndexer → TxBatchIndexer → Type 0
  AddsRow db_tx u xi xi' =
      (row : PChainTx) × ((xi'.new_txs ≡ xi.new_txs ++ row ∷ []) × IsTxRow api db_tx u row)

  update_add_staker_tx-row :
      (db_tx : PChainTx) (id : String) (tx : Staker) (xi : TxBatchIndexer)
      → (update_add_staker_tx api db_tx id tx xi).0 ≡ ok tt
      → (owner : String) × ((rewards_owner_address api.format_address tx.rewards_owner ≡ ok owner)
          × ((update_add_staker_tx api db_tx id tx xi).1.new_txs
              ≡ xi.new_txs
                ++ record db_tx {
                  node_id = tx.node_id;
                  start_time = some tx.start_time;
                  end_time = some tx.end_time;
                  weight = tx.weight;
                  rewards_owner = owner;
                }
                  ∷ []))
  unfolding update_add_staker_tx append_tx add_in_out
  update_add_staker_tx-row db_tx id tx xi run =
      let (owner, named, run_o) =
        bind-eq-ok (lift (rewards_owner_address api.format_address tx.rewards_owner)) _ xi run in
      let (outs, made, run_a) =
        bind-eq-ok (lift (get_add_staker_tx_outputs api id tx)) _ xi run_o in
      (owner, (named, rw (named, made) refl))

  pub add_unsigned_tx-row :
      (db_tx : PChainTx) (id : String) (u : UnsignedTx) (xi : TxBatchIndexer)
      → (add_unsigned_tx api db_tx id u xi).0 ≡ ok tt
      → AddsRow db_tx u xi (add_unsigned_tx api db_tx id u xi).1
  unfolding add_unsigned_tx update_reward_validator_tx update_transfer_tx update_advance_time_tx
      update_general_base_tx append_tx add_in_out add_base_tx
  add_unsigned_tx-row db_tx id (reward_validator reward_id) xi run =
      let (outs, made, rest) = bind-eq-ok (lift (get_reward_outputs api reward_id)) _ xi run in
      (
        record db_tx { tx_type = reward_validator_tx; reward_tx_id = reward_id },
        (rw made refl, record { common = refl; kind = refl; details = refl }),
      )
  add_unsigned_tx-row db_tx id (add_validator tx shares) xi run =
      let db_tx' = record db_tx { tx_type = add_validator_tx; fee_percentage = shares } in
      let (owner, (named, added)) = update_add_staker_tx-row db_tx' id tx xi run in
      (
        _,
        (
          added,
          record {
            common = refl;
            kind = refl;
            details = (
              record {
                node_id = refl;
                start_time = refl;
                end_time = refl;
                weight = refl;
                owner = named;
              },
              refl,
            );
          },
        ),
      )
  add_unsigned_tx-row db_tx id (add_delegator tx) xi run =
      let db_tx' = record db_tx { tx_type = add_delegator_tx } in
      let (owner, (named, added)) = update_add_staker_tx-row db_tx' id tx xi run in
      (
        _,
        (
          added,
          record {
            common = refl;
            kind = refl;
            details = record {
              node_id = refl;
              start_time = refl;
              end_time = refl;
              weight = refl;
              owner = named;
            };
          },
        ),
      )
  add_unsigned_tx-row db_tx id (import_from chain_id tx) xi run =
      (_, (refl, record { common = refl; kind = refl; details = refl }))
  add_unsigned_tx-row db_tx id (export_to chain_id tx) xi run =
      (_, (refl, record { common = refl; kind = refl; details = refl }))
  add_unsigned_tx-row db_tx id (advance_time time) xi run =
      (_, (refl, record { common = refl; kind = refl; details = refl }))
  add_unsigned_tx-row db_tx id (add_subnet_validator tx) xi run =
      (_, (refl, record { common = refl; kind = refl; details = tt }))
  add_unsigned_tx-row db_tx id (create_chain tx) xi run =
      (_, (refl, record { common = refl; kind = refl; details = tt }))
  add_unsigned_tx-row db_tx id (create_subnet tx) xi run =
      (_, (refl, record { common = refl; kind = refl; details = tt }))
  add_unsigned_tx-row db_tx id other_tx xi run = absurd (err-ne-ok run)
