-- ===== src/Indexer/PChain.antt =====
-- indexer/pchain/batch_indexer.go and in_updater.go: the blocks of the P-chain become rows. The
-- types of avalanchego show what the code reads of them; parsing, the node and the database are
-- parameters.
pub mod Updater
pub mod Staked
pub mod TxRows
pub mod Blocks
pub mod Stored
use Prim.Native.String.{String}
use flare_p_chain_indexer.Prelude.{
  ℕ, Option, none, some, List, [], ◌∷◌, ◌++◌, map, length, Run, ok, err, errorf, or_else, panic,
  if◌then◌else◌, ltb, ◌>>=◌,
}
use flare_p_chain_indexer.Prelude.Int.{ℤ, pos, ltb_ℤ, of_uint64}
use flare_p_chain_indexer.Prelude.Time.{Time, of_unix}
use flare_p_chain_indexer.Exec.{Exec, pure, fail, lift, ◌>>=◌ as and_then, ◌>>◌}
use flare_p_chain_indexer.Database.{
  PChainTx, PChainTxType, reward_validator_tx, add_delegator_tx, add_validator_tx, import_tx,
  export_tx, advance_time_tx, create_chain_tx, create_subnet_tx, add_subnet_validator_tx,
  unknown_tx, PChainBlockType, proposal_block, commit_block, abort_block, standard_block,
  PChainOutputType, default_output, stake_output, reward_output, TxInput, TxOutput, PChainTxOutput,
}
use flare_p_chain_indexer.Indexer.Outputs.{
  OutputState, Owner, TransferableInput, Utxo, BaseTx, inputs_from_tx_ins, outputs_from_tx_outs,
  outputs_from_utxo, rewards_owner_address,
}
use flare_p_chain_indexer.Indexer.InOut as InOut
use flare_p_chain_indexer.Indexer.InOut.{InputOutputIndexer, add_entities, add_new_from_base_tx}

-- `indexer.Container`
pub record Container : Type 0 where
  pub id : String
  pub bytes : List ℕ
  pub timestamp : ℤ

-- `txs.PermissionlessStaker` with the fields that the two staking transactions have in common
pub record Staker : Type 0 where
  pub node_id : String
  pub start_time : Time
  pub end_time : Time
  pub weight : ℕ
  pub outputs : List OutputState
  pub stake : List OutputState
  pub ins : List TransferableInput
  pub rewards_owner : Owner

-- The types of transactions that the code tells apart.
pub data UnsignedTx : Type 0 where
  reward_validator : String → UnsignedTx
  add_validator : Staker → ℕ → UnsignedTx
  add_delegator : Staker → UnsignedTx
  import_from export_to : String → BaseTx → UnsignedTx
  advance_time : ℕ → UnsignedTx
  add_subnet_validator create_chain create_subnet : BaseTx → UnsignedTx
  other_tx : UnsignedTx

pub record Tx : Type 0 where
  pub id : String
  pub unsigned : UnsignedTx

-- The types of blocks that the code tells apart, with their height.
pub data Block : Type 0 where
  apricot_proposal : ℕ → Tx → Block
  apricot_commit apricot_abort : ℕ → Block
  apricot_standard : ℕ → List Tx → Block
  other_block : Block

-- What is not modelled: the codecs of avalanchego, the node, and the table of outputs.
pub record PChainApi : Type 0 where
  -- block.Parse, and blocks.Parse of the inner block
  pub parse_block : List ℕ → Run (List ℕ)
  pub parse_inner_block : List ℕ → Run Block
  -- CallPChainGetTxApi and CallPChainGetRewardUTXOsApi
  pub get_tx : String → Run (Option Tx)
  pub get_reward_utxos : String → Run (List Utxo)
  -- `Outputs()` of a transaction
  pub outputs_of : UnsignedTx → List OutputState
  -- FormatAddressBytes
  pub format_address : List ℕ → Run String
  -- FetchPChainTxOutputs
  pub fetch_tx_outputs : List String → Run (List PChainTxOutput)

-- `txBatchIndexer`
pub record TxBatchIndexer : Type 0 where
  pub in_out_indexer : InputOutputIndexer PChainTxOutput
  pub new_txs : List PChainTx

abbrev Job : Type 0 → Type 0
Job = Exec TxBatchIndexer

-- CreateOutput
unfoldable pub create_output : PChainOutputType → TxOutput → PChainTxOutput
create_output out_type out = record { out = out; out_type = out_type }

unfoldable pub timestamp_to_time : ℤ → Time
timestamp_to_time timestamp =
    if ltb_ℤ timestamp (pos 253_370_764_800) then of_unix timestamp else timestamp

unfoldable pub reset : TxBatchIndexer → TxBatchIndexer
reset xi = record { in_out_indexer = InOut.reset xi.in_out_indexer; new_txs = [] }

-- the row that addTx and addEmptyTx begin with
unfoldable pub new_row : Container → PChainBlockType → ℕ → Option String → PChainTx
unfolding timestamp_to_time
new_row container block_type height tx_id = record {
  tx_type = unknown_tx;
  tx_id = tx_id;
  block_id = container.id;
  block_type = block_type;
  reward_tx_id = "";
  block_height = height;
  timestamp = timestamp_to_time container.timestamp;
  chain_id = "";
  node_id = "";
  start_time = none;
  end_time = none;
  time = none;
  weight = 0;
  rewards_owner = "";
  bytes = container.bytes;
  fee_percentage = 0;
}

-- `append(xi.newTxs, dbTx)`
unfoldable pub append_tx : PChainTx → Job (Unit {0})
append_tx db_tx xi = (ok tt, record xi { new_txs = xi.new_txs ++ db_tx ∷ [] })

unfoldable pub add_in_out : List PChainTxOutput → List TxInput → Job (Unit {0})
add_in_out outs ins xi =
    (ok tt, record xi { in_out_indexer = add_entities outs ins xi.in_out_indexer })

unfoldable pub add_empty_tx : Container → PChainBlockType → ℕ → Job (Unit {0})
unfolding new_row append_tx
add_empty_tx container block_type height = append_tx (new_row container block_type height none)

module _ (api : PChainApi) where
  open api use {format_address}

  unfoldable pub get_reward_outputs : String → Run (List PChainTxOutput)
  unfolding create_output
  get_reward_outputs tx_id = do
    utxos ← api.get_reward_utxos tx_id
    outputs_from_utxo format_address (create_output reward_output) tx_id utxos

  unfoldable pub get_add_staker_tx_outputs : String → Staker → Run (List PChainTxOutput)
  unfolding create_output
  get_add_staker_tx_outputs tx_id tx = do
    outs ← outputs_from_tx_outs format_address (create_output default_output) tx_id tx.outputs 0
    stake_outs ←
        outputs_from_tx_outs format_address (create_output stake_output) tx_id tx.stake
          (length outs)
    ok (outs ++ stake_outs)

  -- AddNewFromBaseTx on the batch
  unfoldable pub add_base_tx : String → BaseTx → Job (Unit {0})
  unfolding create_output
  add_base_tx tx_id tx xi =
      let (r, iox) =
        add_new_from_base_tx format_address (create_output default_output) tx_id tx
          xi.in_out_indexer in
      (r, record xi { in_out_indexer = iox })

  unfoldable pub update_reward_validator_tx : PChainTx → String → Job (Unit {0})
  unfolding get_reward_outputs append_tx add_in_out
  update_reward_validator_tx db_tx reward_tx_id =
      and_then (lift (get_reward_outputs reward_tx_id)) λ outs.
        add_in_out outs []
        >> append_tx (record db_tx { tx_type = reward_validator_tx; reward_tx_id = reward_tx_id })

  unfoldable pub update_add_staker_tx : PChainTx → String → Staker → Job (Unit {0})
  unfolding get_add_staker_tx_outputs append_tx add_in_out
  update_add_staker_tx db_tx tx_id tx =
      and_then (lift (rewards_owner_address format_address tx.rewards_owner)) λ owner_address.
        and_then (lift (get_add_staker_tx_outputs tx_id tx)) λ outs.
          append_tx (record db_tx {
            node_id = tx.node_id;
            start_time = some tx.start_time;
            end_time = some tx.end_time;
            weight = tx.weight;
            rewards_owner = owner_address;
          })
          >> add_in_out outs (inputs_from_tx_ins tx_id tx.ins)

  -- updateImportTx and updateExportTx, with their type
  unfoldable pub update_transfer_tx :
      PChainTxType → PChainTx → String → String → BaseTx → Job (Unit {0})
  unfolding append_tx add_base_tx
  update_transfer_tx tx_type db_tx tx_id chain_id tx =
      append_tx (record db_tx { tx_type = tx_type; chain_id = chain_id }) >> add_base_tx tx_id tx

  unfoldable pub update_advance_time_tx : PChainTx → ℕ → Job (Unit {0})
  unfolding append_tx
  update_advance_time_tx db_tx time =
      append_tx (record db_tx { tx_type = advance_time_tx; time = some (of_unix (of_uint64 time)) })

  unfoldable pub update_general_base_tx : PChainTx → PChainTxType → String → BaseTx → Job (Unit {0})
  unfolding append_tx add_base_tx
  update_general_base_tx db_tx tx_type tx_id tx =
      append_tx (record db_tx { tx_type = tx_type }) >> add_base_tx tx_id tx

  -- the type switch of addTx
  unfoldable pub add_unsigned_tx : PChainTx → String → UnsignedTx → Job (Unit {0})
  unfolding update_reward_validator_tx update_add_staker_tx update_transfer_tx
      update_advance_time_tx update_general_base_tx
  add_unsigned_tx db_tx id (reward_validator reward_tx_id) =
      update_reward_validator_tx db_tx reward_tx_id
  add_unsigned_tx db_tx id (add_validator tx shares) =
      update_add_staker_tx (record db_tx { tx_type = add_validator_tx; fee_percentage = shares }) id
        tx
  add_unsigned_tx db_tx id (add_delegator tx) =
      update_add_staker_tx (record db_tx { tx_type = add_delegator_tx }) id tx
  add_unsigned_tx db_tx id (import_from chain_id tx) =
      update_transfer_tx import_tx db_tx id chain_id tx
  add_unsigned_tx db_tx id (export_to chain_id tx) =
      update_transfer_tx export_tx db_tx id chain_id tx
  add_unsigned_tx db_tx id (advance_time time) = update_advance_time_tx db_tx time
  add_unsigned_tx db_tx id (add_subnet_validator tx) =
      update_general_base_tx db_tx add_subnet_validator_tx id tx
  add_unsigned_tx db_tx id (create_chain tx) = update_general_base_tx db_tx create_chain_tx id tx
  add_unsigned_tx db_tx id (create_subnet tx) = update_general_base_tx db_tx create_subnet_tx id tx
  add_unsigned_tx db_tx id other_tx = fail (errorf "p-chain transaction is not indexed")

  unfoldable pub add_tx : Container → PChainBlockType → ℕ → Tx → Job (Unit {0})
  unfolding new_row add_unsigned_tx
  add_tx container block_type height tx =
      add_unsigned_tx (new_row container block_type height (some tx.id)) tx.id tx.unsigned

  -- the loop of AddContainer over a standard block
  unfoldable pub add_txs : Container → ℕ → List Tx → Job (Unit {0})
  unfolding add_tx
  add_txs container height [] = pure tt
  add_txs container height (tx ∷ txs) =
      add_tx container standard_block height tx >> add_txs container height txs

  -- the type switch of AddContainer
  unfoldable pub add_block : Container → Block → Job (Unit {0})
  unfolding add_txs add_empty_tx
  add_block container (apricot_proposal height tx) = add_tx container proposal_block height tx
  add_block container (apricot_commit height) = add_empty_tx container commit_block height
  add_block container (apricot_abort height) = add_empty_tx container abort_block height
  add_block container (apricot_standard height txs) = add_txs container height txs
  add_block container other_block = fail (errorf "block has unexpected type")

  unfoldable pub add_container : ℕ → Container → Job (Unit {0})
  unfolding add_block
  add_container index container =
      and_then (lift (api.parse_block container.bytes)) λ blk.
        and_then (lift (api.parse_inner_block blk)) λ inner_blk. add_block container inner_blk
