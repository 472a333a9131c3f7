-- ===== src/Indexer/PChain/Updater.antt =====
-- indexer/pchain/in_updater.go and the steps of a batch of indexer/pchain/batch_indexer.go: the
-- P-chain as a chain of IndexBatch.
use Prim.Native.String.{String}
use flare_p_chain_indexer.Prelude.{Option, none, some, List, [], ◌∷◌, ◌++◌, map, Run, ok, ◌>>=◌}
use flare_p_chain_indexer.Exec.{Exec}
use flare_p_chain_indexer.Database.{PChainTx, default_output, TxOutput, PChainTxOutput}
use flare_p_chain_indexer.Database.PChain.{PChainTables, create_p_chain_entities}
use flare_p_chain_indexer.Indexer.{IdIndexKey}
use flare_p_chain_indexer.Indexer.Batch.{ContainerBatchIndexer, ChainIndexerBase}
use flare_p_chain_indexer.Indexer.Outputs.{outputs_from_tx_outs}
use flare_p_chain_indexer.Indexer.InOut as InOut
use flare_p_chain_indexer.Indexer.InOut.{Updater, out_key, update_inputs_with}
use flare_p_chain_indexer.Indexer.PChain.{
  PChainApi, Staker, UnsignedTx, add_validator, add_delegator, Tx, TxBatchIndexer, Container,
  create_output, get_add_staker_tx_outputs, get_reward_outputs, reset, add_container,
}

abbrev pub base_of : PChainTxOutput → TxOutput
base_of o = o.out

-- `fetchedOuts.Add` of the outputs of a transaction
abbrev pub entries_of : List PChainTxOutput → List (IdIndexKey × Option TxOutput)
entries_of [] = []
entries_of (o ∷ outs) = (out_key o.out, some o.out) ∷ entries_of outs

module _ (api : PChainApi) where
  open api use {format_address}

  unfoldable pub get_add_staker_tx_and_reward_tx_outputs :
      String → Staker → Run (List PChainTxOutput)
  get_add_staker_tx_and_reward_tx_outputs tx_id tx = do
    outs ← get_add_staker_tx_outputs api tx_id tx
    reward_outs ← get_reward_outputs api tx_id
    ok (outs ++ reward_outs)

  -- the type switch of updateFromChain
  unfoldable pub unsigned_outputs : String → UnsignedTx → Run (List PChainTxOutput)
  unfolding get_add_staker_tx_and_reward_tx_outputs
  unsigned_outputs tx_id (add_validator tx shares) =
      get_add_staker_tx_and_reward_tx_outputs tx_id tx
  unsigned_outputs tx_id (add_delegator tx) = get_add_staker_tx_and_reward_tx_outputs tx_id tx
  unsigned_outputs tx_id tx =
      outputs_from_tx_outs format_address (create_output default_output) tx_id (api.outputs_of tx) 0

  unfoldable pub found_outputs : String → Option Tx → Run (List (IdIndexKey × Option TxOutput))
  unfolding unsigned_outputs
  found_outputs tx_id none = ok ((record { id = tx_id; index = 0 }, none) ∷ [])
  found_outputs tx_id (some tx) = do outs ← unsigned_outputs tx_id tx.unsigned; ok (entries_of outs)

  -- what one round of updateFromChain adds to the map
  unfoldable pub chain_round : String → Run (List (IdIndexKey × Option TxOutput))
  unfolding found_outputs
  chain_round tx_id = do tx ← api.get_tx tx_id; found_outputs tx_id tx

  unfoldable pub fetch_base_outputs : List String → Run (List TxOutput)
  fetch_base_outputs ids = do outs ← api.fetch_tx_outputs ids; ok (map base_of outs)

  unfoldable pub update_inputs : Updater
  unfolding update_inputs_with fetch_base_outputs chain_round
  update_inputs = update_inputs_with fetch_base_outputs chain_round

  unfoldable pub process_batch : Exec TxBatchIndexer (Unit {0})
  unfolding update_inputs
  process_batch xi =
      let (r, iox) = InOut.process_batch base_of update_inputs xi.in_out_indexer in
      (r, record xi { in_out_indexer = iox })

  -- `TransformPChainTxs`, if there is a transformer
  unfoldable pub transformed : Option (PChainTx → PChainTx) → List PChainTx → List PChainTx
  transformed none txs = txs
  transformed (some f) txs = map f txs

  unfoldable pub persist_entities :
      Option (PChainTx → PChainTx) → TxBatchIndexer → PChainTables → Run PChainTables
  unfolding transformed
  persist_entities transformer xi t =
      create_p_chain_entities t (transformed transformer xi.new_txs) xi.in_out_indexer.ins
        xi.in_out_indexer.outs

  -- `txBatchIndexer` as a `ContainerBatchIndexer`
  unfoldable pub p_chain_batch_indexer :
      Option (PChainTx → PChainTx) → ContainerBatchIndexer Container TxBatchIndexer PChainTables
  unfolding process_batch persist_entities
  p_chain_batch_indexer transformer = record {
    reset = λ n. reset;
    add_container = add_container api;
    process_batch = process_batch;
    persist_entities = persist_entities transformer;
  }

  -- CreatePChainBlockIndexer, with the rest of the indexer as given
  unfoldable pub create_p_chain_block_indexer :
      ChainIndexerBase Container TxBatchIndexer PChainTables
      → ChainIndexerBase Container TxBatchIndexer PChainTables
  unfolding p_chain_batch_indexer
  create_p_chain_block_indexer idxr = record idxr {
    state_name = "p_chain_block";
    batch_indexer = p_chain_batch_indexer none;
  }
