-- ===== src/Indexer/XChain.antt =====
-- indexer/xchain/batch_indexer.go and in_updater.go: the vertices of the X-chain become rows. The
-- types of avalanchego show what the code reads of them; parsing, the node and the database are
-- parameters.
pub mod Vertices
use Prim.Native.String.{String}
use flare_p_chain_indexer.Prelude.{
  ℕ, Bool, true, false, Option, none, some, List, [], ◌∷◌, ◌++◌, Run, ok, err, panic, errorf, ◌>>=◌,
}
use flare_p_chain_indexer.Prelude.Int.{ℤ}
use flare_p_chain_indexer.Prelude.Time.{Time}
use flare_p_chain_indexer.Exec.{Exec, pure, fail, lift, ◌>>=◌ as and_then, ◌>>◌}
use flare_p_chain_indexer.Database.{TxOutput}
use flare_p_chain_indexer.Database.XChain.{
  XChainTxType, base_tx, import_tx, XChainTx, XChainVtx, XChainTables, create_x_chain_entities,
}
use flare_p_chain_indexer.Indexer.{IdIndexKey}
use flare_p_chain_indexer.Indexer.Batch.{ContainerBatchIndexer}
use flare_p_chain_indexer.Indexer.Outputs.{BaseTx, outputs_from_tx_outs}
use flare_p_chain_indexer.Indexer.InOut as InOut
use flare_p_chain_indexer.Indexer.InOut.{
  Updater, InputOutputIndexer, add_new_from_base_tx, out_key, update_inputs_with,
}

-- `indexer.Container`
pub record Container : Type 0 where
  pub id : String
  pub bytes : List ℕ
  pub timestamp : ℤ

pub record Vertex : Type 0 where
  pub id : String
  pub parent_ids : List String
  pub height : ℕ
  pub txs : List (List ℕ)

-- The types of transactions that the code tells apart: *txs.BaseTx and *txs.ImportTx, with the
-- memo, and others.
pub data UnsignedTx : Type 0 where
  base import_from : String → BaseTx → UnsignedTx
  other_tx : UnsignedTx

pub record Tx : Type 0 where
  pub id : String
  pub unsigned : UnsignedTx

-- What is not modelled: the codecs of avalanchego, the node, and the table of outputs.
pub record XChainApi : Type 0 where
  pub parse_vertex : List ℕ → Run Vertex
  pub parse_genesis_tx : List ℕ → Run Tx
  -- FetchContainerFromIndexer
  pub fetch_container : String → Run (Option Container)
  pub format_address : List ℕ → Run String
  -- FetchXChainTxOutputs
  pub fetch_tx_outputs : List String → Run (List TxOutput)

-- `txBatchIndexer`
pub record TxBatchIndexer : Type 0 where
  pub in_out_indexer : InputOutputIndexer TxOutput
  pub new_txs : List XChainTx
  pub new_vertices : List XChainVtx

abbrev Job : Type 0 → Type 0
Job = Exec TxBatchIndexer

-- CreateOutput
abbrev pub create_output : TxOutput → TxOutput
create_output out = out

unfoldable pub reset : TxBatchIndexer → TxBatchIndexer
reset xi = record {
  in_out_indexer = InOut.reset xi.in_out_indexer;
  new_txs = [];
  new_vertices = [];
}

-- `append(xi.newVertices, ...)`
unfoldable pub append_vertex : XChainVtx → Job (Unit {0})
append_vertex vtx xi = (ok tt, record xi { new_vertices = xi.new_vertices ++ vtx ∷ [] })

-- `vtx.ParentIDs()[0]`
unfoldable pub first_parent : List String → Run String
first_parent [] = panic
first_parent (id ∷ ids) = ok id

-- the test of AddContainer on the number of parents
unfoldable pub check_parents : List String → Run (Unit {0})
check_parents [] = ok tt
check_parents (id ∷ []) = ok tt
check_parents (id ∷ other ∷ ids) = err (errorf "only one vertex parent is expected")

abbrev entries_of : List TxOutput → List (IdIndexKey × Option TxOutput)
entries_of [] = []
entries_of (o ∷ outs) = (out_key o, some o) ∷ entries_of outs

-- the row of the vertex, with its first parent
unfoldable pub append_vertex_row : ℕ → Container → Vertex → Job (Unit {0})
unfolding append_vertex first_parent
append_vertex_row index container vtx = and_then (lift (first_parent vtx.parent_ids)) λ parent_id.
    append_vertex (record {
      vtx_id = vtx.id;
      parent_id = parent_id;
      vtx_index = index;
      height = vtx.height;
      timestamp = container.timestamp;
    })

module _ (api : XChainApi) where
  open api use {format_address}

  unfoldable pub add_base_tx : String → ℕ → String → BaseTx → XChainTxType → List ℕ → Job (Unit {0})
  add_base_tx tx_id vtx_height memo tx tx_type bytes xi =
      let row : XChainTx = record {
        tx_type = tx_type;
        tx_id = tx_id;
        vtx_height = vtx_height;
        memo = memo;
        bytes = bytes;
      } in
      let (r, iox) = add_new_from_base_tx format_address create_output tx_id tx xi.in_out_indexer in
      (r, record xi { in_out_indexer = iox; new_txs = xi.new_txs ++ row ∷ [] })

  -- the type switch of addTransaction; a transaction of another type is only logged
  unfoldable pub add_unsigned_tx : String → ℕ → UnsignedTx → List ℕ → Job (Unit {0})
  unfolding add_base_tx
  add_unsigned_tx id vtx_height (base memo tx) bytes =
      add_base_tx id vtx_height memo tx base_tx bytes
  add_unsigned_tx id vtx_height (import_from memo tx) bytes =
      add_base_tx id vtx_height memo tx import_tx bytes
  add_unsigned_tx id vtx_height other_tx bytes = pure tt

  unfoldable pub add_transaction : ℕ → List ℕ → Job (Unit {0})
  unfolding add_unsigned_tx
  add_transaction vtx_height tx_bytes =
      and_then (lift (api.parse_genesis_tx tx_bytes))
        λ tx. add_unsigned_tx tx.id vtx_height tx.unsigned tx_bytes

  unfoldable pub add_transactions : ℕ → List (List ℕ) → Job (Unit {0})
  unfolding add_transaction
  add_transactions vtx_height [] = pure tt
  add_transactions vtx_height (tx_bytes ∷ txs) =
      add_transaction vtx_height tx_bytes >> add_transactions vtx_height txs

  unfoldable pub add_vertex : ℕ → Container → Vertex → Job (Unit {0})
  unfolding check_parents add_transactions append_vertex_row
  add_vertex index container vtx =
      lift (check_parents vtx.parent_ids)
      >> (add_transactions vtx.height vtx.txs >> append_vertex_row index container vtx)

  unfoldable pub add_container : ℕ → Container → Job (Unit {0})
  unfolding add_vertex
  add_container index container =
      and_then (lift (api.parse_vertex container.bytes)) (add_vertex index container)

  -- the type switch of updateFromChain
  unfoldable pub unsigned_outputs : String → UnsignedTx → Run (List TxOutput)
  unsigned_outputs tx_id (base memo tx) =
      outputs_from_tx_outs format_address create_output tx_id tx.outs 0
  unsigned_outputs tx_id (import_from memo tx) =
      outputs_from_tx_outs format_address create_output tx_id tx.outs 0
  unsigned_outputs tx_id other_tx = err (errorf "transaction has unsupported type")

  unfoldable pub found_outputs :
      String → Option Container → Run (List (IdIndexKey × Option TxOutput))
  unfolding unsigned_outputs
  found_outputs tx_id none = ok []
  found_outputs tx_id (some container) = do
    tx ← api.parse_genesis_tx container.bytes
    outs ← unsigned_outputs tx_id tx.unsigned
    ok (entries_of outs)

  -- what one round of updateFromChain adds to the map
  unfoldable pub chain_round : String → Run (List (IdIndexKey × Option TxOutput))
  unfolding found_outputs
  chain_round tx_id = do container ← api.fetch_container tx_id; found_outputs tx_id container

  unfoldable pub update_inputs : Updater
  unfolding update_inputs_with chain_round
  update_inputs = update_inputs_with api.fetch_tx_outputs chain_round

  unfoldable pub process_batch : Exec TxBatchIndexer (Unit {0})
  unfolding update_inputs
  process_batch xi =
      let (r, iox) = InOut.process_batch create_output update_inputs xi.in_out_indexer in
      (r, record xi { in_out_indexer = iox })

  unfoldable pub persist_entities : TxBatchIndexer → XChainTables → Run XChainTables
  persist_entities xi t =
      create_x_chain_entities t xi.new_vertices xi.new_txs xi.in_out_indexer.ins
        xi.in_out_indexer.outs

  -- `txBatchIndexer` as a `ContainerBatchIndexer`
  unfoldable pub x_chain_batch_indexer : ContainerBatchIndexer Container TxBatchIndexer XChainTables
  unfolding process_batch persist_entities add_container
  x_chain_batch_indexer = record {
    reset = λ n. reset;
    add_container = add_container;
    process_batch = process_batch;
    persist_entities = persist_entities;
  }
