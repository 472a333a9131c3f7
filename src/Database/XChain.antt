-- ===== src/Database/XChain.antt =====
-- database/xchain_entities.go and xchain_queries.go: the tables of the X-chain as lists of rows.
use Prim.Native.String.{String}
use flare_p_chain_indexer.Prelude.{
  rows_where, ℕ, Option, none, some, List, Run, ok, err, Error, ◌>>=◌,
}
use flare_p_chain_indexer.Prelude.Time.{Time}
use flare_p_chain_indexer.Prelude.Maps.{contains, string_eq}
use flare_p_chain_indexer.Database.{TxInput, TxOutput}
use flare_p_chain_indexer.Database.PChain.{create_rows}

pub data XChainTxType : Type 0 where
  base_tx import_tx : XChainTxType

pub record XChainTx : Type 0 where
  pub tx_type : XChainTxType
  pub tx_id : String
  pub vtx_height : ℕ
  pub memo : String
  pub bytes : List ℕ

pub record XChainVtx : Type 0 where
  pub vtx_id : String
  pub parent_id : String
  pub vtx_index : ℕ
  pub height : ℕ
  pub timestamp : Time

-- the tables, and the error with which the database answers, if it does
pub record XChainTables : Type 0 where
  pub vertices : List XChainVtx
  pub txs : List XChainTx
  pub ins : List TxInput
  pub outs : List TxOutput
  pub error : Option Error

unfoldable pub fetch_x_chain_tx_outputs : XChainTables → List String → Run (List TxOutput)
fetch_x_chain_tx_outputs t ids = elim t.error [
  | some e ↦ err e
  | none ↦ ok (rows_where (λ (o : TxOutput). contains ids o.tx_id) t.outs)
]

unfoldable pub create_x_chain_entities :
    XChainTables → List XChainVtx → List XChainTx → List TxInput → List TxOutput → Run XChainTables
unfolding create_rows
create_x_chain_entities t vertices txs ins outs = do
  vertices' ← create_rows t.error t.vertices vertices
  txs' ← create_rows t.error t.txs txs
  ins' ← create_rows t.error t.ins ins
  outs' ← create_rows t.error t.outs outs
  ok (record t { vertices = vertices'; txs = txs'; ins = ins'; outs = outs' })
