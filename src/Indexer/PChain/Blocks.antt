-- ===== src/Indexer/PChain/Blocks.antt =====
-- The rows of the transactions of a block: AddContainer of indexer/pchain/batch_indexer.go.
use flare_p_chain_indexer.Prelude.{ℕ, ◌≡◌, Option, none, some, List, [], ◌∷◌, ◌++◌, map}
use flare_p_chain_indexer.Database.{
  PChainTx, PChainBlockType, proposal_block, commit_block, abort_block, standard_block,
}
use flare_p_chain_indexer.Indexer.PChain.{
  Container, Tx, Block, apricot_proposal, apricot_commit, apricot_abort, apricot_standard,
  other_block, PChainApi, TxBatchIndexer, new_row,
}
use flare_p_chain_indexer.Indexer.PChain.TxRows.{IsTxRow}

-- the transactions of a block, `none` for a block without a transaction
abbrev pub txs_of : Block → List (Option Tx)
txs_of (apricot_proposal height tx) = some tx ∷ []
txs_of (apricot_commit height) = none ∷ []
txs_of (apricot_abort height) = none ∷ []
txs_of (apricot_standard height txs) = map some txs
txs_of other_block = []

abbrev pub type_of_block : Block → PChainBlockType
type_of_block (apricot_proposal height tx) = proposal_block
type_of_block (apricot_commit height) = commit_block
type_of_block (apricot_abort height) = abort_block
type_of_block (apricot_standard height txs) = standard_block
type_of_block other_block = standard_block

abbrev pub height_of : Block → ℕ
height_of (apricot_proposal height tx) = height
height_of (apricot_commit height) = height
height_of (apricot_abort height) = height
height_of (apricot_standard height txs) = height
height_of other_block = 0

module _ (api : PChainApi) (container : Container) (block_type : PChainBlockType) (height : ℕ) where
  -- The row of a transaction of the block, or of a block without one.
  abbrev pub IsRow : Option Tx → PChainTx → Type 0
  IsRow none row = row ≡ new_row container block_type height none
  IsRow (some tx) row =
      IsTxRow api (new_row container block_type height (some tx.id)) tx.unsigned row

  -- one row for each transaction, in order
  abbrev pub AreRows : List (Option Tx) → List PChainTx → Type 0
  AreRows [] [] = Unit
  AreRows (tx ∷ txs) (row ∷ rows) = IsRow tx row × AreRows txs rows
  AreRows _ _ = ⊥

-- What AddContainer has done for a block.
pub record Added (api : PChainApi) (container : Container) (blk : Block) (xi xi' : TxBatchIndexer)
    : Type 0 where
  pub rows : List PChainTx
  pub appended : xi'.new_txs ≡ xi.new_txs ++ rows
  pub each : AreRows api container (type_of_block blk) (height_of blk) (txs_of blk) rows
