-- ===== src/Indexer/PChain/Stored.antt =====
-- IndexBatch of indexer/shared/indexer.go with the P-chain as its chain: what a run stores.
use mathlib.Core.List.{append-nil}
use flare_p_chain_indexer.Prelude.{
  ℕ, ◌<◌, ◌≤◌, ◌≡◌, sym, ◌∙◌, Option, Option-cases, inl, inr, List, [], ◌∷◌, ◌++◌, ok, ok-inj,
  >>=-eq-ok, err-ne-ok, Error,
}
use flare_p_chain_indexer.Database.{State, TxInput, PChainTx}
use flare_p_chain_indexer.Database.PChain.{PChainTables, create_rows, create_p_chain_entities}
use flare_p_chain_indexer.Indexer.Batch.{ChainIndexerBase, World, fetch_state, next_of}
use flare_p_chain_indexer.Indexer.InOut.{OutputMap}
use flare_p_chain_indexer.Indexer.InOut.Resolved.{Resolved}
use flare_p_chain_indexer.Indexer.PChain.{Container, Block, PChainApi, TxBatchIndexer}
use flare_p_chain_indexer.Indexer.PChain.Blocks.{AreRows, txs_of, type_of_block, height_of}
use flare_p_chain_indexer.Indexer.PChain.Updater.{
  fetch_base_outputs, chain_round, create_p_chain_block_indexer,
}

-- The containers are blocks, and the rows are those of their transactions, in order.
abbrev pub AreBlocks : PChainApi → List Container → List PChainTx → Type 0
AreBlocks api [] rows = rows ≡ []
AreBlocks api (container ∷ containers) rows =
    (inner : List ℕ) × (blk : Block) × (own : List PChainTx) × (rest : List PChainTx)
    × ((api.parse_block container.bytes ≡ ok inner)
        × ((api.parse_inner_block inner ≡ ok blk)
            × ((AreRows api container (type_of_block blk) (height_of blk) (txs_of blk) own)
                × ((rows ≡ own ++ rest) × AreBlocks api containers rest))))

create_rows-appends :
    {A : Type 0} (error : Option Error) (rows new : List A) {stored : List A}
    → create_rows error rows new ≡ ok stored
    → stored ≡ rows ++ new
unfolding create_rows
create_rows-appends error rows [] e = sym (ok-inj e) ∙ sym (append-nil rows)
create_rows-appends error rows (a ∷ new) e = elim (Option-cases error) [
  | inl none_ ↦ sym (ok-inj (rw none_ at e))
  | inr (x, failed) ↦ absurd (err-ne-ok (rw failed at e))
]

-- What CreatePChainEntities stores.
pub create_p_chain_entities-stores :
    (t : PChainTables) (xi : TxBatchIndexer) (txs : List PChainTx) {t' : PChainTables}
    → create_p_chain_entities t txs xi.in_out_indexer.ins xi.in_out_indexer.outs ≡ ok t'
    → (t'.txs ≡ t.txs ++ txs)
      × ((t'.ins ≡ t.ins ++ xi.in_out_indexer.ins) × (t'.outs ≡ t.outs ++ xi.in_out_indexer.outs))
unfolding create_p_chain_entities
create_p_chain_entities-stores t xi txs e =
    let (txs', a, run_i) = >>=-eq-ok (create_rows t.error t.txs txs) _ e in
    let (ins', b, run_o) = >>=-eq-ok (create_rows t.error t.ins xi.in_out_indexer.ins) _ run_i in
    let (outs', c, same) = >>=-eq-ok (create_rows t.error t.outs xi.in_out_indexer.outs) _ run_o in
    rw (sym (ok-inj same)) (
      create_rows-appends t.error t.txs txs a,
      (
        create_rows-appends t.error t.ins xi.in_out_indexer.ins b,
        create_rows-appends t.error t.outs xi.in_out_indexer.outs c,
      ),
    )

module _ (api : PChainApi) (base : ChainIndexerBase Container TxBatchIndexer PChainTables) where
  abbrev ci : ChainIndexerBase Container TxBatchIndexer PChainTables
  ci = create_p_chain_block_indexer api base

  -- what ProcessContainers leaves in the batch
  record Processed (containers : List Container) (xi : TxBatchIndexer) : Type 0 where
    blocks : AreBlocks api containers xi.new_txs
    cached : OutputMap
    ins : List TxInput
    resolved : Resolved (fetch_base_outputs api) (chain_round api) cached ins xi.in_out_indexer.ins

  -- What a run stores: the rows of the blocks that it fetched, and their inputs, with addresses from
  -- the sources of `Resolved`.
  pub record StoresBlocks (s : State) (w w' : World TxBatchIndexer PChainTables) : Type 0 where
    pub containers : List Container
    pub fetched : base.container_range w (next_of ci s) base.batch_size ≡ ok containers
    pub rows : List PChainTx
    pub blocks : AreBlocks api containers rows
    pub txs : w'.db.txs ≡ w.db.txs ++ rows
    pub cached : OutputMap
    pub ins : List TxInput
    pub with_addresses : List TxInput
    pub resolved : Resolved (fetch_base_outputs api) (chain_round api) cached ins with_addresses
    pub ins_stored : w'.db.ins ≡ w.db.ins ++ with_addresses

  -- what a run does to the tables of the P-chain
  pub record RanBlocks (w w' : World TxBatchIndexer PChainTables) : Type 0 where
    pub current_state : State
    pub last_index : ℕ
    pub read : (fetch_state ci w).0 ≡ ok current_state
    pub asked : base.last_accepted w ≡ ok last_index
    pub indexed : next_of ci current_state ≤ last_index → StoresBlocks current_state w w'
    pub idle : last_index < next_of ci current_state → w'.db ≡ w.db
