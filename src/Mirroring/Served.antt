-- ===== src/Mirroring/Served.antt =====
-- What createMirroringData of services/routes/mirroring.go serves.
use mathlib.Core.List.{mem-cons_self, mem-cons_of_mem}
use flare_p_chain_indexer.Prelude.{
  ℕ, ◌≡◌, ◌≢◌, sym, ap, ◌∙◌, true, inl, inr, Bool-cases, some, List, [], ◌∷◌, map, Mem, ◌==◌,
  ==_iff, ok, ok-inj, panic, err-ne-ok, or_else, >>=-eq-ok, or_else-eq-ok,
}
use flare_p_chain_indexer.Prelude.Int.{ℤ}
use flare_p_chain_indexer.Prelude.Time.{Time}
use flare_p_chain_indexer.Database.{PChainTx, PChainTxData}
use flare_p_chain_indexer.Database.PChain.{PChainTables, fetch_p_chain_voting_data}
use flare_p_chain_indexer.Database.PChain.Blocks.{
  fetch_p_chain_voting_data-get_p_chain_txs_for_epoch,
}
use flare_p_chain_indexer.Merkle.{Tree, verify_proof}
use flare_p_chain_indexer.Staking.{
  StakeData, dedupe_txs, to_stake_data, hash_transaction, build_tree, get_merkle_root,
  get_merkle_proof,
}
use flare_p_chain_indexer.Staking.Epochs.{get_epoch_index, get_time_range}
use flare_p_chain_indexer.Staking.Proofs.{build_tree-IsMirrored}
use flare_p_chain_indexer.Mirroring.{
  mirror_db_gorm, MirroringHandlers, MirroringResponse, encoded_data, respond, mirroring_loop,
  some_data, create_mirroring_data,
}

module _ (rh : MirroringHandlers) where
  open rh use {staking, hashes, Hash, db, epochs, row_id, encode, pack_mirror_stake}

  -- The response has the data of a row that stands for the transaction, the call of `mirrorStake` for
  -- it, and a proof that verifies against the Merkle root of all the rows.
  pub record IsServed (txs : List PChainTxData) (tx : PChainTx) (response : MirroringResponse)
      : Type 0 where
    pub row : PChainTxData
    pub kept : Mem row txs
    pub same_row : row_id row.tx ≡ row_id tx
    pub stake_data : StakeData
    pub staked : to_stake_data staking row ≡ ok stake_data
    pub leaf : Hash
    pub hashed : hash_transaction staking row ≡ ok leaf
    pub root : Hash
    pub rooted : get_merkle_root staking txs ≡ ok root
    pub proof : List Hash
    pub verified : verify_proof hashes leaf proof root ≡ true
    pub input : List ℕ
    pub packed : pack_mirror_stake stake_data proof ≡ ok input
    pub is : response ≡ record {
      stake_data = encoded_data rh stake_data;
      merkle_proof = map (λ p. encode (hashes.bytes p)) proof;
      tx_input = encode input;
    }

  abbrev pub AreServed : List PChainTxData → PChainTx → List MirroringResponse → Type 0
  AreServed txs tx [] = Unit
  AreServed txs tx (response ∷ responses) = IsServed txs tx response × AreServed txs tx responses

  -- What is served for a transaction: its rows among those that the voting cronjob votes for.
  pub record Served (t : PChainTables) (tx : PChainTx) (responses : List MirroringResponse)
      : Type 0 where
    pub start_time : Time
    pub started : tx.start_time ≡ some start_time
    pub epoch : ℤ
    pub indexed : get_epoch_index epochs start_time ≡ ok epoch
    pub rows : List PChainTxData
    pub voted :
        fetch_p_chain_voting_data t (get_time_range epochs epoch).0 (get_time_range epochs epoch).1
        ≡ ok rows
    pub each : AreServed (dedupe_txs rows) tx responses
    pub found : responses ≢ []

  module _ (txs : List PChainTxData) (tree : Tree hashes) (built : build_tree staking txs ≡ ok tree)
      (tx : PChainTx) where
    respond-IsServed :
        (row : PChainTxData) (response : MirroringResponse)
        → Mem row txs
        → row_id row.tx ≡ row_id tx
        → respond rh tree row ≡ ok response
        → IsServed txs tx response
    unfolding respond
    respond-IsServed row response kept same_row run =
        let (stake_data, staked, run_p) = >>=-eq-ok (to_stake_data staking row) _ run in
        let (proof, proved, run_b) = >>=-eq-ok (get_merkle_proof staking tree row) _ run_p in
        let (input, packed, made) = >>=-eq-ok (pack_mirror_stake stake_data proof) _ run_b in
        let m = build_tree-IsMirrored staking txs row tree built kept in
        let same_tree : m.tree ≡ tree = ok-inj (sym m.built ∙ built) in
        let same_proof : m.proof ≡ proof =
          ok-inj (sym m.proved ∙ ap (λ t. get_merkle_proof staking t row) same_tree ∙ proved) in
        record {
          row = row;
          kept = kept;
          same_row = same_row;
          stake_data = stake_data;
          staked = staked;
          leaf = m.leaf;
          hashed = m.hashed;
          root = m.root;
          rooted = m.rooted;
          proof = proof;
          verified = ap (λ p. verify_proof hashes m.leaf p m.root) (sym same_proof) ∙ m.verified;
          input = input;
          packed = packed;
          is = sym (ok-inj made);
        }

    mirroring_loop-AreServed :
        (rows : List PChainTxData) (responses : List MirroringResponse)
        → ((row : PChainTxData) → Mem row rows → Mem row txs)
        → mirroring_loop rh tree tx rows ≡ ok responses
        → AreServed txs tx responses
    unfolding mirroring_loop
    mirroring_loop-AreServed [] responses kept run = rw (sym (ok-inj run)) tt
    mirroring_loop-AreServed (row ∷ rows) responses kept run =
        let kept' : (r : PChainTxData) → Mem r rows → Mem r txs =
          λ r inside. kept r (mem-cons_of_mem row inside) in
        elim (Bool-cases (row_id row.tx == row_id tx)) [
          | inr other ↦ mirroring_loop-AreServed rows responses kept' (rw other at run)
          | inl same ↦
              let (response, made, run_r) = >>=-eq-ok (respond rh tree row) _ (rw same at run) in
              let (others, rest, joined) = >>=-eq-ok (mirroring_loop rh tree tx rows) _ run_r in
              rw (sym (ok-inj joined)) (
                respond-IsServed row response (kept row mem-cons_self)
                    ((==_iff (row_id row.tx) (row_id tx)).0 same) made,
                mirroring_loop-AreServed rows others kept' rest,
              )
        ]

  some_data-eq-ok :
      (tx : PChainTx) (found responses : List MirroringResponse)
      → some_data rh tx found ≡ ok responses
      → (found ≡ responses) × (responses ≢ [])
  unfolding some_data
  some_data-eq-ok tx [] responses run =
      let (id, named, failed) = >>=-eq-ok (or_else tx.tx_id panic) _ run in
      absurd (err-ne-ok failed)
  some_data-eq-ok tx (response ∷ found) responses run =
      let same = ok-inj run in (same, rw (sym same) (λ e. cc))

  -- If createMirroringData succeeds on the tables, then it serves at least one response, each for a
  -- row of the transaction among the deduplicated rows that the voting cronjob fetches for the epoch
  -- of the stake's start, with the data of the stake, the call of mirrorStake for it, and a proof
  -- that verifies against the Merkle root of those rows.
  pub create_mirroring_data-Served :
      (t : PChainTables) (tx : PChainTx) (responses : List MirroringResponse)
      → db ≡ mirror_db_gorm t
      → create_mirroring_data rh tx ≡ ok responses
      → Served t tx responses
  unfolding create_mirroring_data
  create_mirroring_data-Served t tx responses on_tables run =
      let (start, started, run_e) = >>=-eq-ok (or_else tx.start_time panic) _ run in
      let (epoch, indexed, run_t) = >>=-eq-ok (get_epoch_index epochs start) _ run_e in
      let from = (get_time_range epochs epoch).0 in
      let to = (get_time_range epochs epoch).1 in
      let (rows, fetched, run_m) = >>=-eq-ok (db.epoch_txs from to) _ run_t in
      let (tree, built, run_l) = >>=-eq-ok (build_tree staking (dedupe_txs rows)) _ run_m in
      let (found, looped, run_s) =
        >>=-eq-ok (mirroring_loop rh tree tx (dedupe_txs rows)) _ run_l in
      let (same, some_found) = some_data-eq-ok tx found responses run_s in
      record {
        start_time = start;
        started = or_else-eq-ok tx.start_time started;
        epoch = epoch;
        indexed = indexed;
        rows = rows;
        voted =
            fetch_p_chain_voting_data-get_p_chain_txs_for_epoch t from to
            ∙ ap (λ d. d.epoch_txs from to) (sym on_tables)
            ∙ fetched;
        each =
            mirroring_loop-AreServed (dedupe_txs rows) tree built tx (dedupe_txs rows) responses
              (λ row inside. inside) (looped ∙ ap ok same);
        found = some_found;
      }
