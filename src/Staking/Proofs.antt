-- ===== src/Staking/Proofs.antt =====
-- BuildTree, GetMerkleRoot and GetMerkleProof of utils/staking/utils.go together: every transaction
-- of a list can be proved against the root of the list.
use mathlib.Core.HLevel.{×_prop}
use mathlib.Core.Logic.Or
use mathlib.Core.List.{mem-cons, mem-cons_self, mem-cons_of_mem, not-mem-nil, Mem-prop}
use flare_p_chain_indexer.Prelude.{
  ◌≡◌, refl, true, false, List, [], ◌∷◌, Mem, arith, Run, ok, >>=-eq-ok, wrap_err-eq-ok, wrap_err,
}
use flare_p_chain_indexer.Prelude.Str.{String-set}
use flare_p_chain_indexer.Database.{PChainTxData}
use flare_p_chain_indexer.Merkle
use flare_p_chain_indexer.Merkle.{hash_set, Tree, verify_proof, build}
use flare_p_chain_indexer.Merkle.Find.{build-IsProvable}
use flare_p_chain_indexer.Staking.{
  StakingApi, hash_transaction, hash_loop, build_tree, get_merkle_root, get_merkle_proof,
}

module _ (S : StakingApi) where
  open S use {hashes, Hash}

  -- The leaf of a transaction, where it has one.
  pub leaf_of : PChainTxData → Hash
  leaf_of tx = elim (hash_transaction S tx) [ ok h ↦ h | _ ↦ S.zero_hash ]

  leaf_of-ok :
      (tx : PChainTxData) (h : Hash)
      → hash_transaction S tx ≡ ok h
      → hash_transaction S tx ≡ ok (leaf_of tx)
  unfolding leaf_of
  leaf_of-ok tx h e = ground (arith, e)

  leaf_eq : (tx : PChainTxData) (h : Hash) → hash_transaction S tx ≡ ok h → leaf_of tx ≡ h
  unfolding leaf_of
  leaf_eq tx h e = ground (arith, e)

  Run-set : IsSet (Run Hash)
  Run-set = hlevel (hash_set hashes, String-set)

  -- every transaction of a hashed list has its leaf among the hashes
  hash_loop-leaf :
      (txs : List PChainTxData) (values : List Hash) (tx : PChainTxData)
      → hash_loop S txs ≡ ok values
      → Mem tx txs
      → (hash_transaction S tx ≡ ok (leaf_of tx)) × Mem (leaf_of tx) values
  unfolding hash_loop
  hash_loop-leaf [] values tx run mem = absurd (not-mem-nil mem)
  hash_loop-leaf (x ∷ txs) values tx run mem =
      let (h, wrapped, run') = >>=-eq-ok (wrap_err "getTxHash" (hash_transaction S x)) _ run in
      let hashed = wrap_err-eq-ok "getTxHash" (hash_transaction S x) wrapped in
      let (rest, run_rest, last) = >>=-eq-ok (hash_loop S txs) _ run' in
      let listed : h ∷ rest ≡ values = cc last in
      rw (← listed) (
        Or.elim (×_prop (Run-set _ _) Mem-prop) (mem-cons.0 mem)
          (λ e. rw e (leaf_of-ok x h hashed, rw (leaf_eq x h hashed) mem-cons_self))
          (λ inside.
            let (own, m) = hash_loop-leaf txs rest tx run_rest inside in
            (own, mem-cons_of_mem h m)))

  -- What GetMerkleProof and GetMerkleRoot give for a transaction of a list.
  pub record IsMirrored (txs : List PChainTxData) (tx : PChainTxData) : Type 0 where
    pub root : Hash
    pub leaf : Hash
    pub proof : List Hash
    pub tree : Tree hashes
    pub built : build_tree S txs ≡ ok tree
    pub rooted : get_merkle_root S txs ≡ ok root
    pub hashed : hash_transaction S tx ≡ ok leaf
    pub proved : get_merkle_proof S tree tx ≡ ok proof
    pub verified : verify_proof hashes leaf proof root ≡ true

  -- If BuildTree succeeds for a list, then for every transaction of the list GetMerkleProof
  -- succeeds on the tree, and VerifyProof accepts its proof against GetMerkleRoot of the list.
  pub build_tree-IsMirrored :
      (txs : List PChainTxData) (tx : PChainTxData) (tree : Tree hashes)
      → build_tree S txs ≡ ok tree
      → Mem tx txs
      → IsMirrored txs tx
  unfolding build_tree get_merkle_root get_merkle_proof
  build_tree-IsMirrored txs tx tree run mem =
      let (values, hashed, built) = >>=-eq-ok (hash_loop S txs) _ run in
      let (own, leaf_in) = hash_loop-leaf txs values tx hashed mem in
      let p = build-IsProvable hashes values false (leaf_of tx) leaf_in in
      let run' : build_tree S txs ≡ ok p.tree = rw hashed p.built in
      record {
        root = p.top;
        leaf = leaf_of tx;
        proof = p.proof;
        tree = p.tree;
        built = run';
        rooted = rw (hashed, p.built) p.rooted;
        hashed = own;
        proved = rw (own, p.proved);
        verified = p.verified;
      }

  -- the root of a list is that of its tree
  pub get_merkle_root-built :
      (txs : List PChainTxData) (tree : Tree hashes) (top : Hash)
      → build_tree S txs ≡ ok tree
      → Merkle.root hashes tree ≡ ok top
      → get_merkle_root S txs ≡ ok top
  unfolding get_merkle_root
  get_merkle_root-built txs tree top built rooted = rw (built, rooted) refl
