-- ===== src/Merkle/Proof.antt =====
-- GetProof and VerifyProof of utils/merkle/merkle.go: a proof leads from its leaf to the root.
use mathlib.Core.List.{append-nil, append_assoc}
use native.Mathlib.Nat.{pow-suc}
use flare_p_chain_indexer.Prelude.{
  ℕ, zero, suc, ◌+◌, ◌-◌, ◌*◌, ◌/◌, ◌%◌, ◌^◌, ◌≤◌, ◌<◌, ◌≡◌, refl, sym, ap, ◌∙◌, true, false, List,
  [], ◌∷◌, ◌++◌, arith, ◌==◌, leb, length, drop, get_or-drop, length-drop, list_ext, inl, inr, ok,
  ◌⊎◌,
}
use flare_p_chain_indexer.Prelude.Int.{pos}
use flare_p_chain_indexer.Merkle.{
  HashApi, Tree, sorted_hash_pair, root, hash_count, sorted_hashes, get_hash, parent, sibling,
  proof_loop, get_proof, fold_proof, verify_proof,
}
use flare_p_chain_indexer.Merkle.Build.{at, NodesFrom, load-ok, IsMerkle}

module _ (H : HashApi) where
  open H use {Hash, zero_hash, hex, eq_iff}

  -- The order of the two arguments does not matter.
  pub sorted_hash_pair_comm : (x y : Hash) → sorted_hash_pair H x y ≡ sorted_hash_pair H y x
  unfolding sorted_hash_pair
  sorted_hash_pair_comm x y = ground (arith, hex.total x y, hex.total y x, hex.antisymm x y)

  -- a node with its sibling hashes to its parent, from either side
  pub pair_up :
      (inner : ℕ) (t : List Hash) (p : ℕ)
      → NodesFrom H 0 inner t
      → 0 < p
      → p < 2 * inner + 1
      → sorted_hash_pair H (at H t (sibling H p)) (at H t p) ≡ at H t (parent H p)
  unfolding sibling parent
  pair_up inner t p nodes positive inside =
      let up : at H t ((p - 1) / 2)
          ≡ sorted_hash_pair H (at H t (2 * ((p - 1) / 2) + 1)) (at H t (2 * ((p - 1) / 2) + 2)) =
        nodes ((p - 1) / 2) (omega arith) (omega arith) in
      let swap = sorted_hash_pair_comm (at H t (sibling H p)) (at H t p) in
      let parity : (p % 2 ≡ 0) ⊎ (p % 2 ≡ 1) = omega arith in
      elim parity [
        | inl even ↦
            let s : p + 2 * (p % 2) - 1 ≡ 2 * ((p - 1) / 2) + 1 = omega arith in
            let q : 2 * ((p - 1) / 2) + 2 ≡ p = omega arith in
            rw (s, up)
              (ap (λ k. sorted_hash_pair H (at H t (2 * ((p - 1) / 2) + 1)) (at H t k)) (sym q))
        | inr odd ↦
            let s : p + 2 * (p % 2) - 1 ≡ 2 * ((p - 1) / 2) + 2 = omega arith in
            let q : 2 * ((p - 1) / 2) + 1 ≡ p = omega arith in
            swap
            ∙ rw (s, up)
                (ap (λ k. sorted_hash_pair H (at H t k) (at H t (2 * ((p - 1) / 2) + 2))) (sym q))
      ]

  -- What the loop appends to the proof, from position `p`.
  pub record Climb (t : List Hash) (p : ℕ) (rest : List Hash) : Type 0 where
    pub reaches_root : fold_proof H (at H t p) rest ≡ at H t 0
    pub short : 2 ^ length rest ≤ p + 1

  proof_loop-Climb :
      (inner : ℕ) (t : List Hash)
      → length t ≡ 2 * inner + 1
      → NodesFrom H 0 inner t
      → (fuel p : ℕ) (proof : List Hash) → p < fuel
      → p < length t
      → (rest : List Hash) × (proof_loop H fuel t p proof ≡ ok (proof ++ rest)) × Climb t p rest
  unfolding proof_loop fold_proof
  proof_loop-Climb inner t size nodes zero p proof enough inside = absurd (omega arith)
  proof_loop-Climb inner t size nodes (suc fuel) zero proof enough inside =
      ([], rw append-nil, record { reaches_root = refl; short = omega arith })
  proof_loop-Climb inner t size nodes (suc fuel) (suc p) proof enough inside =
      let s = at H t (sibling H (suc p)) in
      let nonzero : (suc p == 0) ≡ false = ground arith in
      let (rest, run, climb) =
        proof_loop-Climb inner t size nodes fuel (parent H (suc p)) (proof ++ s ∷ [])
          (unfold parent in omega arith) (unfold parent in omega arith) in
      let up = pair_up inner t (suc p) nodes (omega arith) (omega arith) in
      (
        s ∷ rest,
        rw (nonzero, load-ok H t (sibling H (suc p)) (unfold sibling in omega arith))
            (run ∙ ap ok (append_assoc proof (s ∷ []) rest)),
        record {
          reaches_root = rw up climb.reaches_root;
          short = unfold parent in omega (arith, climb.short, pow-suc 2 (length rest));
        },
      )

  -- what the accessors of a tree give, in terms of its leaves
  module _ (leaves : List Hash) (t : Tree H) (m : IsMerkle H leaves t.tree)
      (some_leaves : 0 < length leaves) where
    pub hash_count-length : hash_count H t ≡ length leaves
    unfolding hash_count
    hash_count-length = ground (arith, m.size)

    pub sorted_hashes-leaves : sorted_hashes H t ≡ leaves
    unfolding sorted_hashes
    sorted_hashes-leaves =
        let count = hash_count-length in
        let nonzero : (hash_count H t == 0) ≡ false = ground (arith, count) in
        rw nonzero (
          list_ext (drop (hash_count H t - 1) t.tree) leaves zero_hash
            (omega (arith, length-drop (hash_count H t - 1) t.tree, m.size, count))
            (λ i. get_or-drop (hash_count H t - 1) t.tree i zero_hash ∙ rw count (m.leaf i)))

    pub root-ok : root H t ≡ ok (at H t.tree 0)
    unfolding root
    root-ok =
        let nonzero : (length t.tree == 0) ≡ false = ground (arith, m.size) in
        rw (nonzero, load-ok H t.tree 0 (omega (arith, m.size)))

    module _ (i : ℕ) (inside : i < length leaves) where
      leaf_position : length t.tree - hash_count H t + i ≡ length leaves - 1 + i
      leaf_position = omega (arith, m.size, hash_count-length)

      pub get_hash-leaf : get_hash H t (pos i) ≡ ok (at H leaves i)
      unfolding get_hash
      get_hash-leaf =
          let below : leb (hash_count H t) i ≡ false = ground (arith, hash_count-length) in
          rw
            (below, leaf_position, load-ok H t.tree (length leaves - 1 + i) (omega (arith, m.size)))
            (ap ok (m.leaf i))

      -- the proof of leaf `i` exists, is logarithmic and verifies
      pub get_proof-verifies :
          (proof : List Hash) × (get_proof H t (pos i) ≡ ok proof)
          × (verify_proof H (at H leaves i) proof (at H t.tree 0) ≡ true)
          × (2 ^ length proof < 2 * length leaves)
      unfolding get_proof verify_proof
      get_proof-verifies =
          let below : leb (hash_count H t) i ≡ false = ground (arith, hash_count-length) in
          let p = length leaves - 1 + i in
          let (proof, run, climb) =
            proof_loop-Climb (length leaves - 1) t.tree (omega (arith, m.size)) m.nodes (p + 1) p []
              (omega arith) (omega (arith, m.size)) in
          (
            proof,
            rw (below, leaf_position) run,
            rw (← m.leaf i) ((eq_iff _ _).1 climb.reaches_root),
            omega (arith, climb.short),
          )
