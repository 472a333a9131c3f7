-- ===== src/Merkle/Find.antt =====
-- GetProofFromHash of utils/merkle/merkle.go: the binary search among the sorted leaves.
use mathlib.Core.Logic.{∥∥₁_elim}
use native.Mathlib.Bridge.{le_prop}
use mathlib.Core.Path.{subst}
use mathlib.Core.List.Perm
use flare_p_chain_indexer.Prelude.{
  ℕ, ◌*◌, ◌^◌, ◌≤◌, ◌<◌, ◌≡◌, Bool, true, List, Mem, Perm, arith, ltb, if◌then◌else◌, length,
  mem-index, length-perm, length_pos_of_mem, get_or-mem, ltb→lt, Bool-cases, inl, inr, ok, err,
  hash_not_found,
}
use flare_p_chain_indexer.Prelude.Order.{
  le_refl, IsSortedBy, IsSortedBy-get_or, sort_by-IsSortedBy, sort_by-perm,
}
use flare_p_chain_indexer.Prelude.Search.{sort_search, IsLeast, sort_search-IsLeast}
use flare_p_chain_indexer.Merkle.{
  HashApi, Tree, build, root, verify_proof, map_single_hash, is_at_or_after, hash_set,
  binary_search, get_proof_from_hash,
}
use flare_p_chain_indexer.Merkle.Build.{at, leaves_of, IsMerkle, build-IsMerkle, build-length_pos}
use flare_p_chain_indexer.Merkle.Proof.{sorted_hashes-leaves, root-ok, get_proof-verifies}

module _ (H : HashApi) where
  open H use {Hash, zero_hash, hex, eq_iff}

  module _ (leaves : List Hash) (hash : Hash) (sorted : IsSortedBy hex (λ h. h) leaves) where
    -- where sort.Search stops
    abbrev found_at : ℕ
    found_at = sort_search (length leaves) (is_at_or_after H hash leaves)

    found_at-IsLeast : IsLeast (length leaves) (is_at_or_after H hash leaves) found_at
    unfolding is_at_or_after
    found_at-IsLeast =
        sort_search-IsLeast (length leaves) (is_at_or_after H hash leaves) (λ a b le inside h.
          hex.trans hash (at H leaves a) (at H leaves b) h
            (IsSortedBy-get_or hex (λ h. h) leaves a b zero_hash sorted le inside))

    -- a leaf equal to the hash makes the search stop at one
    found_at-hit :
        (k : ℕ)
        → k < length leaves
        → at H leaves k ≡ hash
        → (found_at < length leaves) × (at H leaves found_at ≡ hash)
    unfolding is_at_or_after
    found_at-hit k inside same =
        let least = found_at-IsLeast in
        let refl_le : hex.le hash (at H leaves k) ≡ true = rw same (le_refl hex hash) in
        let not_after : found_at ≤ k = elim (Bool-cases (ltb k found_at)) [
          | inl after ↦ cc (least.before k (ground arith), refl_le)
          | inr h ↦ ground arith
        ] in
        let le_hash : hex.le (at H leaves found_at) hash ≡ true =
          rw same at
            (IsSortedBy-get_or hex (λ h. h) leaves found_at k zero_hash sorted not_after inside) in
        (
          omega arith,
          hex.antisymm (at H leaves found_at) hash le_hash
              (least.from found_at (omega arith) (omega arith)),
        )

  module _ (leaves : List Hash) (t : Tree H) (m : IsMerkle H leaves t.tree)
      (some_leaves : 0 < length leaves) (hash : Hash)
      (sorted : IsSortedBy hex (λ h. h) leaves) where
    -- a hash among the leaves is found, at an index of it
    binary_search-found :
        Mem hash leaves
        → (i : ℕ) × (i < length leaves) × (binary_search H t hash ≡ ok i) × (at H leaves i ≡ hash)
    unfolding binary_search
    binary_search-found member =
        let i = found_at leaves hash sorted in
        let hit : (i < length leaves) × (at H leaves i ≡ hash) =
          ∥∥₁_elim (mem-index leaves zero_hash member) (hlevel (le_prop, hash_set H))
            (λ (k, inside, same). found_at-hit leaves hash sorted k inside same) in
        let below : ltb i (length leaves) ≡ true = ground (arith, hit.0) in
        (
          i,
          hit.0,
          rw (sorted_hashes-leaves H leaves t m some_leaves, below, (eq_iff _ _).1 hit.1),
          hit.1,
        )

    binary_search-missing : ¬ Mem hash leaves → binary_search H t hash ≡ err hash_not_found
    unfolding binary_search
    binary_search-missing absent =
        let i = found_at leaves hash sorted in
        rw (sorted_hashes-leaves H leaves t m some_leaves)
          (elim (Bool-cases (ltb i (length leaves))) [
            | inr h ↦ rw h
            | inl h ↦ elim (Bool-cases (H.eq (at H leaves i) hash)) [
              | inr ne ↦ rw (h, ne)
              | inl e ↦ absurd (
                  absent (
                    subst (λ x. Mem x leaves) ((eq_iff _ _).0 e)
                      (get_or-mem leaves i zero_hash (ltb→lt _ _ h))))
            ]
          ])

  -- the hashes that become leaves, before they are sorted
  abbrev pub leaf_hashes : List Hash → Bool → List Hash
  leaf_hashes values initial_hash = if initial_hash then map_single_hash H values else values

  -- A hash that can be proved against a tree: the proof verifies against the root, and is short.
  pub record IsProvable (values : List Hash) (initial_hash : Bool) (hash : Hash) : Type 0 where
    pub tree : Tree H
    pub top : Hash
    pub proof : List Hash
    pub built : build H values initial_hash ≡ ok tree
    pub rooted : root H tree ≡ ok top
    pub proved : get_proof_from_hash H tree hash ≡ ok proof
    pub verified : verify_proof H hash proof top ≡ true
    pub short : 2 ^ length proof < 2 * length (leaf_hashes values initial_hash)

  module _ (values : List Hash) (initial_hash : Bool) (hash : Hash) where
    abbrev same_leaves : Perm (leaves_of H values initial_hash) (leaf_hashes values initial_hash)
    same_leaves = sort_by-perm hex (λ h. h) (leaf_hashes values initial_hash)

    abbrev in_order : IsSortedBy hex (λ h. h) (leaves_of H values initial_hash)
    in_order = sort_by-IsSortedBy hex (λ h. h) (leaf_hashes values initial_hash)

    -- Build and GetProofFromHash succeed for every hash among the leaf hashes, and VerifyProof
    -- accepts the proof against Root. The proof is logarithmic in the number of leaves.
    pub build-IsProvable :
        Mem hash (leaf_hashes values initial_hash) → IsProvable values initial_hash hash
    unfolding get_proof_from_hash
    build-IsProvable member =
        let leaves = leaves_of H values initial_hash in
        let size = length-perm same_leaves in
        let pos_leaves : 0 < length leaves = omega (arith, size, length_pos_of_mem _ member) in
        let (t, built, m) = build-IsMerkle H values initial_hash pos_leaves in
        let (i, inside, found, same) =
          binary_search-found leaves t m pos_leaves hash in_order
            ((Perm.mem_iff same_leaves).1 member) in
        let (proof, run, verified, short) = get_proof-verifies H leaves t m pos_leaves i inside in
        record {
          tree = t;
          top = at H t.tree 0;
          proof = proof;
          built = built;
          rooted = root-ok H leaves t m pos_leaves;
          proved = rw found run;
          verified = rw same at verified;
          short = omega (arith, short, size);
        }

    -- GetProofFromHash reports a hash that is not among the leaf hashes of a tree from Build.
    pub build-get_proof_from_hash-missing :
        (t : Tree H)
        → build H values initial_hash ≡ ok t
        → ¬ Mem hash (leaf_hashes values initial_hash)
        → get_proof_from_hash H t hash ≡ err hash_not_found
    unfolding get_proof_from_hash
    build-get_proof_from_hash-missing t built absent =
        let pos_leaves = build-length_pos H values initial_hash t built in
        let (t', built', m) = build-IsMerkle H values initial_hash pos_leaves in
        let same : t' ≡ t = cc (built, built') in
        let m' =
          subst (λ (u : Tree H). IsMerkle H (leaves_of H values initial_hash) u.tree) same m in
        rw (
          binary_search-missing _ t m' pos_leaves hash in_order
            (λ member. absent ((Perm.mem_iff same_leaves).0 member)))
