-- ===== src/Merkle/Build.antt =====
-- Build of utils/merkle/merkle.go: the shape of the tree that it returns.
use flare_p_chain_indexer.Prelude.{
  ℕ, zero, suc, ◌+◌, ◌-◌, ◌*◌, ◌≤◌, ◌<◌, ◌≡◌, refl, sym, ap, ◌∙◌, Bool, false, List, ◌++◌, arith,
  ◌==◌, if◌then◌else◌, length, get_elem?-get_or, get_or, get_or-set, get_or-append, set, replicate,
  length-set, length-append, length-replicate, ok, Bool-cases, inl, inr, panic-ne-ok,
}
use flare_p_chain_indexer.Prelude.Order.{sort_by}
use flare_p_chain_indexer.Merkle.{
  HashApi, Tree, new, map_single_hash, sorted_hash_pair, load, build_loop, build,
}

module _ (H : HashApi) where
  open H use {Hash, zero_hash, hex}

  abbrev pub at : List Hash → ℕ → Hash
  at t i = get_or t i zero_hash

  -- Every inner node from `lo` to `inner` is the hash of its two children.
  abbrev pub NodesFrom : ℕ → ℕ → List Hash → Type 0
  NodesFrom lo inner t =
      (i : ℕ)
      → lo ≤ i
      → i < inner
      → at t i ≡ sorted_hash_pair H (at t (2 * i + 1)) (at t (2 * i + 2))

  pub load-ok : (t : List Hash) (i : ℕ) → i < length t → load H t i ≡ ok (at t i)
  unfolding load
  load-ok t i h = rw (get_elem?-get_or t i zero_hash h)

  -- What the loop returns: a slice of the same length, the same from `lo` on, with its nodes filled.
  pub record Filled (lo inner : ℕ) (t t' : List Hash) : Type 0 where
    pub size : length t' ≡ length t
    pub kept : (i : ℕ) → lo ≤ i → at t' i ≡ at t i
    pub nodes : NodesFrom 0 inner t'

  module _ (inner : ℕ) where
    build_loop-Filled :
        (lo : ℕ) (t : List Hash)
        → lo ≤ inner
        → length t ≡ 2 * inner + 1
        → NodesFrom lo inner t
        → (t' : List Hash) × (build_loop H lo t ≡ ok t') × Filled lo inner t t'
    unfolding build_loop
    build_loop-Filled zero t le size nodes =
        (t, refl, record { size = refl; kept = λ i h. refl; nodes = nodes })
    build_loop-Filled (suc i) t le size nodes =
        let v = sorted_hash_pair H (at t (2 * i + 1)) (at t (2 * i + 2)) in
        let written = λ (j : ℕ). get_or-set t i j v zero_hash (omega arith) in
        let nodes' : NodesFrom i inner (set t i v) = λ j ge below.
          ground (arith, written j, written (2 * j + 1), written (2 * j + 2), nodes j) in
        let (t', run, f) =
          build_loop-Filled i (set t i v) (omega arith) (length-set t i v ∙ size) nodes' in
        (
          t',
          rw (load-ok t (2 * i + 1) (omega arith), load-ok t (2 * i + 2) (omega arith)) run,
          record {
            size = f.size ∙ length-set t i v;
            kept = λ j ge. ground (arith, f.kept j, written j);
            nodes = f.nodes;
          },
        )

  -- The leaves in the order that Build gives them.
  abbrev pub leaves_of : List Hash → Bool → List Hash
  leaves_of values initial_hash =
      sort_by hex (λ h. h) (if initial_hash then map_single_hash H values else values)

  -- A slice in heap order over the given leaves.
  pub record IsMerkle (leaves t : List Hash) : Type 0 where
    pub size : length t + 1 ≡ 2 * length leaves
    pub leaf : (i : ℕ) → at t (length leaves - 1 + i) ≡ at leaves i
    pub nodes : NodesFrom 0 (length leaves - 1) t

  start_leaf :
      (n : ℕ) (leaves : List Hash) (i : ℕ)
      → at (replicate n zero_hash ++ leaves) (n + i) ≡ at leaves i
  start_leaf n leaves i =
      ap (λ k. at (replicate n zero_hash ++ leaves) (k + i)) (sym (length-replicate n zero_hash))
      ∙ get_or-append (replicate n zero_hash) leaves i zero_hash

  -- From at least one leaf Build returns a slice with one hash less than twice the leaves, in which
  -- the sorted leaves come last and every inner node is the hash of the pair of its children.
  pub build-IsMerkle :
      (values : List Hash) (initial_hash : Bool)
      → 0 < length (leaves_of values initial_hash)
      → (t : Tree H) × (build H values initial_hash ≡ ok t)
        × IsMerkle (leaves_of values initial_hash) t.tree
  unfolding build new
  build-IsMerkle values initial_hash pos =
      let leaves = leaves_of values initial_hash in
      let n = length leaves - 1 in
      let start = replicate n zero_hash ++ leaves in
      let long = length-append (replicate n zero_hash) leaves in
      let fill = length-replicate n zero_hash in
      let (t, run, f) =
        build_loop-Filled n n start (omega arith) (omega (arith, long, fill))
          (λ i ge below. absurd (omega arith)) in
      let some_leaves : (length leaves == 0) ≡ false = ground arith in
      (
        record { tree = t },
        rw (some_leaves, run),
        record {
          size = omega (arith, f.size, long, fill);
          leaf = λ i. f.kept (n + i) (omega arith) ∙ start_leaf n leaves i;
          nodes = f.nodes;
        },
      )

  -- Build panics without leaves, so a tree that it returns has some.
  pub build-length_pos :
      (values : List Hash) (initial_hash : Bool) (t : Tree H)
      → build H values initial_hash ≡ ok t
      → 0 < length (leaves_of values initial_hash)
  unfolding build
  build-length_pos values initial_hash t built =
      elim (Bool-cases (length (leaves_of values initial_hash) == 0)) [
        | inl none_left ↦ absurd (panic-ne-ok (rw none_left at built))
        | inr h ↦ ground arith
      ]
