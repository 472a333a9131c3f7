-- ===== src/Merkle.antt =====
-- utils/merkle/merkle.go: a Merkle tree kept as a slice in heap order, inner nodes before leaves.
-- Hashes, their hexadecimal order and Keccak-256 are go-ethereum's: a parameter.
pub mod Build
pub mod Proof
pub mod Find
use Prim.Native.String.{String}
use mathlib.Core.HLevel.{hedberg}
use text.Mathlib.Text.{◌==◌ as str_eq}
use flare_p_chain_indexer.Prelude.{
  ℕ, zero, suc, ◌+◌, ◌-◌, ◌*◌, ◌/◌, ◌%◌, ◌≡◌, ◌↔◌, Bool, true, ◌&&◌, not, Option, none, some, List,
  [], ◌∷◌, ◌++◌, map, leb, ltb, Bool-cases, inl, inr, ◌==◌, if◌then◌else◌, length, get_elem?,
  get_or, set, drop, replicate, Run, ok, err, panic, ◌>>=◌, or_else, empty_tree, invalid_index,
  hash_not_found,
}
use flare_p_chain_indexer.Prelude.Int.{ℤ, pos, negsuc}
use flare_p_chain_indexer.Prelude.Order.{LinearOrder, sort_by}
use flare_p_chain_indexer.Prelude.Search.{sort_search}

-- go-ethereum's `common.Hash` and `crypto.Keccak256Hash`
pub record HashApi : Type 1 where
  pub Hash : Type 0
  -- `==` on hashes
  pub eq : Hash → Hash → Bool
  pub eq_iff : (x y : Hash) → (eq x y ≡ true) ↔ (x ≡ y)
  -- `<=` on `Hex()`, which is one-to-one
  pub hex : LinearOrder Hash
  -- `common.Hash{}`
  pub zero_hash : Hash
  pub bytes : Hash → List ℕ
  -- the hash of the concatenated arguments
  pub keccak : List ℕ → Hash
  -- `common.HexToHash`
  pub from_hex : String → Hash

module _ (H : HashApi) where
  open H use {Hash, zero_hash, bytes, keccak, hex}

  -- Equality of hashes is decided by `==`.
  pub hash_set : IsSet Hash
  hash_set = hedberg λ x y. elim (Bool-cases (H.eq x y)) [
    | inl same ↦ yes ((H.eq_iff x y).0 same)
    | inr differ ↦ no (λ e. cc ((H.eq_iff x y).1 e))
  ]

  pub record Tree : Type 0 where
    pub tree : List Hash

  unfoldable pub new : List Hash → Tree
  new values = record { tree = values }

  pub new_from_hex : List String → Tree
  unfolding new
  new_from_hex hex_values = new (map H.from_hex hex_values)

  unfoldable pub map_single_hash : List Hash → List Hash
  map_single_hash hashes = map (λ h. keccak (bytes h)) hashes

  unfoldable pub sorted_hash_pair : Hash → Hash → Hash
  sorted_hash_pair x y =
      if hex.le x y then keccak (bytes x ++ bytes y) else keccak (bytes y ++ bytes x)

  -- `t[i]`, which panics out of range
  unfoldable pub load : List Hash → ℕ → Run Hash
  load t i = or_else (get_elem? t i) panic

  -- the `for` of Build, at `i - 1`, `i - 2`, … 0
  unfoldable pub build_loop : ℕ → List Hash → Run (List Hash)
  unfolding load
  build_loop zero t = ok t
  build_loop (suc i) t = do
    x ← load t (2 * i + 1)
    y ← load t (2 * i + 2)
    build_loop i (set t i (sorted_hash_pair x y))

  -- `make` panics for a negative length, that is for no hashes
  unfoldable pub build : List Hash → Bool → Run Tree
  unfolding new
  build values initial_hash =
      let hashes = sort_by hex (λ h. h) (if initial_hash then map_single_hash values else values) in
      let n = length hashes in
      if n == 0
      then panic
      else do t ← build_loop (n - 1) (replicate (n - 1) zero_hash ++ hashes); ok (new t)

  -- `i == 0 || hexValues[i] != hexValues[i-1]`, from the value before
  pub is_new_value : Option String → String → Bool
  is_new_value none v = true
  is_new_value (some prev) v = not (str_eq v prev)

  -- the loop of BuildFromHex
  pub distinct_hashes : Option String → List String → List Hash
  unfolding is_new_value
  distinct_hashes prev [] = []
  distinct_hashes prev (v ∷ vs) =
      let rest = distinct_hashes (some v) vs in
      if is_new_value prev v then H.from_hex v ∷ rest else rest

  pub build_from_hex : List String → Bool → Run Tree
  build_from_hex hex_values initial_hash = build (distinct_hashes none hex_values) initial_hash

  unfoldable pub root : Tree → Run Hash
  unfolding load
  root t = if length t.tree == 0 then err empty_tree else load t.tree 0

  unfoldable pub hash_count : Tree → ℕ
  hash_count t = if length t.tree == 0 then 0 else (length t.tree + 1) / 2

  unfoldable pub sorted_hashes : Tree → List Hash
  unfolding hash_count
  sorted_hashes t = if hash_count t == 0 then [] else drop (hash_count t - 1) t.tree

  unfoldable pub get_hash : Tree → ℤ → Run Hash
  unfolding load hash_count
  get_hash t (negsuc _) = err invalid_index
  get_hash t (pos i) =
      if leb (hash_count t) i
      then err invalid_index
      else load t.tree (length t.tree - hash_count t + i)

  unfoldable pub parent : ℕ → ℕ
  parent i = (i - 1) / 2

  -- `pos + ((2 * (pos % 2)) - 1)`, for `0 < pos`
  unfoldable pub sibling : ℕ → ℕ
  sibling p = p + 2 * (p % 2) - 1

  -- The loop of GetProof. `parent` is less than its argument, so `pos + 1` rounds are enough.
  unfoldable pub proof_loop : ℕ → List Hash → ℕ → List Hash → Run (List Hash)
  unfolding load parent sibling
  proof_loop zero t p proof = panic
  proof_loop (suc fuel) t p proof =
      let climb = load t (sibling p) >>= λ s. proof_loop fuel t (parent p) (proof ++ s ∷ []) in
      if p == 0 then ok proof else climb

  unfoldable pub get_proof : Tree → ℤ → Run (List Hash)
  unfolding proof_loop hash_count
  get_proof t (negsuc _) = err invalid_index
  get_proof t (pos i) =
      let p = length t.tree - hash_count t + i in
      if leb (hash_count t) i then err invalid_index else proof_loop (p + 1) t.tree p []

  -- The closure of sort.Search. It is called below the length only.
  unfoldable pub is_at_or_after : Hash → List Hash → ℕ → Bool
  is_at_or_after hash leaves i = hex.le hash (get_or leaves i zero_hash)

  unfoldable pub binary_search : Tree → Hash → Run ℕ
  unfolding sorted_hashes
  binary_search t hash =
      let leaves = sorted_hashes t in
      let i = sort_search (length leaves) (is_at_or_after hash leaves) in
      if ltb i (length leaves) && H.eq (get_or leaves i zero_hash) hash
      then ok i
      else err hash_not_found

  unfoldable pub get_proof_from_hash : Tree → Hash → Run (List Hash)
  get_proof_from_hash t hash = do i ← binary_search t hash; get_proof t (pos i)

  -- the loop of VerifyProof
  unfoldable pub fold_proof : Hash → List Hash → Hash
  fold_proof hash [] = hash
  fold_proof hash (pair ∷ proof) = fold_proof (sorted_hash_pair pair hash) proof

  unfoldable pub verify_proof : Hash → List Hash → Hash → Bool
  verify_proof leaf proof r = H.eq (fold_proof leaf proof) r
