-- ===== src/Tests/Rows.antt =====
-- Runs of utils/staking/utils.go and utils/merkle/merkle.go on concrete rows.
use mathlib.Core.Logic.Or
use mathlib.Core.List.{
  Pairwise, mem-cons, mem-cons_self, mem-cons_of_mem, not-mem-nil, mem-singleton,
}
use mathlib.Core.List.Perm
use mathlib.Core.Option.{some-injective}
use flare_p_chain_indexer.Prelude.{
  ◌≡◌, ◌≢◌, ◌↔◌, ◌<◌, refl, sym, ap, ◌∙◌, true, false, some, List, [], ◌∷◌, ok, err, Mem, arith,
  hash_not_found, length,
}
use flare_p_chain_indexer.Prelude.Str.{str_eq_iff, String-set, str_order}
use flare_p_chain_indexer.Prelude.Order.{lt, sort_by}
use flare_p_chain_indexer.Prelude.Int.{pos, ◌+ℤ◌, ◌-ℤ◌}
use flare_p_chain_indexer.Database.{PChainTxData}
use flare_p_chain_indexer.Merkle.{
  Tree, build, build_loop, sorted_hash_pair, map_single_hash, get_proof_from_hash,
}
use flare_p_chain_indexer.Merkle.Build.{IsMerkle, build-IsMerkle, leaves_of}
use flare_p_chain_indexer.Merkle.Find.{
  IsProvable, build-IsProvable, build-get_proof_from_hash-missing,
}
use flare_p_chain_indexer.Staking.{dedupe_txs, build_tree, hash_transaction, id_of}
use flare_p_chain_indexer.Staking.Dedupe.{last_row, dedupe_txs-mem, dedupe_txs-ascending}
use flare_p_chain_indexer.Staking.Dedupe.Rows.{OneRowEach, dedupe_txs-perm}
use flare_p_chain_indexer.Staking.Epochs.{
  InEpoch, get_epoch_index, get_epoch_index_iff, get_epoch_index-before_start,
}
use flare_p_chain_indexer.Staking.Proofs.{IsMirrored, build_tree-IsMirrored}
use flare_p_chain_indexer.Tests.{toy_hashes, toy_staking, toy_epochs, row_a, row_b, rows, stakes}

abbrev tree : Tree toy_hashes
tree = record { tree = 185 ∷ 340 ∷ 71 ∷ 382 ∷ 693 ∷ [] }

built : build_tree toy_staking stakes ≡ ok tree
unfolding build_tree hash_transaction build sort_by build_loop sorted_hash_pair
built = refl

build_tree-IsMirrored_example : IsMirrored toy_staking stakes row_b
build_tree-IsMirrored_example =
    build_tree-IsMirrored toy_staking stakes row_b tree built (mem-cons_of_mem row_a mem-cons_self)

-- three leaves, two of them equal
abbrev values : List toy_hashes.Hash
values = 50 ∷ 10 ∷ 10 ∷ []

build-IsProvable_example : IsProvable toy_hashes values true (toy_hashes.keccak (10 ∷ []))
unfolding map_single_hash
build-IsProvable_example =
    build-IsProvable toy_hashes values true (toy_hashes.keccak (10 ∷ []))
      (mem-cons_of_mem (toy_hashes.keccak (50 ∷ [])) mem-cons_self)

abbrev tree_of_values : Tree toy_hashes
tree_of_values = record { tree = 285 ∷ 215 ∷ 10 ∷ 10 ∷ 50 ∷ [] }

values_built : build toy_hashes values false ≡ ok tree_of_values
unfolding build sort_by build_loop sorted_hash_pair
values_built = refl

not_there : ¬ Mem 41 values
not_there m =
    Or.elim (hlevel) (mem-cons.0 m) (λ e. omega (arith, e))
      (λ m'.
        Or.elim (hlevel) (mem-cons.0 m') (λ e. omega (arith, e))
          (λ m''. Or.elim (hlevel) (mem-cons.0 m'') (λ e. omega (arith, e)) not-mem-nil))

build-get_proof_from_hash-missing_example :
    get_proof_from_hash toy_hashes tree_of_values 41 ≡ err hash_not_found
build-get_proof_from_hash-missing_example =
    build-get_proof_from_hash-missing toy_hashes values false 41 tree_of_values values_built
      not_there

some_leaves : 0 < length (leaves_of toy_hashes values false)
unfolding sort_by
some_leaves = omega arith

build-IsMerkle_example :
    (t : Tree toy_hashes) × (build toy_hashes values false ≡ ok t)
    × IsMerkle toy_hashes (leaves_of toy_hashes values false) t.tree
build-IsMerkle_example = build-IsMerkle toy_hashes values false some_leaves

dedupe_txs-mem_example : Mem row_b (dedupe_txs rows) ↔ (last_row (id_of row_b) rows ≡ some row_b)
dedupe_txs-mem_example = dedupe_txs-mem row_b rows

dedupe_txs-ascending_example :
    Pairwise (λ a b. lt str_order (id_of a) (id_of b) ≡ true) (dedupe_txs rows)
dedupe_txs-ascending_example = dedupe_txs-ascending rows

ids_differ : row_a.tx_id ≢ row_b.tx_id
ids_differ e = cc ((str_eq_iff "a" "b").1 (some-injective "a" "b" e))

rows_set : IsSet PChainTxData
rows_set = hlevel String-set

two_rows-OneRowEach : OneRowEach (row_a ∷ row_b ∷ [])
two_rows-OneRowEach a b ma mb ca cb same =
    Or.elim (rows_set a b) (mem-cons.0 ma)
      (λ a_first.
        Or.elim (rows_set a b) (mem-cons.0 mb) (λ b_first. a_first ∙ sym b_first)
          (λ b_rest. absurd (
            ids_differ (
              ap (λ (t : PChainTxData). t.tx_id) (sym a_first)
              ∙ same
              ∙ ap (λ (t : PChainTxData). t.tx_id) ((mem-singleton rows_set).0 b_rest)))))
      (λ a_rest.
        Or.elim (rows_set a b) (mem-cons.0 mb)
          (λ b_first. absurd (
            ids_differ (
              ap (λ (t : PChainTxData). t.tx_id) (sym b_first)
              ∙ sym same
              ∙ ap (λ (t : PChainTxData). t.tx_id) ((mem-singleton rows_set).0 a_rest))))
          (λ b_rest. (mem-singleton rows_set).0 a_rest ∙ sym ((mem-singleton rows_set).0 b_rest)))

dedupe_txs-perm_example : dedupe_txs (row_a ∷ row_b ∷ []) ≡ dedupe_txs (row_b ∷ row_a ∷ [])
dedupe_txs-perm_example =
    dedupe_txs-perm (row_a ∷ row_b ∷ []) (row_b ∷ row_a ∷ []) two_rows-OneRowEach
      (Perm.swap row_b row_a [])

get_epoch_index_iff_example :
    (get_epoch_index toy_epochs (pos 100 +ℤ pos 25) ≡ ok (pos 2))
    ↔ InEpoch toy_epochs (pos 2) (pos 100 +ℤ pos 25)
get_epoch_index_iff_example =
    get_epoch_index_iff toy_epochs 10 refl (omega arith) 25 (omega arith) 2 (omega arith)

get_epoch_index-before_start_example :
    (get_epoch_index toy_epochs (pos 100 -ℤ pos 4) ≡ ok (pos 0))
    × (¬ InEpoch toy_epochs (pos 0) (pos 100 -ℤ pos 4))
get_epoch_index-before_start_example =
    get_epoch_index-before_start toy_epochs 10 4 refl (omega arith) (omega arith) (omega arith)
