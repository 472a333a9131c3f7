-- ===== src/Staking/Dedupe.antt =====
-- DedupeTxs of utils/staking/utils.go: for each TxID the last row with input index 0, by TxID.
pub mod Rows
use Prim.Native.String.{String}
use flare_p_chain_indexer.Prelude.{
  ℕ, zero, ◌≡◌, ◌≢◌, ◌↔◌, ◌⊎◌, refl, sym, ap, ◌∙◌, Bool, true, false, Option, none, some, List, [],
  ◌∷◌, map, Mem, Perm, ◌==◌, ==_iff, arith, if◌then◌else◌, Bool-cases, Option-cases, inl, inr,
}
use mathlib.Core.Logic.Or
use mathlib.Core.Option.{some-ne-none, some-injective}
use mathlib.Core.List.{
  mem-cons, mem-cons_self, mem-cons_of_mem, not-mem-nil, Nodup, Nodup-nil, Nodup-cons, Pairwise,
  perm_ext_iff_of_Nodup,
}
use mathlib.Core.List.Pairwise
use mathlib.Core.List.Perm
use flare_p_chain_indexer.Prelude.Order.{
  lt, IsKeyed, IsSortedBy, sort_by-perm, sort_by-IsSortedBy, IsSortedBy-unique,
}
use flare_p_chain_indexer.Prelude.Str.{String-set, str_eq, str_eq_iff, str_order}
use flare_p_chain_indexer.Prelude.Maps.{Assoc, lookup, insert, lookup-insert, string_eq}
use flare_p_chain_indexer.Database.{PChainTxData}
use flare_p_chain_indexer.Staking.{id_of, dedupe_loop, dedupe_txs}

-- The last row of a TxID with input index 0, from the rows alone.
pub is_row_of : String → PChainTxData → Bool
is_row_of id tx =
    if tx.input_index == 0 then elim tx.tx_id [ none ↦ false | some i ↦ str_eq i id ] else false

pub or_first : Option PChainTxData → Option PChainTxData → Option PChainTxData
or_first none b = b
or_first (some a) b = some a

pub last_row : String → List PChainTxData → Option PChainTxData
unfolding is_row_of or_first
last_row id [] = none
last_row id (tx ∷ txs) = or_first (last_row id txs) (if is_row_of id tx then some tx else none)

step : PChainTxData → Assoc String PChainTxData → Assoc String PChainTxData
step tx m = elim tx.tx_id [ none ↦ m | some id ↦ if tx.input_index == 0 then insert id tx m else m ]

or_first_assoc :
    (a b c : Option PChainTxData) → or_first (or_first a b) c ≡ or_first a (or_first b c)
unfolding or_first
or_first_assoc none b c = refl
or_first_assoc (some a) b c = refl

lookup-step :
    (id : String) (tx : PChainTxData) (m : Assoc String PChainTxData)
    → lookup id (step tx m) ≡ or_first (if is_row_of id tx then some tx else none) (lookup id m)
unfolding step is_row_of or_first
lookup-step id tx m = elim (Option-cases tx.tx_id) [
  | inl e ↦ ground (arith, e)
  | inr (i, e) ↦ ground (arith, e, lookup-insert i id tx m)
]

-- the map that the loop builds
lookup-dedupe_loop :
    (id : String) (txs : List PChainTxData) (m : Assoc String PChainTxData)
    → lookup id (dedupe_loop txs m) ≡ or_first (last_row id txs) (lookup id m)
unfolding dedupe_loop last_row step
lookup-dedupe_loop id [] m = refl
lookup-dedupe_loop id (tx ∷ txs) m =
    lookup-dedupe_loop id txs (step tx m)
    ∙ ap (or_first (last_row id txs)) (lookup-step id tx m)
    ∙ sym
        (or_first_assoc (last_row id txs) (if is_row_of id tx then some tx else none) (lookup id m))

-- every entry stands under its own TxID, once
abbrev Keyed : Assoc String PChainTxData → Type 0
Keyed [] = Unit
Keyed ((k, v) ∷ m) = (v.tx_id ≡ some k) × (lookup k m ≡ none) × Keyed m

insert-Keyed :
    (id : String) (tx : PChainTxData) (m : Assoc String PChainTxData)
    → tx.tx_id ≡ some id
    → Keyed m
    → Keyed (insert id tx m)
unfolding insert lookup
insert-Keyed id tx [] e k = (e, refl, tt)
insert-Keyed id tx ((j, v) ∷ m) e (own, fresh, k) =
    ground
      (arith, str_eq_iff j id, str_eq_iff id j, lookup-insert id j tx m, insert-Keyed id tx m e k)

dedupe_loop-Keyed :
    (txs : List PChainTxData) (m : Assoc String PChainTxData) → Keyed m → Keyed (dedupe_loop txs m)
unfolding dedupe_loop step
dedupe_loop-Keyed [] m k = k
dedupe_loop-Keyed (tx ∷ txs) m k = dedupe_loop-Keyed txs (step tx m) (keep (Option-cases tx.tx_id))
  where
    keep : (tx.tx_id ≡ none) ⊎ ((i : String) × (tx.tx_id ≡ some i)) → Keyed (step tx m)
    keep (inl e) = rw (e, step) k
    keep (inr (i, e)) = elim (Bool-cases (tx.input_index == 0)) [
      | inl z ↦ rw (e, z, step) (insert-Keyed i tx m e k)
      | inr z ↦ rw (e, z, step) k
    ]

abbrev entries : Assoc String PChainTxData → List PChainTxData
entries m = map (λ (_, tx). tx) m

PChainTxData-set : IsSet PChainTxData
PChainTxData-set = hlevel String-set

found-set : (a b : Option PChainTxData) → IsProp (a ≡ b)
found-set = hlevel PChainTxData-set

id_of-own : (tx : PChainTxData) (id : String) → tx.tx_id ≡ some id → id_of tx ≡ id
unfolding id_of
id_of-own tx id e = ground (arith, e)

mem-entries_of_lookup :
    (k : String) (tx : PChainTxData) (m : Assoc String PChainTxData)
    → lookup k m ≡ some tx
    → Mem tx (entries m)
unfolding lookup
mem-entries_of_lookup k tx [] e = cc
mem-entries_of_lookup k tx ((j, v) ∷ m) e = elim (Bool-cases (str_eq j k)) [
  | inl same ↦ mem-cons.1 (Or.inl (ground arith))
  | inr differ ↦ mem-cons_of_mem v (mem-entries_of_lookup k tx m (rw differ at e))
]

lookup_of_mem-entries :
    (tx : PChainTxData) (m : Assoc String PChainTxData)
    → Keyed m
    → Mem tx (entries m)
    → lookup (id_of tx) m ≡ some tx
unfolding lookup
lookup_of_mem-entries tx [] k mem = absurd (not-mem-nil mem)
lookup_of_mem-entries tx ((j, v) ∷ m) (own, fresh, k) mem =
    Or.elim (found-set _ _) (mem-cons.0 mem)
      (λ e. ground (arith, e, id_of-own v j own, str_eq_iff j (id_of tx)))
      (λ rest.
        let ih = lookup_of_mem-entries tx m k rest in
        elim (Bool-cases (str_eq j (id_of tx))) [
          | inl same ↦ absurd (
              some-ne-none tx
                (sym ih ∙ ap (λ i. lookup i m) (sym ((str_eq_iff j (id_of tx)).0 same)) ∙ fresh))
          | inr differ ↦ rw differ ih
        ])

Keyed-Nodup : (m : Assoc String PChainTxData) → Keyed m → Nodup (entries m)
Keyed-Nodup [] k = Nodup-nil
Keyed-Nodup ((j, v) ∷ m) (own, fresh, k) = Nodup-cons.1 (
  (λ mem.
      some-ne-none v
        (sym (lookup_of_mem-entries v m k mem) ∙ ap (λ i. lookup i m) (id_of-own v j own) ∙ fresh)),
  Keyed-Nodup m k,
)

-- The map at the end of the loop.
abbrev tx_set : List PChainTxData → Assoc String PChainTxData
tx_set txs = dedupe_loop txs []

tx_set-Keyed : (txs : List PChainTxData) → Keyed (tx_set txs)
tx_set-Keyed txs = dedupe_loop-Keyed txs [] tt

lookup-tx_set : (id : String) (txs : List PChainTxData) → lookup id (tx_set txs) ≡ last_row id txs
unfolding lookup or_first
lookup-tx_set id txs = lookup-dedupe_loop id txs [] ∙ ground arith

mem-tx_set :
    (tx : PChainTxData) (txs : List PChainTxData)
    → Mem tx (entries (tx_set txs)) ↔ (last_row (id_of tx) txs ≡ some tx)
mem-tx_set tx txs = (
  λ mem. rw lookup-tx_set at (lookup_of_mem-entries tx (tx_set txs) (tx_set-Keyed txs) mem),
  λ e. mem-entries_of_lookup (id_of tx) tx (tx_set txs) (rw lookup-tx_set e),
)

tx_set-perm : (txs : List PChainTxData) → Perm (dedupe_txs txs) (entries (tx_set txs))
unfolding dedupe_txs
tx_set-perm txs = sort_by-perm str_order id_of (entries (tx_set txs))

-- DedupeTxs keeps exactly the rows that are the last with input index 0 for their TxID.
pub dedupe_txs-mem :
    (tx : PChainTxData) (txs : List PChainTxData)
    → Mem tx (dedupe_txs txs) ↔ (last_row (id_of tx) txs ≡ some tx)
dedupe_txs-mem tx txs = (
  λ mem. (mem-tx_set tx txs).0 ((Perm.mem_iff (tx_set-perm txs)).0 mem),
  λ e. (Perm.mem_iff (tx_set-perm txs)).1 ((mem-tx_set tx txs).1 e),
)

pub dedupe_txs-Nodup : (txs : List PChainTxData) → Nodup (dedupe_txs txs)
dedupe_txs-Nodup txs =
    Perm.nodup (Perm.symm (tx_set-perm txs)) (Keyed-Nodup (tx_set txs) (tx_set-Keyed txs))

pub dedupe_txs-IsKeyed : (txs : List PChainTxData) → IsKeyed str_order id_of (dedupe_txs txs)
dedupe_txs-IsKeyed txs a b ma mb e =
    some-injective a b
      (sym ((dedupe_txs-mem a txs).0 ma) ∙ ap (λ i. last_row i txs) e ∙ (dedupe_txs-mem b txs).0 mb)

pub dedupe_txs-IsSortedBy : (txs : List PChainTxData) → IsSortedBy str_order id_of (dedupe_txs txs)
unfolding dedupe_txs
dedupe_txs-IsSortedBy txs = sort_by-IsSortedBy str_order id_of (entries (tx_set txs))

-- The result is in strictly ascending order of TxID, so no TxID stands in it twice.
pub dedupe_txs-ascending :
    (txs : List PChainTxData)
    → Pairwise (λ a b. lt str_order (id_of a) (id_of b) ≡ true) (dedupe_txs txs)
dedupe_txs-ascending txs =
    Pairwise.imp_of_mem
      (λ a b ma mb (le, ne). elim (Bool-cases (str_order.le (id_of b) (id_of a))) [
        | inl ge ↦
            absurd
              (ne (dedupe_txs-IsKeyed txs a b ma mb (str_order.antisymm (id_of a) (id_of b) le ge)))
        | inr not_ge ↦ rw not_ge
      ])
      (Pairwise.and (dedupe_txs-IsSortedBy txs) (dedupe_txs-Nodup txs))
