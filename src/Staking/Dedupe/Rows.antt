-- ===== src/Staking/Dedupe/Rows.antt =====
-- The order of the database's rows does not change what DedupeTxs of utils/staking/utils.go returns.
use Prim.Native.String.{String}
use mathlib.Core.Logic.Or
use mathlib.Core.Option.{some-ne-none}
use mathlib.Core.List.{mem-cons, mem-cons_self, mem-cons_of_mem, not-mem-nil, perm_ext_iff_of_Nodup}
use mathlib.Core.List.Perm
use flare_p_chain_indexer.Prelude.{
  ◌≡◌, ◌≢◌, ◌↔◌, sym, ap, ◌∙◌, true, none, some, List, [], ◌∷◌, Mem, Perm, arith, Bool-cases,
  Option-cases, inl, inr,
}
use flare_p_chain_indexer.Prelude.Str.{str_eq_iff, str_order}
use flare_p_chain_indexer.Prelude.Order.{IsSortedBy-unique}
use flare_p_chain_indexer.Database.{PChainTxData}
use flare_p_chain_indexer.Staking.{id_of, dedupe_txs}
use flare_p_chain_indexer.Staking.Dedupe.{
  is_row_of, or_first, last_row, id_of-own, dedupe_txs-mem, dedupe_txs-Nodup, dedupe_txs-IsKeyed,
  dedupe_txs-IsSortedBy,
}

-- The rows that DedupeTxs considers: those with a TxID and input index 0.
abbrev pub IsCandidate : PChainTxData → Type 0
IsCandidate tx = (tx.tx_id ≢ none) × (tx.input_index ≡ 0)

-- A TxID has one row with input index 0, whatever repeats.
abbrev pub OneRowEach : List PChainTxData → Type 0
OneRowEach txs =
    (a b : PChainTxData)
    → Mem a txs
    → Mem b txs
    → IsCandidate a
    → IsCandidate b
    → a.tx_id ≡ b.tx_id
    → a ≡ b

is_row_of_iff :
    (id : String) (tx : PChainTxData)
    → (is_row_of id tx ≡ true) ↔ ((tx.tx_id ≡ some id) × (tx.input_index ≡ 0))
unfolding is_row_of
is_row_of_iff id tx = elim (Option-cases tx.tx_id) [
  | inl e ↦ ground (arith, e)
  | inr (i, e) ↦ ground (arith, e, str_eq_iff i id)
]

-- The last row of a TxID is one of its candidates.
pub last_row-candidate :
    (id : String) (txs : List PChainTxData) (tx : PChainTxData)
    → last_row id txs ≡ some tx
    → Mem tx txs × (tx.tx_id ≡ some id) × (tx.input_index ≡ 0)
unfolding last_row or_first
last_row-candidate id [] tx e = cc
last_row-candidate id (x ∷ txs) tx e = elim (Option-cases (last_row id txs)) [
  | inr (t, found) ↦
      let same : t ≡ tx = ground (arith, found) in
      let (m, own, z) = last_row-candidate id txs tx (rw (← same) found) in
      (mem-cons_of_mem x m, own, z)
  | inl missing ↦ elim (Bool-cases (is_row_of id x)) [
    | inl row ↦
        let same : x ≡ tx = ground (arith, missing) in
        let (own, z) = (is_row_of_iff id x).0 row in rw (← same) (mem-cons_self, own, z)
    | inr other ↦ absurd (ground (arith, missing))
  ]
]

-- A TxID with a candidate has a last row.
last_row-ne-none :
    (id : String) (txs : List PChainTxData) (tx : PChainTxData)
    → Mem tx txs
    → is_row_of id tx ≡ true
    → last_row id txs ≢ none
unfolding last_row or_first
last_row-ne-none id [] tx mem row = absurd (not-mem-nil mem)
last_row-ne-none id (x ∷ txs) tx mem row =
    Or.elim (hlevel) (mem-cons.0 mem)
      (λ e. let own : is_row_of id x ≡ true = rw (← e) row in ground arith)
      (λ rest. ground (arith, last_row-ne-none id txs tx rest row))

-- With one row for each TxID, DedupeTxs keeps exactly the candidates.
pub dedupe_txs-candidates :
    (tx : PChainTxData) (txs : List PChainTxData)
    → OneRowEach txs
    → Mem tx (dedupe_txs txs) ↔ (Mem tx txs × IsCandidate tx)
dedupe_txs-candidates tx txs one = (
  λ mem.
      let (m, own, z) = last_row-candidate (id_of tx) txs tx ((dedupe_txs-mem tx txs).0 mem) in
      (m, ((λ e. some-ne-none _ (sym own ∙ e)), z)),
  λ (mem, candidate). (dedupe_txs-mem tx txs).1 (elim (Option-cases tx.tx_id) [
    | inl e ↦ absurd (candidate.0 e)
    | inr (id, own) ↦
        let here = id_of-own tx id own in
        let row = (is_row_of_iff id tx).1 (own, candidate.1) in
        elim (Option-cases (last_row id txs)) [
          | inl missing ↦ absurd (last_row-ne-none id txs tx mem row missing)
          | inr (t, found) ↦
              let (m, t_own, z) = last_row-candidate id txs t found in
              let same : t ≡ tx =
                one t tx m mem ((λ e. some-ne-none _ (sym t_own ∙ e)), z) candidate
                  (t_own ∙ sym own) in
              rw here (found ∙ ap some same)
        ]
  ]),
)

-- Rows in another order give the same transactions in the same order.
pub dedupe_txs-perm :
    (txs rows : List PChainTxData)
    → OneRowEach txs
    → Perm txs rows
    → dedupe_txs txs ≡ dedupe_txs rows
dedupe_txs-perm txs rows one p =
    let one' : OneRowEach rows =
      λ a b ma mb. one a b ((Perm.mem_iff p).1 ma) ((Perm.mem_iff p).1 mb) in
    let same_members : (tx : PChainTxData) → Mem tx (dedupe_txs txs) ↔ Mem tx (dedupe_txs rows) =
      λ tx. (
        (λ m.
            let (inside, c) = (dedupe_txs-candidates tx txs one).0 m in
            (dedupe_txs-candidates tx rows one').1 ((Perm.mem_iff p).0 inside, c)),
        (λ m.
            let (inside, c) = (dedupe_txs-candidates tx rows one').0 m in
            (dedupe_txs-candidates tx txs one).1 ((Perm.mem_iff p).1 inside, c)),
      ) in
    IsSortedBy-unique str_order id_of (dedupe_txs txs) (dedupe_txs rows) (dedupe_txs-IsKeyed txs)
      (dedupe_txs-IsSortedBy txs) (dedupe_txs-IsSortedBy rows)
      ((perm_ext_iff_of_Nodup (dedupe_txs-Nodup txs) (dedupe_txs-Nodup rows)).1 same_members)
