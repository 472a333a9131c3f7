-- ===== src/Database/PChain/Pages.antt =====
-- The pages of FetchPChainStakingTransactions of database/pchain_queries.go.
use Prim.Native.String.{String}
use mathlib.Core.Bool.{Bool-set}
use mathlib.Core.Path.{ap₂}
use mathlib.Core.Logic.Or
use mathlib.Core.Logic.{∥∥₁_map}
use mathlib.Core.List.{Pairwise, mem-cons, mem-cons_self, mem-cons_of_mem, not-mem-nil, Mem-prop}
use mathlib.Core.List.Perm
use flare_p_chain_indexer.Prelude.{
  ◌≡◌, ◌≢◌, ◌↔◌, refl, sym, ap, ◌∙◌, Bool, true, not, ◌&&◌, ◌||◌, Bool-cases, Option-cases, inl,
  inr, arith, Option, none, some, List, [], ◌∷◌, map, take, drop, Mem, rows_where, mem-rows_where,
  mem_of_mem-rows_where, if◌then◌else◌, ok, ok-inj, err-ne-ok, >>=-eq-ok, or_else, panic,
  or_else-eq-ok,
}
use flare_p_chain_indexer.Prelude.Int.{ℤ, pos, pos_part, leb_ℤ}
use flare_p_chain_indexer.Prelude.Str.{str_eq, str_eq_iff}
use flare_p_chain_indexer.Prelude.Order.{sort_by, sort_by-perm, sort_by-IsSortedBy}
use flare_p_chain_indexer.Prelude.Time.{Time}
use flare_p_chain_indexer.Database.{
  PChainTx, PChainTxType, TxInput, add_validator_tx, add_delegator_tx,
}
use flare_p_chain_indexer.Database.PChain.Blocks.{answer-eq-ok}
use flare_p_chain_indexer.Database.PChain.{
  PChainTables, type_eq, on_value, any_of, inputs_of, is_empty, page, ids_of, id_key, same_id,
  distinct_ids, by_tx_id, staking_rows, fetch_p_chain_staking_transactions,
}

same_id_iff : (a b : PChainTx) → (same_id a b ≡ true) ↔ (a.tx_id ≡ b.tx_id)
same_id_iff a b = elim (Option-cases a.tx_id) [
  | inl e ↦ elim (Option-cases b.tx_id) [
    | inl f ↦ rw (e, f) ((λ h. refl), (λ h. refl))
    | inr (j, f) ↦ rw (e, f) ((λ h. cc), (λ h. cc))
  ]
  | inr (i, e) ↦ elim (Option-cases b.tx_id) [
    | inl f ↦ rw (e, f) ((λ h. cc), (λ h. cc))
    | inr (j, f) ↦ rw (e, f) ((λ h. ap some ((str_eq_iff i j).0 h)), (λ h. (str_eq_iff i j).1 cc))
  ]
]

different : (a b : PChainTx) → not (same_id a b) ≡ true → a.tx_id ≢ b.tx_id
different a b h e = let same = (same_id_iff a b).1 e in ground (arith, h, same)

distinct_ids-mem : (l : List PChainTx) (tx : PChainTx) → Mem tx (distinct_ids l) → Mem tx l
unfolding distinct_ids
distinct_ids-mem [] tx m = m
distinct_ids-mem (x ∷ l) tx m =
    Or.elim Mem-prop (mem-cons.0 m) (λ e. rw e mem-cons_self)
      (λ rest.
        ∥∥₁_rec Mem-prop (λ (inside, new). mem-cons_of_mem x (distinct_ids-mem l tx inside))
          (mem_of_mem-rows_where (λ (o : PChainTx). not (same_id x o)) tx (distinct_ids l) rest))

-- Every row is there, or one with its identifier.
distinct_ids_complete :
    (l : List PChainTx) (tx : PChainTx)
    → Mem tx l
    → ∥ ((r : PChainTx) × (Mem r (distinct_ids l) × (r.tx_id ≡ tx.tx_id))) ∥₁
unfolding distinct_ids
distinct_ids_complete [] tx m = absurd (not-mem-nil m)
distinct_ids_complete (x ∷ l) tx m =
    Or.elim squash₁ (mem-cons.0 m)
      (λ e. ∣ (x, (mem-cons_self, ap (λ (r : PChainTx). r.tx_id) (sym e))) ∣₁)
      (λ rest. ∥∥₁_map (distinct_ids_complete l tx rest) (λ (r, (inside, same)).
        elim (Bool-cases (same_id x r)) [
          | inl e ↦ (x, (mem-cons_self, (same_id_iff x r).0 e ∙ same))
          | inr new ↦ (
            r,
            (
              mem-cons_of_mem x (
                  mem-rows_where (λ (o : PChainTx). not (same_id x o)) r (distinct_ids l) inside
                    (ap not new)),
              same,
            ),
          )
        ]))

-- what a row of a filtered list is
where_mem :
    (f : PChainTx → Bool) (l : List PChainTx) (tx : PChainTx)
    → Mem tx (rows_where f l)
    → Mem tx l × (f tx ≡ true)
where_mem f l tx m =
    let both = mem_of_mem-rows_where f tx l m in
    (∥∥₁_rec Mem-prop (λ p. p.0) both, ∥∥₁_rec (Bool-set _ _) (λ p. p.1) both)

module _ {R : PChainTx → PChainTx → Type 0} where
  Pairwise-rows_where :
      (f : PChainTx → Bool) (l : List PChainTx) → Pairwise R l → Pairwise R (rows_where f l)
  Pairwise-rows_where f [] Pairwise.nil = Pairwise.nil
  Pairwise-rows_where f (x ∷ l) (Pairwise.cons below s) = elim (Bool-cases (f x)) [
    | inl passed ↦
        rw passed
          (Pairwise.cons (λ tx m. below tx (where_mem f l tx m).0) (Pairwise-rows_where f l s))
    | inr failed ↦ rw failed (Pairwise-rows_where f l s)
  ]

module _ (t : PChainTables) where
  -- The first row does not come after the second, and has another identifier.
  abbrev pub IsBefore : PChainTx → PChainTx → Type 0
  IsBefore a b = (t.collation.le (id_key a) (id_key b) ≡ true) × (a.tx_id ≢ b.tx_id)

  distinct_ids-Pairwise :
      (l : List PChainTx)
      → Pairwise (λ a b. t.collation.le (id_key a) (id_key b) ≡ true) l
      → Pairwise IsBefore (distinct_ids l)
  unfolding distinct_ids
  distinct_ids-Pairwise [] Pairwise.nil = Pairwise.nil
  distinct_ids-Pairwise (x ∷ l) (Pairwise.cons below s) =
      let new = λ (o : PChainTx). not (same_id x o) in
      Pairwise.cons
        (λ tx m.
          let (inside, other) = where_mem new (distinct_ids l) tx m in
          (below tx (distinct_ids-mem l tx inside), different x tx other))
        (Pairwise-rows_where new (distinct_ids l) (distinct_ids-Pairwise l s))

  module _ (tx_type : PChainTxType) (node_id address : String) (time : Option Time) where
    -- The rows that the list is of: of the type, and, for what is given, of the node, with an input
    -- from the address, and with the time from start to end.
    abbrev pub is_listed : PChainTx → Bool
    is_listed tx =
        type_eq tx.tx_type tx_type
        && (is_empty node_id || str_eq tx.node_id node_id)
        && elim time [
          | none ↦ true
          | some now ↦
              on_value tx.start_time (λ s. leb_ℤ s now) && on_value tx.end_time (λ e. leb_ℤ now e)
        ]
        && (is_empty address
            || any_of (λ (i : TxInput). str_eq i.address address) (inputs_of t.ins tx))

    -- The identifiers from the offset on, as many as the limit; 100 for a limit that is not positive.
    abbrev pub IsPart : List PChainTx → ℤ → ℤ → List String → Type 0
    IsPart rows offset limit ids =
        map some ids
        ≡ map (λ (tx : PChainTx). tx.tx_id)
            (take (if leb_ℤ limit (pos 0) then 100 else pos_part limit)
              (drop (pos_part offset) rows))

    -- The pages are parts of one list in ascending order in which no identifier stands twice, of rows
    -- of the table that are listed, with the identifiers of all of them.
    pub record ArePages (offset limit : ℤ) (ids : List String) (offset' limit' : ℤ)
        (ids' : List String) : Type 0 where
      pub rows : List PChainTx
      pub ascending : Pairwise IsBefore rows
      pub sound : (tx : PChainTx) → Mem tx rows → Mem tx t.txs × (is_listed tx ≡ true)
      pub complete :
          (tx : PChainTx)
          → Mem tx t.txs
          → is_listed tx ≡ true
          → ∥ ((r : PChainTx) × (Mem r rows × (r.tx_id ≡ tx.tx_id))) ∥₁
      pub part : IsPart rows offset limit ids
      pub part' : IsPart rows offset' limit' ids'

    ids_of-map :
        (txs : List PChainTx) (ids : List String)
        → ids_of txs ≡ ok ids
        → map some ids ≡ map (λ (tx : PChainTx). tx.tx_id) txs
    unfolding ids_of
    ids_of-map [] ids e = rw (sym (ok-inj e)) refl
    ids_of-map (tx ∷ txs) ids e =
        let (id, named, run) = >>=-eq-ok (or_else tx.tx_id panic) _ e in
        let (rest, rested, same) = >>=-eq-ok (ids_of txs) _ run in
        rw (sym (ok-inj same)) (
          ap₂ (λ (i : Option String) (is : List (Option String)). i ∷ is)
            (sym (or_else-eq-ok tx.tx_id named)) (ids_of-map txs rest rested))

    staking_rows-eq :
        (txs : List PChainTx)
        → staking_rows t tx_type node_id address time ≡ ok txs
        → txs ≡ rows_where is_listed t.txs
    unfolding staking_rows
    staking_rows-eq txs e = elim (Bool-cases wrong) [
      | inl refused ↦ absurd (err-ne-ok (rw refused at e))
      | inr right ↦ sym (answer-eq-ok t (rows_where is_listed t.txs) (rw right at e))
    ]
      where
        wrong : Bool
        wrong = not (type_eq tx_type add_validator_tx) && not (type_eq tx_type add_delegator_tx)

    -- Whatever two pages FetchPChainStakingTransactions answers for one filter, they are the parts that
    -- their offsets and limits name, with 100 for a limit that is not positive, of one list: in
    -- ascending order, without an identifier twice, and of exactly the identifiers of the table's
    -- transactions of the type that are, for what is given, of the node, with an input from the
    -- address, and active at the time.
    pub fetch_p_chain_staking_transactions-ArePages :
        (offset limit : ℤ) (ids : List String) (offset' limit' : ℤ) (ids' : List String)
        → fetch_p_chain_staking_transactions t tx_type node_id address time offset limit ≡ ok ids
        → fetch_p_chain_staking_transactions t tx_type node_id address time offset' limit' ≡ ok ids'
        → ArePages offset limit ids offset' limit' ids'
    unfolding fetch_p_chain_staking_transactions by_tx_id page
    fetch_p_chain_staking_transactions-ArePages offset limit ids offset' limit' ids' run run' =
        let (txs, answered, found) =
          >>=-eq-ok (staking_rows t tx_type node_id address time) _ run in
        let found' = rw answered at run' in
        let listed = staking_rows-eq txs answered in
        let sorted = sort_by t.collation id_key txs in
        let same_rows = sort_by-perm t.collation id_key txs in
        record {
          rows = distinct_ids sorted;
          ascending = distinct_ids-Pairwise sorted (sort_by-IsSortedBy t.collation id_key txs);
          sound = λ tx m.
              where_mem is_listed t.txs tx
                (rw (sym listed) ((Perm.mem_iff same_rows).0 (distinct_ids-mem sorted tx m)));
          complete = λ tx m h.
              distinct_ids_complete sorted tx
                ((Perm.mem_iff same_rows).1 (rw listed (mem-rows_where is_listed tx t.txs m h)));
          part = ids_of-map _ ids found;
          part' = ids_of-map _ ids' found';
        }
