-- ===== src/Database/PChain/Blocks.antt =====
-- FindPChainTxInBlockHeight, and the two queries for the transactions of an epoch, of
-- database/pchain_queries.go.
use Prim.Native.String.{String}
use mathlib.Core.List.{mem-cons_self, mem-cons_of_mem}
use flare_p_chain_indexer.Prelude.{
  ℕ, ◌≡◌, refl, sym, ap, ◌∙◌, inl, inr, Bool, true, false, Bool-cases, Option-cases, some-inj,
  ==_iff, arith, if◌then◌else◌, Option, none, some, List, [], ◌∷◌, ◌++◌, Mem, ◌==◌, rows_where, ok,
  ok-inj, err-ne-ok, panic-ne-ok, >>=-eq-ok,
}
use flare_p_chain_indexer.Prelude.Str.{str_eq, str_eq_iff}
use flare_p_chain_indexer.Prelude.Time.{Time}
use flare_p_chain_indexer.Database.{PChainTx, PChainTxData, TxInput}
use flare_p_chain_indexer.Database.PChain.{
  PChainTables, answer, any_of, join_rows, join_inputs, inputs_of, first_in_block,
  find_p_chain_tx_in_block_height, fetch_p_chain_voting_data, get_p_chain_txs_for_epoch,
}

rows_where_ext {ℓ} :
    {A : Type ℓ} (f g : A → Bool) (xs : List A)
    → ((a : A) → f a ≡ g a)
    → rows_where f xs ≡ rows_where g xs
rows_where_ext f g [] h = refl
rows_where_ext f g (x ∷ xs) h = rw (h x, rows_where_ext f g xs h) refl

-- The query of the voting cronjob and that of the mirror cronjob and of the mirroring service
-- answer the same rows, so that all build the same tree for an epoch.
pub fetch_p_chain_voting_data-get_p_chain_txs_for_epoch :
    (t : PChainTables) (from to : Time)
    → fetch_p_chain_voting_data t from to ≡ get_p_chain_txs_for_epoch t from to
unfolding fetch_p_chain_voting_data get_p_chain_txs_for_epoch
fetch_p_chain_voting_data-get_p_chain_txs_for_epoch t from to =
    ap (λ txs. answer t (join_inputs t txs)) (rows_where_ext _ _ t.txs (λ tx. ground arith))

join_rows-head :
    (tx : PChainTx) (ins : List TxInput)
    → (d : PChainTxData) × (rest : List PChainTxData) × ((d.tx ≡ tx)
        × (join_rows tx ins ≡ d ∷ rest))
unfolding join_rows
join_rows-head tx [] = (_, _, (refl, refl))
join_rows-head tx (i ∷ ins) = (_, _, (refl, refl))

-- The first row of a join is of the first transaction.
join_inputs-head :
    (t : PChainTables) (tx : PChainTx) (txs : List PChainTx)
    → (d : PChainTxData) × (rest : List PChainTxData) × ((d.tx ≡ tx)
        × (join_inputs t (tx ∷ txs) ≡ d ∷ rest))
unfolding join_inputs
join_inputs-head t tx txs =
    let (d, rest, (same, e)) = join_rows-head tx (inputs_of t.ins tx) in
    (d, rest ++ join_inputs t txs, (same, rw e refl))

-- What FindPChainTxInBlockHeight finds.
pub record FoundIn (t : PChainTables) (tx_id : String) (height : ℕ)
    (result : Option PChainTxData × Bool) : Type 0 where
  -- the block exists if a row of the table is of that height
  pub exists : result.1 ≡ any_of (λ (tx : PChainTx). tx.block_height == height) t.txs
  -- what is found is a transaction of the block, and the one that was asked for
  pub sound :
      (d : PChainTxData)
      → result.0 ≡ some d
      → (d.tx_id ≡ some tx_id) × ((d.block_height ≡ height) × Mem d.tx t.txs)
  -- the only transaction of a block is found
  pub lone :
      ((tx : PChainTx) → Mem tx t.txs → tx.block_height ≡ height → tx.tx_id ≡ some tx_id)
      → result.1 ≡ true
      → (d : PChainTxData) × (result.0 ≡ some d)

any_of-rows_where {ℓ} :
    {A : Type ℓ} (f : A → Bool) (xs : List A) (x : A) (rest : List A)
    → rows_where f xs ≡ x ∷ rest
    → any_of f xs ≡ true
any_of-rows_where f [] x rest e = cc e
any_of-rows_where f (y ∷ xs) x rest e = elim (Bool-cases (f y)) [
  | inl h ↦ rw h refl
  | inr h ↦ rw h (any_of-rows_where f xs x rest (rw h at e))
]

any_of-rows_where-none {ℓ} :
    {A : Type ℓ} (f : A → Bool) (xs : List A) → rows_where f xs ≡ [] → any_of f xs ≡ false
any_of-rows_where-none f [] e = refl
any_of-rows_where-none f (y ∷ xs) e = elim (Bool-cases (f y)) [
  | inl h ↦ cc (rw h at e)
  | inr h ↦ rw h (any_of-rows_where-none f xs (rw h at e))
]

-- The first row that passes a test is a row, and passes it.
first_passes :
    (f : PChainTx → Bool) (xs : List PChainTx) (x : PChainTx) (rest : List PChainTx)
    → rows_where f xs ≡ x ∷ rest
    → Mem x xs × (f x ≡ true)
first_passes f [] x rest e = cc e
first_passes f (y ∷ xs) x rest e = elim (Bool-cases (f y)) [
  | inl h ↦ let same : y ≡ x = cc (rw h at e) in rw (sym same) (mem-cons_self, h)
  | inr h ↦ let (m, k) = first_passes f xs x rest (rw h at e) in (mem-cons_of_mem y m, k)
]

pub answer-eq-ok {ℓ} : {A : Type ℓ} (t : PChainTables) (a : A) {b : A} → answer t a ≡ ok b → a ≡ b
answer-eq-ok t a e = elim (Option-cases t.error) [
  | inl works ↦ ok-inj (rw works at e)
  | inr (x, fails) ↦ absurd (err-ne-ok (rw fails at e))
]

module _ (t : PChainTables) (tx_id : String) (height : ℕ) where
  abbrev at_height : PChainTx → Bool
  at_height tx = tx.block_height == height

  found_none : rows_where at_height t.txs ≡ [] → FoundIn t tx_id height (none, false)
  found_none e = record {
    exists = sym (any_of-rows_where-none at_height t.txs e);
    sound = λ d h. cc h;
    lone = λ only h. cc h;
  }

  found_first :
      (tx : PChainTx) (rest : List PChainTx) (d : PChainTxData) (id : String)
      → rows_where at_height t.txs ≡ tx ∷ rest
      → d.tx ≡ tx
      → d.tx_id ≡ some id
      → FoundIn t tx_id height (if str_eq id tx_id then some d else none, true)
  found_first tx rest d id e same named =
      let (inside, high) = first_passes at_height t.txs tx rest e in
      record {
        exists = sym (any_of-rows_where at_height t.txs tx rest e);
        sound = λ d' h. elim (Bool-cases (str_eq id tx_id)) [
          | inl asked ↦
              let d_is : d ≡ d' = some-inj (rw asked at h) in
              rw ((sym d_is), same)
                (
                  ap (λ (r : PChainTx). r.tx_id) (sym same)
                      ∙ named
                      ∙ ap some ((str_eq_iff id tx_id).0 asked),
                  ((==_iff tx.block_height height).0 high, inside),
                )
          | inr other ↦ cc (rw other at h)
        ];
        lone = λ only there.
            let id_is : id ≡ tx_id = some-inj (
              sym named
              ∙ ap (λ (r : PChainTx). r.tx_id) same
              ∙ only tx inside ((==_iff tx.block_height height).0 high)) in
            (d, rw ((str_eq_iff id tx_id).1 id_is) refl);
      }

  from_rows :
      (rows : List PChainTx)
      → rows_where at_height t.txs ≡ rows
      → (result : Option PChainTxData × Bool)
      → first_in_block tx_id (join_inputs t (rows_where at_height t.txs)) ≡ ok result
      → FoundIn t tx_id height result
  unfolding first_in_block join_inputs
  from_rows [] e result run = rw (sym (ok-inj (rw e at run))) (found_none e)
  from_rows (tx ∷ rest) e result run =
      let (d, more, (same, joined)) = join_inputs-head t tx rest in
      let run' = ap (first_in_block tx_id) (sym (ap (join_inputs t) e ∙ joined)) ∙ run in
      elim (Option-cases d.tx_id) [
        | inl missing ↦ absurd (panic-ne-ok (rw missing at run'))
        | inr (id, named) ↦
            rw (sym (ok-inj (rw named at run'))) (found_first tx rest d id e same named)
      ]

  -- If FindPChainTxInBlockHeight returns no error, then it reports that the block exists exactly if
  -- a row of the table is of that height; a transaction that it returns stands in the table, at that
  -- height, and is the one that was asked for; and if all the transactions of an existing block
  -- have the identifier that was asked for, one is found.
  pub find_p_chain_tx_in_block_height-FoundIn :
      (result : Option PChainTxData × Bool)
      → find_p_chain_tx_in_block_height t tx_id height ≡ ok result
      → FoundIn t tx_id height result
  unfolding find_p_chain_tx_in_block_height
  find_p_chain_tx_in_block_height-FoundIn result run =
      let (txs, answered, found) = >>=-eq-ok (answer t _) (first_in_block tx_id) run in
      from_rows (rows_where at_height t.txs) refl result
        (ap (first_in_block tx_id) (answer-eq-ok t _ answered) ∙ found)
