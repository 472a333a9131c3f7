-- ===== src/Database/PChain.antt =====
-- database/pchain_queries.go: the tables of the P-chain as lists of rows, in the order of their
-- column `ID`, and the queries. Where a query leaves the order of its rows open, they come in the
-- order of the tables. A comparison with a missing value fails, as in SQL.
pub mod Pages
pub mod Blocks
use Prim.Native.String.{String}
use flare_p_chain_indexer.Prelude.{
  ℕ, Bool, true, false, not, ◌&&◌, ◌||◌, Option, none, some, List, [], ◌∷◌, ◌++◌, map, take, drop,
  rows_where, ltb, leb, ◌==◌, if◌then◌else◌, Run, ok, err, panic, Error, errorf, or_else, ◌>>=◌,
}
use flare_p_chain_indexer.Prelude.Int.{ℤ, pos_part, leb_ℤ, ltb_ℤ, pos}
use flare_p_chain_indexer.Prelude.Time.{Time}
use flare_p_chain_indexer.Prelude.Str.{str_eq}
use flare_p_chain_indexer.Prelude.Errors.{str_append}
use flare_p_chain_indexer.Prelude.Maps.{contains, string_eq}
use flare_p_chain_indexer.Prelude.Order.{LinearOrder, sort_by}
use flare_p_chain_indexer.Database.{
  PChainTx, PChainTxType, reward_validator_tx, add_delegator_tx, add_validator_tx, import_tx,
  export_tx, advance_time_tx, create_chain_tx, create_subnet_tx, add_subnet_validator_tx,
  unknown_tx, PChainTxData, PChainTxOutput, TxInput,
}

-- the tables, the error with which the database answers, if it does, and its order of texts
pub record PChainTables : Type 0 where
  pub txs : List PChainTx
  pub ins : List TxInput
  pub outs : List PChainTxOutput
  pub error : Option Error
  pub collation : LinearOrder String

-- what a query answers, if the database works
abbrev pub answer {ℓ} : {A : Type ℓ} → PChainTables → A → Run A
answer t a = elim t.error [ none ↦ ok a | some e ↦ err e ]

abbrev pub tx_type_number : PChainTxType → ℕ
tx_type_number reward_validator_tx = 0
tx_type_number add_delegator_tx = 1
tx_type_number add_validator_tx = 2
tx_type_number import_tx = 3
tx_type_number export_tx = 4
tx_type_number advance_time_tx = 5
tx_type_number create_chain_tx = 6
tx_type_number create_subnet_tx = 7
tx_type_number add_subnet_validator_tx = 8
tx_type_number unknown_tx = 9

abbrev pub type_eq : PChainTxType → PChainTxType → Bool
type_eq a b = tx_type_number a == tx_type_number b

-- a test of a column that may be missing
abbrev pub on_value {ℓ} : {A : Type ℓ} → Option A → (A → Bool) → Bool
on_value none f = false
on_value (some a) f = f a

abbrev pub has_id : String → PChainTx → Bool
has_id id tx = on_value tx.tx_id (λ i. str_eq i id)

-- the inputs of a transaction
unfoldable pub inputs_of : List TxInput → PChainTx → List TxInput
inputs_of ins tx = rows_where (λ (i : TxInput). has_id i.tx_id tx) ins

-- the rows of a left join for one transaction
unfoldable pub join_rows : PChainTx → List TxInput → List PChainTxData
join_rows tx [] = record { tx = tx; input_address = ""; input_index = 0 } ∷ []
join_rows tx (i ∷ ins) =
    map (λ (j : TxInput). record { tx = tx; input_address = j.address; input_index = j.in_idx })
      (i ∷ ins)

unfoldable pub join_inputs : PChainTables → List PChainTx → List PChainTxData
unfolding inputs_of join_rows
join_inputs t [] = []
join_inputs t (tx ∷ txs) = join_rows tx (inputs_of t.ins tx) ++ join_inputs t txs

unfoldable pub fetch_p_chain_tx_outputs : PChainTables → List String → Run (List PChainTxOutput)
fetch_p_chain_tx_outputs t ids =
    answer t (rows_where (λ (o : PChainTxOutput). contains ids o.tx_id) t.outs)

-- `db.Create` of a slice that is not empty
unfoldable pub create_rows {ℓ} : {A : Type ℓ} → Option Error → List A → List A → Run (List A)
create_rows error rows [] = ok rows
create_rows error rows (a ∷ new) = elim error [ none ↦ ok (rows ++ a ∷ new) | some e ↦ err e ]

unfoldable pub create_p_chain_entities :
    PChainTables → List PChainTx → List TxInput → List PChainTxOutput → Run PChainTables
unfolding create_rows
create_p_chain_entities t txs ins outs = do
  txs' ← create_rows t.error t.txs txs
  ins' ← create_rows t.error t.ins ins
  outs' ← create_rows t.error t.outs outs
  ok (record t { txs = txs'; ins = ins'; outs = outs' })

-- the row of the block that FindPChainTxInBlockHeight looks at, and whether the block exists
unfoldable pub first_in_block : String → List PChainTxData → Run (Option PChainTxData × Bool)
first_in_block tx_id [] = ok (none, false)
first_in_block tx_id (tx ∷ txs) = do
  id ← or_else tx.tx_id panic
  ok (if str_eq id tx_id then some tx else none, true)

unfoldable pub find_p_chain_tx_in_block_height :
    PChainTables → String → ℕ → Run (Option PChainTxData × Bool)
unfolding first_in_block
find_p_chain_tx_in_block_height t tx_id height = do
  txs ← answer t (join_inputs t (rows_where (λ (tx : PChainTx). tx.block_height == height) t.txs))
  first_in_block tx_id txs

abbrev pub is_staking : PChainTx → Bool
is_staking tx = type_eq tx.tx_type add_validator_tx || type_eq tx.tx_type add_delegator_tx

unfoldable pub fetch_p_chain_voting_data : PChainTables → Time → Time → Run (List PChainTxData)
unfolding join_inputs
fetch_p_chain_voting_data t from to = answer t (
    join_inputs t (
      rows_where
        (λ (tx : PChainTx).
          is_staking tx
          && on_value tx.start_time (λ s. leb_ℤ from s)
          && on_value tx.start_time (λ s. ltb_ℤ s to))
        t.txs))

unfoldable pub get_p_chain_txs_for_epoch : PChainTables → Time → Time → Run (List PChainTxData)
unfolding join_inputs
get_p_chain_txs_for_epoch t start_timestamp end_timestamp = answer t (
    join_inputs t (
      rows_where
        (λ (tx : PChainTx).
          on_value tx.start_time (λ s. leb_ℤ start_timestamp s)
          && on_value tx.start_time (λ s. ltb_ℤ s end_timestamp)
          && (type_eq tx.tx_type add_delegator_tx || type_eq tx.tx_type add_validator_tx))
        t.txs))

unfoldable pub fetch_node_staking_intervals :
    PChainTables → PChainTxType → Time → Time → Run (List PChainTx)
fetch_node_staking_intervals t tx_type start_time end_time =
    if not (type_eq tx_type add_validator_tx) && not (type_eq tx_type add_delegator_tx)
    then err (errorf "invalid transaction type")
    else answer t (
        rows_where
          (λ (tx : PChainTx).
            type_eq tx.tx_type tx_type
            && on_value tx.start_time (λ s. leb_ℤ s end_time)
            && on_value tx.end_time (λ s. leb_ℤ start_time s))
          t.txs)

-- `First`
abbrev pub first_row {ℓ} : {A : Type ℓ} → List A → Run A
first_row [] = err (errorf "record not found")
first_row (a ∷ rows) = ok a

unfoldable pub fetch_p_chain_tx : PChainTables → String → Run PChainTx
fetch_p_chain_tx t tx_id = do txs ← answer t (rows_where (has_id tx_id) t.txs); first_row txs

abbrev pub min_index : ℕ → List TxInput → ℕ
min_index n [] = n
min_index n (i ∷ ins) = min_index (if ltb i.in_idx n then i.in_idx else n) ins

-- the row of a transaction, with its inputs from the address as one group
unfoldable pub group_row : PChainTx → String → List TxInput → List PChainTxData
group_row tx address [] = []
group_row tx address (i ∷ ins) =
    record { tx = tx; input_address = address; input_index = min_index i.in_idx ins } ∷ []

unfoldable pub group_rows : PChainTables → String → List PChainTx → List PChainTxData
unfolding group_row inputs_of
group_rows t address [] = []
group_rows t address (tx ∷ txs) =
    group_row tx address
      (rows_where (λ (i : TxInput). str_eq i.address address) (inputs_of t.ins tx))
    ++ group_rows t address txs

abbrev pub head? {ℓ} : {A : Type ℓ} → List A → Option A
head? [] = none
head? (a ∷ rows) = some a

unfoldable pub fetch_p_chain_tx_data : PChainTables → String → String → Run (Option PChainTxData)
unfolding group_rows
fetch_p_chain_tx_data t tx_id address =
    answer t (head? (group_rows t address (rows_where (has_id tx_id) t.txs)))

-- `Offset(offset).Limit(limit)` with the defaults of the queries
unfoldable pub page {ℓ} : {A : Type ℓ} → ℤ → ℤ → List A → List A
page offset limit rows =
    take (if leb_ℤ limit (pos 0) then 100 else pos_part limit) (drop (pos_part offset) rows)

-- `*t.TxID`
unfoldable pub ids_of : List PChainTx → Run (List String)
ids_of [] = ok []
ids_of (tx ∷ txs) = do id ← or_else tx.tx_id panic; rest ← ids_of txs; ok (id ∷ rest)

-- the text by which a row is ordered; NULL comes first
abbrev pub id_key : PChainTx → String
id_key tx = elim tx.tx_id [ none ↦ "" | some id ↦ id ]

abbrev pub same_id : PChainTx → PChainTx → Bool
same_id a b = elim a.tx_id [
  | none ↦ elim b.tx_id [ none ↦ true | some j ↦ false ]
  | some i ↦ elim b.tx_id [ none ↦ false | some j ↦ str_eq i j ]
]

-- DISTINCT on the column `tx_id`
unfoldable pub distinct_ids : List PChainTx → List PChainTx
distinct_ids [] = []
distinct_ids (tx ∷ txs) =
    tx ∷ rows_where (λ (other : PChainTx). not (same_id tx other)) (distinct_ids txs)

-- `Order("tx_id").Distinct()`
unfoldable pub by_tx_id : PChainTables → List PChainTx → List PChainTx
unfolding distinct_ids
by_tx_id t txs = distinct_ids (sort_by t.collation id_key txs)

unfoldable pub is_empty : String → Bool
is_empty s = str_eq s ""

abbrev pub any_of {ℓ} : {A : Type ℓ} → (A → Bool) → List A → Bool
any_of f [] = false
any_of f (a ∷ rows) = f a || any_of f rows

-- the rows that FetchPChainStakingTransactions pages; `time` is `none` for the zero time
unfoldable pub staking_rows :
    PChainTables → PChainTxType → String → String → Option Time → Run (List PChainTx)
unfolding inputs_of is_empty
staking_rows t tx_type node_id address time =
    if not (type_eq tx_type add_validator_tx) && not (type_eq tx_type add_delegator_tx)
    then err (errorf "invalid transaction type")
    else answer t (
        rows_where
          (λ (tx : PChainTx).
            type_eq tx.tx_type tx_type
            && (is_empty node_id || str_eq tx.node_id node_id)
            && elim time [
              | none ↦ true
              | some now ↦
                  on_value tx.start_time (λ s. leb_ℤ s now)
                  && on_value tx.end_time (λ e. leb_ℤ now e)
            ]
            && (is_empty address
                || any_of (λ (i : TxInput). str_eq i.address address) (inputs_of t.ins tx)))
          t.txs)

unfoldable pub fetch_p_chain_staking_transactions :
    PChainTables → PChainTxType → String → String → Option Time → ℤ → ℤ → Run (List String)
unfolding staking_rows by_tx_id page ids_of
fetch_p_chain_staking_transactions t tx_type node_id address time offset limit =
    staking_rows t tx_type node_id address time >>= λ txs.
    ids_of (page offset limit (by_tx_id t txs))

unfoldable pub outputs_of : List PChainTxOutput → PChainTx → List PChainTxOutput
outputs_of outs tx = rows_where (λ (o : PChainTxOutput). has_id o.tx_id tx) outs

unfoldable pub fetch_p_chain_transfer_transactions :
    PChainTables → PChainTxType → String → ℤ → ℤ → Run (List String)
unfolding inputs_of outputs_of by_tx_id page ids_of is_empty
fetch_p_chain_transfer_transactions t tx_type address offset limit =
    if not (type_eq tx_type import_tx) && not (type_eq tx_type export_tx)
    then err (errorf "invalid transaction type")
    else answer t (
        rows_where
          (λ (tx : PChainTx).
            type_eq tx.tx_type tx_type
            && (is_empty address
                || (if type_eq tx_type import_tx
                    then any_of (λ (o : PChainTxOutput). str_eq o.address address)
                        (outputs_of t.outs tx)
                    else any_of (λ (i : TxInput). str_eq i.address address) (inputs_of t.ins tx))))
          t.txs)
      >>= λ txs. ids_of (page offset limit (by_tx_id t txs))
