-- ===== src/Indexer/XChain/Vertices.antt =====
-- The rows of a vertex: AddContainer of indexer/xchain/batch_indexer.go.
use Prim.Native.String.{String}
use mathlib.Core.List.{append-nil, append_assoc}
use flare_p_chain_indexer.Prelude.{
  ℕ, ◌≡◌, refl, sym, ap, ◌∙◌, List, [], ◌∷◌, ◌++◌, Run, ok, err-ne-ok, panic-ne-ok,
}
use flare_p_chain_indexer.Exec.{bind-eq-ok, bind-run, lift}
use flare_p_chain_indexer.Database.XChain.{XChainTx, base_tx, import_tx, XChainTxType}
use flare_p_chain_indexer.Indexer.XChain.{
  XChainApi, Container, Vertex, UnsignedTx, base, import_from, other_tx, Tx, TxBatchIndexer,
  add_base_tx, add_unsigned_tx, add_transaction, add_transactions, check_parents, first_parent,
  append_vertex, append_vertex_row, add_vertex, add_container,
}

abbrev row_with : String → ℕ → XChainTxType → String → List ℕ → XChainTx
row_with id height tx_type memo bytes = record {
  tx_type = tx_type;
  tx_id = id;
  vtx_height = height;
  memo = memo;
  bytes = bytes;
}

-- the row of a transaction, if it is of a type that is indexed
abbrev pub row_of : String → ℕ → List ℕ → UnsignedTx → List XChainTx
row_of id height bytes (base memo tx) = row_with id height base_tx memo bytes ∷ []
row_of id height bytes (import_from memo tx) = row_with id height import_tx memo bytes ∷ []
row_of id height bytes other_tx = []

-- The rows of the transactions of a vertex that are indexed, in order.
abbrev pub AreTxRows : XChainApi → ℕ → List (List ℕ) → List XChainTx → Type 0
AreTxRows api height [] rows = rows ≡ []
AreTxRows api height (bytes ∷ txs) rows =
    (tx : Tx) × (rest : List XChainTx) × ((api.parse_genesis_tx bytes ≡ ok tx)
      × ((rows ≡ row_of tx.id height bytes tx.unsigned ++ rest) × AreTxRows api height txs rest))

-- What AddContainer has done: it has added the row of the vertex with its one parent, and the rows
-- of its transactions.
pub record AddedVertex (api : XChainApi) (index : ℕ) (container : Container)
    (xi xi' : TxBatchIndexer) : Type 0 where
  pub vtx : Vertex
  pub parsed : api.parse_vertex container.bytes ≡ ok vtx
  pub parent_id : String
  pub only_parent : vtx.parent_ids ≡ parent_id ∷ []
  pub vertex_row :
      xi'.new_vertices
      ≡ xi.new_vertices
        ++ record {
          vtx_id = vtx.id;
          parent_id = parent_id;
          vtx_index = index;
          height = vtx.height;
          timestamp = container.timestamp;
        }
          ∷ []
  pub rows : List XChainTx
  pub tx_rows : xi'.new_txs ≡ xi.new_txs ++ rows
  pub each : AreTxRows api vtx.height vtx.txs rows

one_parent :
    (ids : List String) {parent_id : String}
    → check_parents ids ≡ ok tt
    → first_parent ids ≡ ok parent_id
    → ids ≡ parent_id ∷ []
unfolding check_parents first_parent
one_parent [] h k = absurd (panic-ne-ok k)
one_parent (id ∷ []) h k = cc k
one_parent (id ∷ other ∷ ids) h k = absurd (err-ne-ok h)

module _ (api : XChainApi) where
  add_unsigned_tx-row :
      (id : String) (height : ℕ) (u : UnsignedTx) (bytes : List ℕ) (xi : TxBatchIndexer)
      → ((add_unsigned_tx api id height u bytes xi).1.new_txs
          ≡ xi.new_txs ++ row_of id height bytes u)
        × ((add_unsigned_tx api id height u bytes xi).1.new_vertices ≡ xi.new_vertices)
  unfolding add_unsigned_tx add_base_tx
  add_unsigned_tx-row id height (base memo tx) bytes xi = (refl, refl)
  add_unsigned_tx-row id height (import_from memo tx) bytes xi = (refl, refl)
  add_unsigned_tx-row id height other_tx bytes xi = (sym (append-nil xi.new_txs), refl)

  add_transactions-rows :
      (height : ℕ) (txs : List (List ℕ)) (xi : TxBatchIndexer)
      → (add_transactions api height txs xi).0 ≡ ok tt
      → (rows : List XChainTx) × (((add_transactions api height txs xi).1.new_txs
            ≡ xi.new_txs ++ rows)
          × (((add_transactions api height txs xi).1.new_vertices ≡ xi.new_vertices)
              × AreTxRows api height txs rows))
  unfolding add_transactions add_transaction
  add_transactions-rows height [] xi run = ([], (sym (append-nil xi.new_txs), (refl, refl)))
  add_transactions-rows height (bytes ∷ txs) xi run =
      let first = add_transaction api height bytes in
      let (done, added, run_r) = bind-eq-ok first (λ _. add_transactions api height txs) xi run in
      let (tx, parsed, switched) = bind-eq-ok (lift (api.parse_genesis_tx bytes)) _ xi added in
      let one = λ (t : Tx). add_unsigned_tx api t.id height t.unsigned bytes in
      let same : first xi ≡ one tx xi =
        bind-run (lift (api.parse_genesis_tx bytes)) one xi parsed in
      let xi₁ = (one tx xi).1 in
      let (new_txs, new_vertices) = add_unsigned_tx-row tx.id height tx.unsigned bytes xi in
      let whole : add_transactions api height (bytes ∷ txs) xi
          ≡ add_transactions api height txs xi₁ =
        bind-run first (λ _. add_transactions api height txs) xi added
        ∙ ap (λ (p : Run (Unit {0}) × TxBatchIndexer). add_transactions api height txs p.1) same in
      let (rest, (more, (same_v, each))) =
        add_transactions-rows height txs xi₁
          (ap (λ (p : Run (Unit {0}) × TxBatchIndexer). p.0) (sym whole) ∙ run) in
      (
        row_of tx.id height bytes tx.unsigned ++ rest,
        (
          rw whole (
              more
              ∙ ap (λ l. l ++ rest) new_txs
              ∙ append_assoc xi.new_txs (row_of tx.id height bytes tx.unsigned) rest),
          (rw whole (same_v ∙ new_vertices), (tx, rest, (parsed, (refl, each)))),
        ),
      )

  -- If AddContainer of the X-chain succeeds, then the vertex has exactly one parent, and the batch
  -- has one new row for the vertex and one for each of its base and import transactions, in order;
  -- transactions of other types have none.
  pub add_container-AddedVertex :
      (index : ℕ) (container : Container) (xi : TxBatchIndexer)
      → (add_container api index container xi).0 ≡ ok tt
      → AddedVertex api index container xi (add_container api index container xi).1
  unfolding add_container add_vertex append_vertex_row append_vertex
  add_container-AddedVertex index container xi run =
      let (vtx, parsed, run_v) = bind-eq-ok (lift (api.parse_vertex container.bytes)) _ xi run in
      let (u, checked, run_t) = bind-eq-ok (lift (check_parents vtx.parent_ids)) _ xi run_v in
      let add = add_transactions api vtx.height vtx.txs in
      let (v, added, run_p) =
        bind-eq-ok add (λ _. append_vertex_row index container vtx) xi run_t in
      let (parent_id, first, run_a) =
        bind-eq-ok (lift (first_parent vtx.parent_ids)) _ (add xi).1 run_p in
      let (rows, (tx_rows, (same, each))) = add_transactions-rows vtx.height vtx.txs xi added in
      rw (parsed, checked, added, first)
        (record {
          vtx = vtx;
          parsed = parsed;
          parent_id = parent_id;
          only_parent = one_parent vtx.parent_ids checked first;
          vertex_row = rw same refl;
          rows = rows;
          tx_rows = tx_rows;
          each = each;
        })
