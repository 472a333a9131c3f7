-- ===== src/Indexer/Outputs/Numbered.antt =====
-- The rows of the outputs of a transaction.
use Prim.Native.String.{String}
use flare_p_chain_indexer.Prelude.{
  ℕ, suc, ◌+◌, ◌%◌, ◌^◌, ◌≡◌, refl, sym, List, [], ◌∷◌, ◌++◌, map, length, arith, Run, ok, ok-inj,
  >>=-eq-ok, err-ne-ok,
}
use flare_p_chain_indexer.Database.{TxOutput}
use flare_p_chain_indexer.Indexer.Outputs.{
  OutputState, transfer_output, other_output, single_address, update_transferable_output,
  outputs_loop,
}

module _ (format_address : List ℕ → Run String) where
  -- The row of an output to one address, with the number `n`.
  abbrev pub IsRowOf : String → ℕ → OutputState → TxOutput → Type 0
  IsRowOf tx_id n (transfer_output amount (addr ∷ [])) o =
      (o.tx_id ≡ tx_id)
      × ((o.idx ≡ n % 2 ^ 32) × ((o.amount ≡ amount) × (format_address addr ≡ ok o.address)))
  IsRowOf tx_id n _ o = ⊥

  -- The rows of the outputs, in order, numbered from `n` on.
  abbrev pub AreRowsOf : String → ℕ → List OutputState → List TxOutput → Type 0
  AreRowsOf tx_id n [] [] = Unit
  AreRowsOf tx_id n (out ∷ outs) (o ∷ rows) =
      IsRowOf tx_id n out o × AreRowsOf tx_id (suc n) outs rows
  AreRowsOf tx_id n _ _ = ⊥

  pub AreRowsOf-append :
      (tx_id : String) (n : ℕ) (outs more : List OutputState) (rows rows' : List TxOutput)
      → AreRowsOf tx_id n outs rows
      → AreRowsOf tx_id (length rows + n) more rows'
      → AreRowsOf tx_id n (outs ++ more) (rows ++ rows')
  AreRowsOf-append tx_id n [] more [] rows' h k = let e : 0 + n ≡ n = omega arith in rw e at k
  AreRowsOf-append tx_id n [] more (o ∷ rows) rows' h k = absurd h
  AreRowsOf-append tx_id n (out ∷ outs) more [] rows' h k = absurd h
  AreRowsOf-append tx_id n (out ∷ outs) more (o ∷ rows) rows' (own, h) k =
      let e : suc (length rows) + n ≡ length rows + suc n = omega arith in
      (own, AreRowsOf-append tx_id (suc n) outs more rows rows' h (rw e at k))

  update_transferable_output-IsRowOf :
      (db_out : TxOutput) (n : ℕ) (out : OutputState) {o : TxOutput}
      → db_out.idx ≡ n % 2 ^ 32
      → update_transferable_output format_address db_out out ≡ ok o
      → IsRowOf db_out.tx_id n out o
  unfolding update_transferable_output single_address
  update_transferable_output-IsRowOf db_out n other_output idx e = absurd (err-ne-ok e)
  update_transferable_output-IsRowOf db_out n (transfer_output a []) idx e = absurd (err-ne-ok e)
  update_transferable_output-IsRowOf db_out n (transfer_output a (x ∷ y ∷ addrs)) idx e =
      absurd (err-ne-ok e)
  update_transferable_output-IsRowOf db_out n (transfer_output a (addr ∷ [])) idx e =
      let (address, found, same) = >>=-eq-ok (format_address addr) _ e in
      rw ((sym (ok-inj same)), found) (refl, (idx, (refl, refl)))

  module _ {Output : Type 0} (create : TxOutput → Output) (base : Output → TxOutput)
      (base-create : (o : TxOutput) → base (create o) ≡ o) where
    pub outputs_loop-AreRowsOf :
        (tx_id : String) (outi start : ℕ) (outs : List OutputState) {rows : List Output}
        → outputs_loop format_address create tx_id outi start outs ≡ ok rows
        → AreRowsOf tx_id (outi + start) outs (map base rows)
    unfolding outputs_loop
    outputs_loop-AreRowsOf tx_id outi start [] {rows} e = rw (sym (ok-inj e)) tt
    outputs_loop-AreRowsOf tx_id outi start (out ∷ outs) {rows} e =
        let db_out : TxOutput = record {
          tx_id = tx_id;
          amount = 0;
          idx = (outi + start) % 2 ^ 32;
          address = "";
        } in
        let (o, updated, run) =
          >>=-eq-ok (update_transferable_output format_address db_out out) _ e in
        let (rest, looped, same) =
          >>=-eq-ok (outputs_loop format_address create tx_id (outi + 1) start outs) _ run in
        let ih = outputs_loop-AreRowsOf tx_id (outi + 1) start outs looped in
        let next : outi + 1 + start ≡ suc (outi + start) = omega arith in
        rw ((sym (ok-inj same)), base-create o)
          (update_transferable_output-IsRowOf db_out (outi + start) out refl updated, rw next at ih)
