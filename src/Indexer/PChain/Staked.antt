-- ===== src/Indexer/PChain/Staked.antt =====
-- The outputs of a staking transaction of indexer/pchain/batch_indexer.go.
use Prim.Native.String.{String}
use flare_p_chain_indexer.Prelude.{
  ℕ, ◌+◌, ◌≡◌, refl, sym, ap, ◌∙◌, List, [], ◌∷◌, ◌++◌, map, length, arith, Run, ok, ok-inj,
  >>=-eq-ok, replicate,
}
use flare_p_chain_indexer.Database.{PChainOutputType, default_output, stake_output, PChainTxOutput}
use mathlib.Core.Path.{ap₂}
use flare_p_chain_indexer.Indexer.Outputs.{
  OutputState, update_transferable_output, outputs_loop, outputs_from_tx_outs,
}
use flare_p_chain_indexer.Indexer.Outputs.Numbered.{
  AreRowsOf, AreRowsOf-append, outputs_loop-AreRowsOf,
}
use flare_p_chain_indexer.Indexer.PChain.{
  PChainApi, Staker, create_output, get_add_staker_tx_outputs,
}
use flare_p_chain_indexer.Indexer.PChain.Updater.{base_of}

abbrev type_of : PChainTxOutput → PChainOutputType
type_of o = o.out_type

-- The rows of the outputs of a staking transaction: those of its outputs and then those of its
-- stake, numbered through, with their types.
pub record AreStakerRows (api : PChainApi) (tx_id : String) (tx : Staker)
    (rows : List PChainTxOutput) : Type 0 where
  pub numbered : AreRowsOf api.format_address tx_id 0 (tx.outputs ++ tx.stake) (map base_of rows)
  pub types :
      map type_of rows
      ≡ replicate (length tx.outputs) default_output ++ replicate (length tx.stake) stake_output

map-append {ℓ κ} :
    {A : Type ℓ} {B : Type κ} (f : A → B) (xs ys : List A) → map f (xs ++ ys) ≡ map f xs ++ map f ys
map-append f [] ys = refl
map-append f (x ∷ xs) ys = ap (λ l. f x ∷ l) (map-append f xs ys)

length-map {ℓ κ} :
    {A : Type ℓ} {B : Type κ} (f : A → B) (xs : List A) → length (map f xs) ≡ length xs
length-map f [] = refl
length-map f (x ∷ xs) = omega (arith, length-map f xs)

module _ (format_address : List ℕ → Run String) (out_type : PChainOutputType) (tx_id : String) where
  outputs_loop-types :
      (outi start : ℕ) (outs : List OutputState) {rows : List PChainTxOutput}
      → outputs_loop format_address (create_output out_type) tx_id outi start outs ≡ ok rows
      → map type_of rows ≡ replicate (length outs) out_type
  unfolding outputs_loop create_output
  outputs_loop-types outi start [] e = rw (sym (ok-inj e)) refl
  outputs_loop-types outi start (out ∷ outs) e =
      let (o, updated, run) = >>=-eq-ok (update_transferable_output format_address _ out) _ e in
      let (rest, looped, same) =
        >>=-eq-ok (outputs_loop format_address (create_output out_type) tx_id (outi + 1) start outs)
          _ run in
      rw (sym (ok-inj same))
        (ap (λ l. out_type ∷ l) (outputs_loop-types (outi + 1) start outs looped))

  outputs_from_tx_outs-rows :
      (start : ℕ) (outs : List OutputState) {rows : List PChainTxOutput}
      → outputs_from_tx_outs format_address (create_output out_type) tx_id outs start ≡ ok rows
      → AreRowsOf format_address tx_id start outs (map base_of rows)
        × (map type_of rows ≡ replicate (length outs) out_type)
  unfolding outputs_from_tx_outs create_output
  outputs_from_tx_outs-rows start outs e =
      let zero_start : 0 + start ≡ start = omega arith in
      (
        rw zero_start at (
            outputs_loop-AreRowsOf format_address (create_output out_type) base_of (λ o. refl) tx_id
              0 start outs e),
        outputs_loop-types 0 start outs e,
      )

-- If getAddStakerTxOutputs succeeds, then it returns one row for each output and then one for each
-- output of the stake, with their amount and their one address, the types of the two kinds, and the
-- indexes 0, 1, 2, ... at 32 bits through both.
pub get_add_staker_tx_outputs-AreStakerRows :
    (api : PChainApi) (tx_id : String) (tx : Staker) (rows : List PChainTxOutput)
    → get_add_staker_tx_outputs api tx_id tx ≡ ok rows
    → AreStakerRows api tx_id tx rows
unfolding get_add_staker_tx_outputs
get_add_staker_tx_outputs-AreStakerRows api tx_id tx rows e =
    let fa = api.format_address in
    let (outs, made, run) =
      >>=-eq-ok (outputs_from_tx_outs fa (create_output default_output) tx_id tx.outputs 0) _ e in
    let (stake_outs, made_stake, same) =
      >>=-eq-ok (outputs_from_tx_outs fa (create_output stake_output) tx_id tx.stake (length outs))
        _ run in
    let (rows_o, types_o) = outputs_from_tx_outs-rows fa default_output tx_id 0 tx.outputs made in
    let (rows_s, types_s) =
      outputs_from_tx_outs-rows fa stake_output tx_id (length outs) tx.stake made_stake in
    let start : length outs ≡ length (map base_of outs) + 0 =
      omega (arith, length-map base_of outs) in
    rw (sym (ok-inj same)) (record {
      numbered = rw (map-append base_of outs stake_outs) (
          AreRowsOf-append fa tx_id 0 tx.outputs tx.stake (map base_of outs)
            (map base_of stake_outs) rows_o (rw start at rows_s));
      types = map-append type_of outs stake_outs ∙ ap₂ ◌++◌ types_o types_s;
    })
