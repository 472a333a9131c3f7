-- ===== src/Indexer/Outputs.antt =====
-- indexer/shared/base_tx.go: the inputs and outputs of a transaction become rows. The types of
-- avalanchego show what the code reads of them; the formatting of addresses is a parameter.
pub mod Numbered
use Prim.Native.String.{String}
use flare_p_chain_indexer.Prelude.{
  ℕ, ◌+◌, ◌%◌, ◌^◌, List, [], ◌∷◌, ◌==◌, length, if◌then◌else◌, Run, ok, err, errorf, ◌>>=◌,
}
use flare_p_chain_indexer.Database.{TxInput, TxOutput}

-- the dynamic type of `verify.State`: *secp256k1fx.TransferOutput with its amount and its
-- addresses, or another one
pub data OutputState : Type 0 where
  transfer_output : ℕ → List (List ℕ) → OutputState
  other_output : OutputState

-- the dynamic type of `fx.Owner`: *secp256k1fx.OutputOwners with its addresses, or another one
pub data Owner : Type 0 where
  output_owners : List (List ℕ) → Owner
  other_owner : Owner

pub record TransferableInput : Type 0 where
  pub amount : ℕ
  pub tx_id : String
  pub output_index : ℕ

pub record Utxo : Type 0 where
  pub output_index : ℕ
  pub out : OutputState

-- `avax.BaseTx`
pub record BaseTx : Type 0 where
  pub outs : List OutputState
  pub ins : List TransferableInput

-- InputsFromTxIns from its `ini`-th round on
unfoldable pub inputs_loop : String → ℕ → List TransferableInput → List TxInput
inputs_loop tx_id ini [] = []
inputs_loop tx_id ini (in_ ∷ ins) =
    record {
      in_idx = ini % 2 ^ 32;
      tx_id = tx_id;
      amount = in_.amount;
      address = "";
      out_tx_id = in_.tx_id;
      out_idx = in_.output_index;
    }
    ∷ inputs_loop tx_id (ini + 1) ins

unfoldable pub inputs_from_tx_ins : String → List TransferableInput → List TxInput
unfolding inputs_loop
inputs_from_tx_ins tx_id ins = inputs_loop tx_id 0 ins

-- `FormatAddressBytes` is a parameter.
module _ (format_address : List ℕ → Run String) where
  -- the address, if it is the only one
  unfoldable pub single_address : String → List (List ℕ) → Run String
  single_address text [] = err (errorf text)
  single_address text (addr ∷ []) = format_address addr
  single_address text (addr ∷ other ∷ addrs) = err (errorf text)

  unfoldable pub update_transferable_output : TxOutput → OutputState → Run TxOutput
  unfolding single_address
  update_transferable_output db_out other_output =
      err (errorf "TransferableOutput has unsupported type")
  update_transferable_output db_out (transfer_output amount addrs) = do
    addr ← single_address "TransferableOutput has 0 or more than one address" addrs
    ok (record db_out { amount = amount; address = addr })

  unfoldable pub rewards_owner_address : Owner → Run String
  unfolding single_address
  rewards_owner_address other_owner = err (errorf "rewards owner has unsupported type")
  rewards_owner_address (output_owners addrs) =
      single_address "rewards owner has 0 or more than one address" addrs

  module _ {Output : Type 0} (create_output : TxOutput → Output) where
    -- OutputsFromTxOuts from its `outi`-th round on
    unfoldable pub outputs_loop : String → ℕ → ℕ → List OutputState → Run (List Output)
    outputs_loop tx_id outi start_index [] = ok []
    outputs_loop tx_id outi start_index (out ∷ outs) = do
      let db_out : TxOutput = record {
        tx_id = tx_id;
        amount = 0;
        idx = (outi + start_index) % 2 ^ 32;
        address = "";
      }
      tx_out ← update_transferable_output db_out out
      rest ← outputs_loop tx_id (outi + 1) start_index outs
      ok (create_output tx_out ∷ rest)

    unfoldable pub outputs_from_tx_outs : String → List OutputState → ℕ → Run (List Output)
    unfolding outputs_loop
    outputs_from_tx_outs tx_id outs start_index = outputs_loop tx_id 0 start_index outs

    unfoldable pub outputs_from_utxo : String → List Utxo → Run (List Output)
    outputs_from_utxo tx_id [] = ok []
    outputs_from_utxo tx_id (utxo ∷ utxos) = do
      let db_out : TxOutput = record {
        tx_id = tx_id;
        amount = 0;
        idx = utxo.output_index;
        address = "";
      }
      tx_out ← update_transferable_output db_out utxo.out
      rest ← outputs_from_utxo tx_id utxos
      ok (create_output tx_out ∷ rest)
