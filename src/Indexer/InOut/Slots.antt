-- ===== src/Indexer/InOut/Slots.antt =====
-- The slots of a batch after the outputs of three maps.
use Prim.Native.String.{String}
use mathlib.Core.Path.{ap₂}
use mathlib.Core.Logic.Or
use mathlib.Core.List.{mem-cons, not-mem-nil}
use flare_p_chain_indexer.Prelude.{
  ◌≡◌, ◌≢◌, refl, false, Option, none, some, List, [], ◌∷◌, map, Mem, arith,
}
use flare_p_chain_indexer.Prelude.Str.{str_eq_iff}
use flare_p_chain_indexer.Prelude.Maps.{lookup, string_eq}
use flare_p_chain_indexer.Database.{TxInput, TxOutput}
use flare_p_chain_indexer.Indexer.{IdIndexKey, key_eq, Slot, key_of, update_addr}
use flare_p_chain_indexer.Indexer.Spent.{resolve, is_waiting}
use flare_p_chain_indexer.Indexer.InOut.{OutputMap, listed_slot, input_of}

-- The output as the first of the three maps that knows it has it.
unfoldable pub spent_output :
    OutputMap → OutputMap → OutputMap → IdIndexKey → Option (Option TxOutput)
spent_output cached stored fetched k = elim (lookup k cached) [
  | some out ↦ some out
  | none ↦ elim (lookup k stored) [ some out ↦ some out | none ↦ lookup k fetched ]
]

-- The input with the address of its output, if that is known.
pub with_address : TxInput → Option (Option TxOutput) → TxInput
with_address i none = i
with_address i (some out) = update_addr i out

pub final_slot : TxInput → Option (Option TxOutput) → Slot
final_slot i none = listed_slot i
final_slot i (some out) = record { input = update_addr i out; listed = false }

module _ (m₁ m₂ m₃ : OutputMap) where
  resolve_three :
      (i : TxInput)
      → resolve m₃ (resolve m₂ (resolve m₁ (listed_slot i)))
        ≡ final_slot i (spent_output m₁ m₂ m₃ (key_of i))
  unfolding resolve final_slot spent_output
  resolve_three i = ground arith

  pub map-resolve_three :
      (ins : List TxInput)
      → map (resolve m₃) (map (resolve m₂) (map (resolve m₁) (map listed_slot ins)))
        ≡ map (λ i. final_slot i (spent_output m₁ m₂ m₃ (key_of i))) ins
  map-resolve_three [] = refl
  map-resolve_three (i ∷ ins) =
      ap₂ (λ (s : Slot) (slots : List Slot). s ∷ slots) (resolve_three i) (map-resolve_three ins)

input_of-final_slot :
    (i : TxInput) (o : Option (Option TxOutput)) → (final_slot i o).input ≡ with_address i o
unfolding final_slot with_address
input_of-final_slot i none = refl
input_of-final_slot i (some out) = refl

module _ (known : TxInput → Option (Option TxOutput)) where
  pub map-input_of :
      (ins : List TxInput)
      → map input_of (map (λ i. final_slot i (known i)) ins)
        ≡ map (λ i. with_address i (known i)) ins
  map-input_of [] = refl
  map-input_of (i ∷ ins) =
      ap₂ (λ (j : TxInput) (js : List TxInput). j ∷ js) (input_of-final_slot i (known i))
        (map-input_of ins)

  -- Nobody waits: all are known.
  pub known_of_none_waiting :
      (ins : List TxInput)
      → ((id : String) → is_waiting id (map (λ i. final_slot i (known i)) ins) ≡ false)
      → (i : TxInput) → Mem i ins
      → known i ≢ none
  unfolding is_waiting final_slot
  known_of_none_waiting [] h i m e = not-mem-nil m
  known_of_none_waiting (j ∷ ins) h i m e =
      Or.elim (λ x y. absurd x) (mem-cons.0 m)
        (λ same.
          let at_j : known j ≡ none = rw same at e in
          absurd (ground (arith, at_j, h j.out_tx_id, str_eq_iff j.out_tx_id j.out_tx_id)))
        (λ rest. known_of_none_waiting ins (λ id. ground (arith, h id)) i rest e)
