-- ===== src/Indexer/InOut/Rows.antt =====
-- updateFromDB of indexer/pchain/in_updater.go and indexer/xchain/in_updater.go: the loop keeps the
-- address of a field of its variable, which after the loop holds the last row.
use mathlib.Core.Path.{ap₂}
use flare_p_chain_indexer.Prelude.{
  ◌≡◌, refl, ap, ◌∙◌, false, ◌||◌, ◌&&◌, Bool, Bool-cases, inl, inr, Option, none, some, List, [],
  ◌∷◌, map, arith, if◌then◌else◌, Run, ok,
}
use flare_p_chain_indexer.Prelude.Maps.{Assoc, lookup, insert, lookup-insert}
use flare_p_chain_indexer.Prelude.Maps.{string_eq}
use flare_p_chain_indexer.Exec.{bind-run, lift}
use Prim.Native.String.{String}
use flare_p_chain_indexer.Database.{TxOutput}
use flare_p_chain_indexer.Indexer.{IdIndexKey, key_beq, key_eq, Slot, key_of, update_addr}
use flare_p_chain_indexer.Indexer.Spent.{resolve, update_with_outputs-IsUpdate}
use flare_p_chain_indexer.Indexer.InOut.{
  InputList, out_key, Address, loop_variable, db_loop, pointees, db_outputs, update_from_map,
  update_from_db,
}

-- A row has the key.
pub has_key : IdIndexKey → List TxOutput → Bool
has_key k [] = false
has_key k (out ∷ outs) = key_beq (out_key out) k || has_key k outs

last_from : Option TxOutput → List TxOutput → Option TxOutput
last_from last [] = last
last_from last (out ∷ outs) = last_from (some out) outs

-- the last of the rows
pub last_row : List TxOutput → Option TxOutput
last_row outs = last_from none outs

db_loop-variable :
    (outs : List TxOutput) (variable : Option TxOutput) (m : Assoc IdIndexKey Address)
    → (db_loop outs variable m).0 ≡ last_from variable outs
unfolding db_loop last_from
db_loop-variable [] variable m = refl
db_loop-variable (out ∷ outs) variable m =
    db_loop-variable outs (some out) (insert (out_key out) loop_variable m)

lookup-db_loop :
    (outs : List TxOutput) (variable : Option TxOutput) (m : Assoc IdIndexKey Address)
    (k : IdIndexKey)
    → lookup k (db_loop outs variable m).1
      ≡ (if has_key k outs then some loop_variable else lookup k m)
unfolding db_loop has_key
lookup-db_loop [] variable m k = refl
lookup-db_loop (out ∷ outs) variable m k = ground (
  arith,
  lookup-db_loop outs (some out) (insert (out_key out) loop_variable m) k,
  lookup-insert (out_key out) k loop_variable m,
)

lookup-pointees :
    (memory : Address → Option TxOutput) (m : Assoc IdIndexKey Address) (k : IdIndexKey)
    → lookup k (pointees memory m)
      ≡ elim (lookup k m) [ none ↦ none | some address ↦ some (memory address) ]
unfolding pointees lookup
lookup-pointees memory [] k = refl
lookup-pointees memory ((j, address) ∷ m) k = elim (Bool-cases (key_beq j k)) [
  | inl same ↦ rw same refl
  | inr other ↦ rw other (lookup-pointees memory m k)
]

-- In the map of updateFromDB every key of a row stands for the last row.
pub lookup-db_outputs :
    (outs : List TxOutput) (k : IdIndexKey)
    → lookup k (db_outputs outs) ≡ (if has_key k outs then some (last_row outs) else none)
unfolding db_outputs last_row lookup
lookup-db_outputs outs k =
    let (variable, m) = db_loop outs none [] in
    let held : variable ≡ last_from none outs = db_loop-variable outs none [] in
    lookup-pointees (λ address. variable) m k ∙ elim (Bool-cases (has_key k outs)) [
      | inl there ↦ rw (lookup-db_loop outs none [] k, there, held) refl
      | inr missing ↦ rw (lookup-db_loop outs none [] k, missing) refl
    ]

-- An input of the list whose output has a row is updated, by the last row.
pub updated_by_last : List TxOutput → Slot → Slot
updated_by_last outs s =
    if s.listed && has_key (key_of s.input) outs
    then record { input = update_addr s.input (last_row outs); listed = false }
    else s

resolve-db_outputs :
    (outs : List TxOutput) (s : Slot) → resolve (db_outputs outs) s ≡ updated_by_last outs s
unfolding resolve updated_by_last
resolve-db_outputs outs s = elim (Bool-cases (has_key (key_of s.input) outs)) [
  | inl there ↦ rw (lookup-db_outputs outs (key_of s.input), there) (ground arith)
  | inr missing ↦ rw (lookup-db_outputs outs (key_of s.input), missing) (ground arith)
]

map-resolve :
    (outs : List TxOutput) (slots : List Slot)
    → map (resolve (db_outputs outs)) slots ≡ map (updated_by_last outs) slots
map-resolve outs [] = refl
map-resolve outs (s ∷ slots) =
    ap₂ (λ (x : Slot) (xs : List Slot). x ∷ xs) (resolve-db_outputs outs s) (map-resolve outs slots)

-- If the database returns rows, then updateFromDB updates exactly the inputs of the list for whose
-- output a row was returned, and all of them by the last row, whichever row is that of their output.
pub update_from_db-last :
    (fetch : List String → Run (List TxOutput)) (ids : List String) (l : InputList)
    (outs : List TxOutput)
    → fetch ids ≡ ok outs
    → (update_from_db fetch ids l).1.slots ≡ map (updated_by_last outs) l.slots
unfolding update_from_db update_from_map
update_from_db-last fetch ids l outs fetched =
    let next = λ (rows : List TxOutput). update_from_map (db_outputs rows) in
    let updated =
      update_with_outputs-IsUpdate l.slots
        (record { cache_map = db_outputs outs; accessed = [] }) in
    ap (λ (p : Run (List String) × InputList). p.1.slots)
      (bind-run (lift (fetch ids)) next l fetched)
    ∙ updated.resolved
    ∙ map-resolve outs l.slots
