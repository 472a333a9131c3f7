-- ===== src/Indexer/InOut.antt =====
-- indexer/shared/inout_indexer.go, and the steps of the input updaters of indexer/pchain/in_updater.go
-- and indexer/xchain/in_updater.go that the two chains share.
pub mod Slots
pub mod Resolved
pub mod Rows
use Prim.Native.String.{String}
use flare_p_chain_indexer.Prelude.{
  ℕ, true, Option, none, some, List, [], ◌∷◌, ◌++◌, map, Run, ok, err, panic, errorf,
}
use flare_p_chain_indexer.Prelude.Maps.{Assoc, insert}
use flare_p_chain_indexer.Exec.{Exec, pure, fail, lift, continue, ◌>>=◌, ◌>>◌}
use flare_p_chain_indexer.Database.{TxInput, TxOutput}
use flare_p_chain_indexer.Indexer.{
  IdIndexKey, key_eq, Cache, remove_accessed, cache_outputs, Slot, update_with_outputs,
}
use flare_p_chain_indexer.Indexer.Outputs.{BaseTx, inputs_from_tx_ins, outputs_from_tx_outs}

abbrev pub OutputMap : Type 0
OutputMap = Assoc IdIndexKey (Option TxOutput)

abbrev pub out_key : TxOutput → IdIndexKey
out_key out = record { id = out.tx_id; index = out.idx }

-- The inputs that an updater works on, with its cache.
pub record InputList : Type 0 where
  pub slots : List Slot
  pub cache : Cache

-- `UpdateInputs` of an `InputUpdater`
abbrev pub Updater : Type 0
Updater = Exec InputList (List String)

unfoldable pub update_inputs_from_cache : Updater
update_inputs_from_cache l =
    let ((slots, missing), cache) = update_with_outputs l.slots l.cache in
    (ok missing, record { slots = slots; cache = cache })

-- UpdateWithOutputs on an `OutputMap`: a cache that nobody asks what was read
unfoldable pub update_from_map : OutputMap → Updater
update_from_map m l =
    let ((slots, missing), read) =
      update_with_outputs l.slots (record { cache_map = m; accessed = [] }) in
    (ok missing, record l { slots = slots })

-- `&out.TxOutput` in the loop of updateFromDB. At Go 1.18 all rounds share the variable `out`, so that
-- this is one address.
pub data Address : Type 0 where
  loop_variable : Address

-- The loop of updateFromDB: what its variable holds, and the map of addresses.
unfoldable pub db_loop :
    List TxOutput
    → Option TxOutput
    → Assoc IdIndexKey Address
    → Option TxOutput × Assoc IdIndexKey Address
db_loop [] variable base_outs = (variable, base_outs)
db_loop (out ∷ outs) variable base_outs =
    db_loop outs (some out) (insert (out_key out) loop_variable base_outs)

-- what the addresses of a map point to
unfoldable pub pointees : (Address → Option TxOutput) → Assoc IdIndexKey Address → OutputMap
pointees memory [] = []
pointees memory ((k, address) ∷ base_outs) = (k, memory address) ∷ pointees memory base_outs

-- the map, as UpdateWithOutputs reads it after the loop
unfoldable pub db_outputs : List TxOutput → OutputMap
unfolding db_loop pointees
db_outputs outs =
    let (variable, base_outs) = db_loop outs none [] in pointees (λ address. variable) base_outs

unfoldable pub update_from_db : (List String → Run (List TxOutput)) → List String → Updater
unfolding db_outputs update_from_map
update_from_db fetch missing_tx_ids = do
  outs ← lift (fetch missing_tx_ids)
  update_from_map (db_outputs outs)

unfoldable pub put_outputs : List (IdIndexKey × Option TxOutput) → OutputMap → OutputMap
put_outputs [] m = m
put_outputs ((k, out) ∷ outs) m = put_outputs outs (insert k out m)

-- the loop of updateFromChain, with the outputs that one round adds; the set comes in some order
unfoldable pub chain_outputs :
    (String → Run (List (IdIndexKey × Option TxOutput))) → List String → OutputMap → Run OutputMap
unfolding put_outputs
chain_outputs outs_of [] m = ok m
chain_outputs outs_of (tx_id ∷ tx_ids) m = elim (outs_of tx_id) [
  | ok outs ↦ chain_outputs outs_of tx_ids (put_outputs outs m)
  | err e ↦ err e
  | panic ↦ panic
]

unfoldable pub update_from_chain :
    (String → Run (List (IdIndexKey × Option TxOutput))) → List String → Updater
unfolding chain_outputs update_from_map
update_from_chain outs_of missing_tx_ids = do
  fetched_outs ← lift (chain_outputs outs_of missing_tx_ids [])
  update_from_map fetched_outs

-- UpdateInputs of both chains
unfoldable pub update_inputs_with :
    (List String → Run (List TxOutput))
    → (String → Run (List (IdIndexKey × Option TxOutput)))
    → Updater
unfolding update_inputs_from_cache update_from_db update_from_chain
update_inputs_with fetch outs_of = do
  missing ← update_inputs_from_cache
  still_missing ← update_from_db fetch missing
  update_from_chain outs_of still_missing

-- `InputOutputIndexer`, with the cache of its updater
pub record InputOutputIndexer (Output : Type 0) : Type 0 where
  pub outs : List Output
  pub ins : List TxInput
  pub cache : Cache

abbrev pub listed_slot : TxInput → Slot
listed_slot input = record { input = input; listed = true }

abbrev pub input_of : Slot → TxInput
input_of s = s.input

-- what UpdateInputs makes of the set of missing transactions
unfoldable pub check_missing : List String → Run (Unit {0})
check_missing [] = ok tt
check_missing (id ∷ ids) = err (errorf "unable to fetch transactions")

module _ {Output : Type 0} where
  unfoldable pub reset : InputOutputIndexer Output → InputOutputIndexer Output
  reset iox = record { outs = []; ins = []; cache = remove_accessed iox.cache }

  unfoldable pub add_entities :
      List Output → List TxInput → InputOutputIndexer Output → InputOutputIndexer Output
  add_entities outs ins iox = record iox { outs = iox.outs ++ outs; ins = iox.ins ++ ins }

  unfoldable pub add_new_from_base_tx :
      (List ℕ → Run String)
      → (TxOutput → Output)
      → String
      → BaseTx
      → Exec (InputOutputIndexer Output) (Unit {0})
  unfolding add_entities
  add_new_from_base_tx format_address create tx_id tx = do
    outs ← lift (outputs_from_tx_outs format_address create tx_id tx.outs 0)
    λ iox. (ok tt, add_entities outs (inputs_from_tx_ins tx_id tx.ins) iox)

  -- UpdateInputs on the inputs of the batch, which the list shares with it
  unfoldable pub update_inputs : Updater → Exec (InputOutputIndexer Output) (Unit {0})
  unfolding check_missing
  update_inputs updater iox =
      let (r, l) = updater (record { slots = map listed_slot iox.ins; cache = iox.cache }) in
      continue r (λ missing iox'. (check_missing missing, iox'))
        (record iox { ins = map input_of l.slots; cache = l.cache })

  unfoldable pub process_batch :
      (Output → TxOutput) → Updater → Exec (InputOutputIndexer Output) (Unit {0})
  unfolding update_inputs
  process_batch base updater iox =
      update_inputs updater (record iox { cache = cache_outputs (map base iox.outs) iox.cache })
