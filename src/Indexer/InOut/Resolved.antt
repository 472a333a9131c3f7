-- ===== src/Indexer/InOut/Resolved.antt =====
-- ProcessBatch of indexer/shared/inout_indexer.go with the input updater of a chain.
use Prim.Native.String.{String}
use flare_p_chain_indexer.Prelude.{
  if◌then◌else◌, ◌≡◌, ◌≢◌, Option, none, some, List, [], map, Mem, Run, ok,
}
use flare_p_chain_indexer.Prelude.Maps.{lookup, contains, string_eq}
use flare_p_chain_indexer.Database.{TxInput, TxOutput}
use flare_p_chain_indexer.Indexer.{IdIndexKey, key_eq, cache_outputs, key_of}
use flare_p_chain_indexer.Indexer.Spent.{resolve, is_waiting}
use flare_p_chain_indexer.Indexer.InOut.{
  OutputMap, InputList, Updater, db_outputs, chain_outputs, update_inputs_with, InputOutputIndexer,
}
use flare_p_chain_indexer.Indexer.InOut.Rows.{has_key, last_row}
use flare_p_chain_indexer.Indexer.InOut.Slots.{with_address}

-- The output from which an input gets its address: the one in the cache under the key of the output
-- that it spends; or, if the database has returned a row with that key, the last row that it has
-- returned; or the one from the chain under that key.
pub source_of : OutputMap → List TxOutput → OutputMap → IdIndexKey → Option (Option TxOutput)
source_of cached rows fetched k = elim (lookup k cached) [
  | some out ↦ some out
  | none ↦ if has_key k rows then some (last_row rows) else lookup k fetched
]

-- What becomes of the inputs of a batch: each has an address, from the source above.
pub record Resolved (fetch : List String → Run (List TxOutput))
    (outs_of : String → Run (List (IdIndexKey × Option TxOutput))) (cached : OutputMap)
    (ins ins' : List TxInput) : Type 0 where
  pub ids : List String
  pub rows : List TxOutput
  pub stored : fetch ids ≡ ok rows
  pub missing : List String
  pub fetched : OutputMap
  pub answered : chain_outputs outs_of missing [] ≡ ok fetched
  pub addressed : ins' ≡ map (λ i. with_address i (source_of cached rows fetched (key_of i))) ins
  pub known : (i : TxInput) → Mem i ins → source_of cached rows fetched (key_of i) ≢ none

module _ (fetch : List String → Run (List TxOutput))
    (outs_of : String → Run (List (IdIndexKey × Option TxOutput))) where
  abbrev updater : Updater
  updater = update_inputs_with fetch outs_of

  -- what one update from a map does
  record Step (m : OutputMap) (l : InputList) (missing : List String) (l' : InputList)
      : Type 0 where
    slots : l'.slots ≡ map (resolve m) l.slots
    waiting : (id : String) → contains missing id ≡ is_waiting id l'.slots

  -- what UpdateInputs does
  record Updated (l l' : InputList) (missing : List String) : Type 0 where
    ids : List String
    rows : List TxOutput
    stored : fetch ids ≡ ok rows
    asked : List String
    fetched : OutputMap
    answered : chain_outputs outs_of asked [] ≡ ok fetched
    slots :
        l'.slots
        ≡ map
            (resolve fetched)
            (map (resolve (db_outputs rows)) (map (resolve l.cache.cache_map) l.slots))
    waiting : (id : String) → contains missing id ≡ is_waiting id l'.slots

  module _ {Output : Type 0} (base : Output → TxOutput) where
    abbrev pub cached_by : InputOutputIndexer Output → OutputMap
    cached_by iox = (cache_outputs (map base iox.outs) iox.cache).cache_map
