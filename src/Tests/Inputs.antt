-- ===== src/Tests/Inputs.antt =====
-- A run of UpdateWithOutputs on concrete inputs.
use Prim.Native.String.{String}
use flare_p_chain_indexer.Prelude.{◌≡◌, refl, true, some, List, [], ◌∷◌}
use flare_p_chain_indexer.Prelude.Maps.{insert, lookup, add_to_set}
use flare_p_chain_indexer.Database.{TxOutput}
use flare_p_chain_indexer.Indexer.{Slot, Cache, new_cache, cache_outputs, update_with_outputs}

abbrev output : TxOutput
output = record { tx_id = "t"; amount = 5; idx = 1; address = "alice" }

abbrev spends : String → Slot
spends id = record {
  input = record { in_idx = 0; tx_id = "u"; amount = 5; address = ""; out_tx_id = id; out_idx = 1 };
  listed = true;
}

abbrev slots : List Slot
slots = spends "t" ∷ spends "v" ∷ []

abbrev cached : Cache
cached = record { cache_map = (record { id = "t"; index = 1 }, some output) ∷ []; accessed = [] }

outputs_cached : cache_outputs (output ∷ []) new_cache ≡ cached
unfolding cache_outputs insert
outputs_cached = refl

one_missing : (update_with_outputs slots cached).0.1 ≡ "v" ∷ []
unfolding update_with_outputs lookup add_to_set
one_missing = refl
