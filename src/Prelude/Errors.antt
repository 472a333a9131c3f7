-- ===== src/Prelude/Errors.antt =====
-- The texts of errors.
use Prim.Native.String.{String}
use text.Mathlib.Text.{find?}
use mathlib.Core.Bool.{Bool, true, false}
use mathlib.Core.Option.{none, some}
use flare_p_chain_indexer.Prelude.Runs.{
  Error, empty_tree, invalid_index, hash_not_found, no_epochs_to_mirror,
  no_epochs_to_register_addresses, no_epochs_to_aggregate, errorf, wrap,
}

unfoldable pub str_append : String → String → String
str_append String.[] t = t
str_append (String.◌∷◌ c s) t = String.◌∷◌ c (str_append s t)

-- `err.Error()`
unfoldable pub error_text : Error → String
unfolding str_append
error_text empty_tree = "empty tree"
error_text invalid_index = "invalid index"
error_text hash_not_found = "hash not found"
error_text no_epochs_to_mirror = "no epochs to mirror"
error_text no_epochs_to_register_addresses = "no epochs to register addresses"
error_text no_epochs_to_aggregate = "no epochs to aggregate"
error_text (errorf text) = text
error_text (wrap text e) = str_append text (str_append ": " (error_text e))

-- `strings.Contains(err.Error(), needle)`
unfoldable pub contains_text : Error → String → Bool
unfolding error_text
contains_text e needle = elim (find? (error_text e) needle) [ none ↦ false | some _ ↦ true ]
