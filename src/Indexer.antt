-- ===== src/Indexer.antt =====
-- indexer/shared/in_updater.go and utils/cache.go: the inputs of transactions get the addresses of
-- the outputs that they spend.
pub mod Spent
pub mod Batch
pub mod Outputs
pub mod InOut
pub mod PChain
pub mod XChain
use Prim.Native.String.{String}
use mathlib.Core.Path.{ap₂}
use flare_p_chain_indexer.Prelude.{
  ℕ, ◌≡◌, ◌↔◌, refl, ap, Bool, true, false, ◌&&◌, Option, none, some, List, [], ◌∷◌, ◌++◌, map,
  ◌==◌, ==_iff, arith, if◌then◌else◌,
}
use flare_p_chain_indexer.Prelude.Str.{str_eq, str_eq_iff}
use flare_p_chain_indexer.Prelude.Maps.{
  Eq, Assoc, lookup, insert, delete, contains, add_to_set, string_eq,
}
use flare_p_chain_indexer.Database.{TxInput, TxOutput}

pub record IdIndexKey : Type 0 where
  pub id : String
  pub index : ℕ

abbrev pub key_beq : IdIndexKey → IdIndexKey → Bool
key_beq k j = str_eq k.id j.id && k.index == j.index

pub key_beq_iff : (k j : IdIndexKey) → (key_beq k j ≡ true) ↔ (k ≡ j)
key_beq_iff k j = (
  λ e.
      let both : (str_eq k.id j.id ≡ true) × ((k.index == j.index) ≡ true) = ground (arith, e) in
      ap₂ (λ (i : String) (n : ℕ). record { id = i; index = n }) ((str_eq_iff k.id j.id).0 both.0)
        ((==_iff k.index j.index).0 both.1),
  λ e. rw e (rw ((str_eq_iff j.id j.id).1 refl, (==_iff j.index j.index).1 refl) refl),
)

instance abbrev pub key_eq : Eq IdIndexKey
key_eq = record { beq = key_beq; beq_iff = key_beq_iff }

-- Cached outputs; `none` stands for the `nil` output of a genesis transaction.
pub record Cache : Type 0 where
  pub cache_map : Assoc IdIndexKey (Option TxOutput)
  pub accessed : List IdIndexKey

abbrev pub new_cache : Cache
new_cache = record { cache_map = []; accessed = [] }

unfoldable pub cache_add : IdIndexKey → Option TxOutput → Cache → Cache
cache_add k v c = record c { cache_map = insert k v c.cache_map }

unfoldable pub cache_get : IdIndexKey → Cache → Option (Option TxOutput) × Cache
cache_get k c =
    let v = lookup k c.cache_map in
    (v, elim v [ none ↦ c | some _ ↦ record c { accessed = c.accessed ++ k ∷ [] } ])

unfoldable pub delete_all :
    List IdIndexKey → Assoc IdIndexKey (Option TxOutput) → Assoc IdIndexKey (Option TxOutput)
delete_all [] m = m
delete_all (k ∷ keys) m = delete_all keys (delete k m)

unfoldable pub remove_accessed : Cache → Cache
unfolding delete_all
remove_accessed c = record { cache_map = delete_all c.accessed c.cache_map; accessed = [] }

-- CacheOutputs
unfoldable pub cache_outputs : List TxOutput → Cache → Cache
unfolding cache_add
cache_outputs [] c = c
cache_outputs (out ∷ outs) c =
    cache_outputs outs (cache_add (record { id = out.tx_id; index = out.idx }) (some out) c)

-- An input of the batch, which the list shares with it, and whether it stands in the list.
pub record Slot : Type 0 where
  pub input : TxInput
  pub listed : Bool

abbrev pub key_of : TxInput → IdIndexKey
key_of input = record { id = input.out_tx_id; index = input.out_idx }

unfoldable pub update_addr : TxInput → Option TxOutput → TxInput
update_addr input none = record input { address = input.out_tx_id }
update_addr input (some out) = record input { address = out.address }

-- one round of UpdateWithOutputs
unfoldable pub update_slot : Slot → List String → Cache → (Slot × List String) × Cache
unfolding cache_get update_addr
update_slot s missing_tx_ids c =
    let (v, c') = cache_get (key_of s.input) c in
    let looked_up : Slot × List String = elim v [
      | some out ↦ (record { input = update_addr s.input out; listed = false }, missing_tx_ids)
      | none ↦ (s, add_to_set missing_tx_ids s.input.out_tx_id)
    ] in
    if s.listed then (looked_up, c') else ((s, missing_tx_ids), c)

-- UpdateWithOutputs on the cache: the inputs, and the set of missing transactions
unfoldable pub update_loop : List Slot → List String → Cache → (List Slot × List String) × Cache
unfolding update_slot
update_loop [] missing_tx_ids c = (([], missing_tx_ids), c)
update_loop (s ∷ slots) missing_tx_ids c =
    let ((s', missing), c') = update_slot s missing_tx_ids c in
    let ((rest, missing'), c'') = update_loop slots missing c' in ((s' ∷ rest, missing'), c'')

unfoldable pub update_with_outputs : List Slot → Cache → (List Slot × List String) × Cache
unfolding update_loop
update_with_outputs slots c = update_loop slots [] c
