-- ===== src/Indexer/Spent.antt =====
-- UpdateWithOutputs of indexer/shared/in_updater.go, followed by PurgeCache.
use Prim.Native.String.{String}
use mathlib.Core.Path.{ap₂}
use flare_p_chain_indexer.Prelude.{
  ◌≡◌, refl, ap, ◌∙◌, Bool, true, false, ◌&&◌, ◌||◌, Bool-cases, inl, inr, Option, none, some, List,
  [], ◌∷◌, ◌++◌, map, arith, if◌then◌else◌,
}
use flare_p_chain_indexer.Prelude.Str.{str_eq}
use flare_p_chain_indexer.Prelude.Maps.{
  Assoc, lookup, delete, lookup-delete, contains, contains-add_to_set, string_eq,
}
use flare_p_chain_indexer.Database.{TxOutput}
use flare_p_chain_indexer.Indexer.{
  IdIndexKey, key_beq, key_beq_iff, key_eq, Cache, cache_get, delete_all, remove_accessed, Slot,
  key_of, update_addr, update_slot, update_loop, update_with_outputs,
}

-- What becomes of an input: it is updated if its output is known, and stays in the list if not.
unfoldable pub resolve : Assoc IdIndexKey (Option TxOutput) → Slot → Slot
resolve m s =
    if s.listed
    then elim (lookup (key_of s.input) m) [
      | some out ↦ record { input = update_addr s.input out; listed = false }
      | none ↦ s
    ]
    else s

-- an input of the list spends an output of the transaction
unfoldable pub is_waiting : String → List Slot → Bool
is_waiting id [] = false
is_waiting id (s ∷ slots) = s.listed && str_eq s.input.out_tx_id id || is_waiting id slots

-- an input of the list spends the output
pub is_spent : IdIndexKey → List Slot → Bool
is_spent k [] = false
is_spent k (s ∷ slots) = s.listed && key_beq (key_of s.input) k || is_spent k slots

pub record IsUpdate (slots slots' : List Slot) (missing : List String) (c c' : Cache) : Type 0 where
  -- every input is updated or stays
  pub resolved : slots' ≡ map (resolve c.cache_map) slots
  -- the missing transactions are those of the inputs that stay
  pub waiting : (id : String) → contains missing id ≡ is_waiting id slots'
  -- a purge drops the outputs that were spent, and no other
  pub purged :
      (k : IdIndexKey)
      → lookup k (remove_accessed c').cache_map
        ≡ (if is_spent k slots || contains c.accessed k then none else lookup k c.cache_map)

lookup-delete_all :
    (keys : List IdIndexKey) (m : Assoc IdIndexKey (Option TxOutput)) (k : IdIndexKey)
    → lookup k (delete_all keys m) ≡ (if contains keys k then none else lookup k m)
unfolding delete_all contains
lookup-delete_all [] m k = refl
lookup-delete_all (x ∷ keys) m k =
    ground (arith, lookup-delete_all keys (delete x m) k, lookup-delete x k m)

known : Assoc IdIndexKey (Option TxOutput) → IdIndexKey → Bool
known m k = elim (lookup k m) [ none ↦ false | some _ ↦ true ]

contains_last :
    (keys : List IdIndexKey) (x k : IdIndexKey)
    → contains (keys ++ x ∷ []) k ≡ contains keys k || key_beq x k
unfolding contains
contains_last [] x k = ground arith
contains_last (y ∷ keys) x k = ground (arith, contains_last keys x k)

-- what one round does
record IsRound (s : Slot) (missing : List String) (c : Cache) (s' : Slot) (missing' : List String)
    (c' : Cache) : Type 0 where
  kept : c'.cache_map ≡ c.cache_map
  slot : s' ≡ resolve c.cache_map s
  more :
      (id : String)
      → contains missing' id ≡ contains missing id || s'.listed && str_eq s'.input.out_tx_id id
  read :
      (k : IdIndexKey)
      → contains c'.accessed k
        ≡ contains c.accessed k || (s.listed && key_beq (key_of s.input) k) && known c.cache_map k

module _ (s : Slot) (missing : List String) (c : Cache) where
  abbrev after : (Slot × List String) × Cache
  after = update_slot s missing c

  update_slot-kept : after.1.cache_map ≡ c.cache_map
  unfolding update_slot cache_get
  update_slot-kept = ground arith

  update_slot-resolve : after.0.0 ≡ resolve c.cache_map s
  unfolding update_slot cache_get resolve
  update_slot-resolve = ground arith

  update_slot-more :
      (id : String)
      → contains after.0.1 id
        ≡ contains missing id || after.0.0.listed && str_eq after.0.0.input.out_tx_id id
  unfolding update_slot cache_get
  update_slot-more id = ground (arith, contains-add_to_set missing s.input.out_tx_id id)

  update_slot-read :
      (k : IdIndexKey)
      → contains after.1.accessed k
        ≡ contains c.accessed k || (s.listed && key_beq (key_of s.input) k) && known c.cache_map k
  unfolding update_slot cache_get known
  update_slot-read k = elim (Bool-cases (key_beq (key_of s.input) k)) [
    | inl same ↦
        let key : key_of s.input ≡ k = (key_beq_iff (key_of s.input) k).0 same in
        ground (
          arith,
          same,
          ap (λ j. lookup j c.cache_map) key,
          contains_last c.accessed (key_of s.input) k,
        )
    | inr differ ↦ ground (arith, differ, contains_last c.accessed (key_of s.input) k)
  ]

  update_slot-IsRound : IsRound s missing c after.0.0 after.0.1 after.1
  update_slot-IsRound = record {
    kept = update_slot-kept;
    slot = update_slot-resolve;
    more = update_slot-more;
    read = update_slot-read;
  }

-- what the loop does
record IsLoop (slots : List Slot) (missing : List String) (c : Cache) (slots' : List Slot)
    (missing' : List String) (c' : Cache) : Type 0 where
  kept : c'.cache_map ≡ c.cache_map
  resolved : slots' ≡ map (resolve c.cache_map) slots
  more : (id : String) → contains missing' id ≡ contains missing id || is_waiting id slots'
  read :
      (k : IdIndexKey)
      → contains c'.accessed k ≡ contains c.accessed k || is_spent k slots && known c.cache_map k

update_loop-IsLoop :
    (slots : List Slot) (missing : List String) (c : Cache)
    → IsLoop slots missing c
        (update_loop slots missing c).0.0
        (update_loop slots missing c).0.1
        (update_loop slots missing c).1
unfolding update_loop is_waiting is_spent
update_loop-IsLoop [] missing c = record {
  kept = refl;
  resolved = refl;
  more = λ id. ground arith;
  read = λ k. ground arith;
}
update_loop-IsLoop (s ∷ slots) missing c =
    let r = update_slot-IsRound s missing c in
    let ((s', missing'), c') = update_slot s missing c in
    let ih = update_loop-IsLoop slots missing' c' in
    record {
      kept = ih.kept ∙ r.kept;
      resolved =
          ap₂ (λ (x : Slot) (xs : List Slot). x ∷ xs) r.slot
            (ih.resolved ∙ ap (λ m. map (resolve m) slots) r.kept);
      more = λ id. ground (arith, r.more id, ih.more id);
      read = λ k. ground (arith, r.read k, ih.read k, ap (λ m. known m k) r.kept);
    }

pub update_with_outputs-IsUpdate :
    (slots : List Slot) (c : Cache)
    → IsUpdate slots
        (update_with_outputs slots c).0.0
        (update_with_outputs slots c).0.1
        c
        (update_with_outputs slots c).1
unfolding update_with_outputs remove_accessed known is_waiting contains
update_with_outputs-IsUpdate slots c =
    let h = update_loop-IsLoop slots [] c in
    let c' = (update_loop slots [] c).1 in
    record {
      resolved = h.resolved;
      waiting = λ id. h.more id;
      purged = λ k. ground (
        arith,
        lookup-delete_all c'.accessed c'.cache_map k,
        h.read k,
        ap (λ m. lookup k m) h.kept,
      );
    }
