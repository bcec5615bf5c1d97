-- ===== src/Kernel/State/Defs.antt =====
-- `StateTree` (kernel/src/state.rs), operation by operation.
use veilux_binary.Base.{
  ℕ, suc, Bool, true, false, Option, none, some, List, [], ◌∷◌, ◌++◌, Text, lit, Result, ok, err,
  if◌then◌else◌, Action,
}
use veilux_binary.Base.Order.{same, text_ord, text_cmp}
use veilux_binary.Base.Map as Entries
use veilux_binary.Base.Map.{Map, contains_key}
use veilux_binary.Kernel.Hash.{Crates, Hash, zero_hash, commit}
use veilux_binary.Kernel.Merkle.{MerkleStep, merkle_root, merkle_proof}
use veilux_binary.Kernel.Serde.{Serde}
use Prim.Native.Nat.{Ordering, compare}

pub data StateError : Type 0 where
  not_found : Text → StateError
  serialization : Text → StateError

-- `StateError::to_string`
unfoldable pub state_error_text : StateError → Text
state_error_text (not_found key) = lit "key not found: " ++ key
state_error_text (serialization e) = lit "serialization error: " ++ e

pub record StateTree : Type 0 where
  pub entries : Map Text Text

unfoldable pub new : StateTree
new = record { entries = [] }

unfoldable pub put : Text → Text → StateTree → StateTree
put key value s = record { entries = Entries.insert key value s.entries }

unfoldable pub get : Text → StateTree → Option Text
get key s = Entries.get key s.entries

-- The value that was there, and the tree without it.
unfoldable pub remove : Text → StateTree → Option Text × StateTree
remove key s = (Entries.get key s.entries, record { entries = Entries.remove key s.entries })

unfoldable pub contains : Text → StateTree → Bool
unfolding contains_key
contains key s = contains_key key s.entries

module _ {T : Type 0} (c : Serde T) where
  unfoldable pub put_json : Text → T → Action StateTree StateError (Unit {0})
  put_json key value s = elim (c.to_vec value) [
    | ok bytes ↦ (ok tt, put key bytes s)
    | err e ↦ (err (serialization e), s)
  ]

  unfoldable pub get_json : Text → StateTree → Result StateError (Option T)
  get_json key s = elim (get key s) [
    | none ↦ ok none
    | some bytes ↦ elim (c.from_slice bytes) [ ok v ↦ ok (some v) | err e ↦ err (serialization e) ]
  ]

unfoldable pub starts_with : Text → Text → Bool
starts_with [] key = true
starts_with (p ∷ ps) [] = false
starts_with (p ∷ ps) (k ∷ ks) =
    let rest = starts_with ps ks in elim (compare p k) [ Ordering.eq ↦ rest | _ ↦ false ]

-- `range(prefix..)`: the entries whose key is not below the prefix.
unfoldable pub range_from : Text → Map Text Text → Map Text Text
range_from prefix [] = []
range_from prefix ((k, v) ∷ m) = elim (text_cmp k prefix) [
  | Ordering.lt ↦ range_from prefix m
  | _ ↦ (k, v) ∷ m
]

-- `take_while(|(k, _)| k.starts_with(prefix))`
unfoldable pub take_prefix : Text → Map Text Text → Map Text Text
take_prefix prefix [] = []
take_prefix prefix ((k, v) ∷ m) =
    let rest = take_prefix prefix m in if starts_with prefix k then (k, v) ∷ rest else []

unfoldable pub iter_prefix : Text → StateTree → Map Text Text
unfolding range_from take_prefix
iter_prefix prefix s = take_prefix prefix (range_from prefix s.entries)

-- `entries.keys().position(|k| k == key)`
unfoldable pub position : Text → Map Text Text → Option ℕ
position key [] = none
position key ((k, v) ∷ m) =
    if same k key then some 0 else elim (position key m) [ none ↦ none | some i ↦ some (suc i) ]

module _ (x : Crates) where
  unfoldable pub leaf_hash : Text → Text → Hash
  leaf_hash key value = commit x (lit "kv") (key ∷ value ∷ [])

  unfoldable pub leaves : Map Text Text → List Hash
  leaves [] = []
  leaves ((k, v) ∷ m) = leaf_hash k v ∷ leaves m

  unfoldable pub root : StateTree → Hash
  unfolding leaves leaf_hash
  root s = elim s.entries [ [] ↦ zero_hash | e ∷ m ↦ merkle_root x (leaves (e ∷ m)) ]

  unfoldable pub prove : Text → StateTree → Option (Text × List MerkleStep)
  unfolding leaves position
  prove key s = elim (Entries.get key s.entries) [
    | none ↦ none
    | some value ↦ elim (position key s.entries) [
      | none ↦ none
      | some index ↦ some (value, merkle_proof x (leaves s.entries) index)
    ]
  ]
