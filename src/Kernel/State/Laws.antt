-- ===== src/Kernel/State/Laws.antt =====
-- Reading the state after a write (kernel/src/state.rs).
use veilux_binary.Base.{true, false, some, Text, ok, ◌≡◌, arith, if◌then◌else◌}
use veilux_binary.Base.Order.{same, same_refl, text_ord}
use veilux_binary.Base.Map.{get-insert}
use veilux_binary.Kernel.Serde.{Serde, RoundTrips}
use veilux_binary.Kernel.State.Defs.{StateTree, put, get, contains, put_json, get_json}

pub get-put :
    (k j : Text) (v : Text) (s : StateTree)
    → get j (put k v s) ≡ (if same j k then some v else get j s)
unfolding get put
get-put k j v s = get-insert k j v s.entries

pub contains-put :
    (k j : Text) (v : Text) (s : StateTree)
    → contains j (put k v s) ≡ (if same j k then true else contains j s)
unfolding contains get put
contains-put k j v s = ground (arith, get-insert k j v s.entries)

module _ {T : Type 0} (c : Serde T) (r : RoundTrips c) where
  pub put_json-eq-put :
      (k : Text) (v : T) (s : StateTree) → put_json c k v s ≡ (ok tt, put k (r.bytes v) s)
  unfolding put_json
  put_json-eq-put k v s = ground (arith, r.writes v)

  pub get_json-put_self :
      (k : Text) (v : T) (s : StateTree) → get_json c k (put k (r.bytes v) s) ≡ ok (some v)
  unfolding get_json
  get_json-put_self k v s = ground (arith, get-put k k (r.bytes v) s, same_refl k, r.reads v)

module _ {T : Type 0} (c : Serde T) (r : RoundTrips c) where
  pub get_json-put :
      (k j : Text) (v : T) (s : StateTree)
      → get_json c j (put k (r.bytes v) s) ≡ (if same j k then ok (some v) else get_json c j s)
  unfolding get_json
  get_json-put k j v s = ground (arith, get-put k j (r.bytes v) s, r.reads v)

module _ {T : Type 0} (c : Serde T) where
  pub get_json-put_other :
      (k j : Text) (b : Text) (s : StateTree)
      → same j k ≡ false
      → get_json c j (put k b s) ≡ get_json c j s
  unfolding get_json
  get_json-put_other k j b s h = ground (arith, get-put k j b s)
