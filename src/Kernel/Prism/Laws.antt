-- ===== src/Kernel/Prism/Laws.antt =====
-- Reading and writing of values by a handler (kernel/src/prism.rs and kernel/src/state.rs).
use veilux_binary.Base.{Text, Option, ok, ◌≡◌, arith}
use veilux_binary.Kernel.Serde.{Serde, RoundTrips}
use veilux_binary.Kernel.State.{StateTree, put, put_json, get_json}
use veilux_binary.Kernel.State.Laws.{put_json-eq-put}
use veilux_binary.Kernel.Prism.{or_internal}

module _ {T : Type 0} (c : Serde T) where
  pub or_internal-put_json :
      (r : RoundTrips c) (k : Text) (v : T) (s : StateTree)
      → or_internal (put_json c k v) s ≡ (ok tt, put k (r.bytes v) s)
  unfolding or_internal
  or_internal-put_json r k v s = ground (arith, put_json-eq-put c r k v s)

  pub or_internal-get_json :
      (k : Text) (o : Option T) (s : StateTree)
      → get_json c k s ≡ ok o
      → or_internal (λ t. (get_json c k t, t)) s ≡ (ok o, s)
  unfolding or_internal
  or_internal-get_json k o s e = ground (arith, e)
