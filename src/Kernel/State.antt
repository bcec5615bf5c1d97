-- ===== src/Kernel/State.antt =====
-- The content-addressed state of kernel/src/state.rs: string keys, byte values.
mod Defs
pub mod Laws
pub mod Root
pub mod Binding
pub mod Prefix
pub use Defs.{StateTree, StateError, not_found, serialization}
unfoldable pub use Defs.{
  state_error_text, new, put, get, remove, contains, put_json, get_json, starts_with, iter_prefix,
  leaves, root, leaf_hash, prove,
}
