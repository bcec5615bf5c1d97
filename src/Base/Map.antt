-- ===== src/Base/Map.antt =====
-- Rust's `BTreeMap`, and `HashMap` where the order of the entries is never read.
mod Entries
mod Sorted
mod Sum
unfoldable pub use Entries.{Map, get, insert, remove, contains_key}
pub use Entries.{get-insert, get-remove}
pub use Sorted.{IsSorted, Above, insert-IsSorted, remove-IsSorted, sorted_ext, insert_comm}
pub use Sum.{or_zero, sum, sum-insert, sum-remove}
