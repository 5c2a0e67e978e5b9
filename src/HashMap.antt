-- ===== src/HashMap.antt =====
-- `std::collections::HashMap` and `HashSet`, as the source uses them: an association list, whose
-- order stands for the unspecified order of iteration. A set is a map into the unit type.
mod Lookup
mod Distinct
mod Nested
pub use Lookup.*
pub use Distinct.*
pub use Nested.*
unfoldable pub use Lookup.{get, remove, insert}
unfoldable pub use Nested.{insert_at, put_or_prune, remove_at}
