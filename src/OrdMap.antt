-- ===== src/OrdMap.antt =====
-- `std::map` of the C++ standard library as the source uses it: a list of entries in the order of
-- the keys. A key type comes with its `operator<`; two keys are the same where neither is less.
mod Less
mod Defs
pub mod Find
pub mod Order
pub mod Iterate
unfoldable pub use Less.{same}
pub use Less.{Key, same_iff, same_refl, same_ne, less_asymm, nat_key}
unfoldable pub use Defs.{
  OrdMap, find, add, insert, erase, count, assign, begin, next, absorb, leftover,
}
