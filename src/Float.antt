-- ===== src/Float.antt =====
-- The floating-point numbers of the source. Their arithmetic is IEEE 754's, which the source only
-- calls: a type with the operations that the code applies to it, and the laws of its order.
mod Defs
mod Laws
pub mod Micros
unfoldable pub use Defs.*
pub use Laws.*
