-- ===== src/Base/Text.antt =====
-- Go strings as lists of bytes, with the operations of package strings that the code uses and
-- the laws that relate them.
mod Defs
mod Laws
unfoldable pub use Defs.*
pub use Laws.*
