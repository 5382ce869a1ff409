-- ===== src/CText.antt =====
-- Texts as lists of bytes, with the operations of the C and C++ libraries that the program calls on
-- them, and their laws.
mod Defs
mod Laws
unfoldable pub use Defs.*
pub use Laws.*
