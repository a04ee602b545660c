-- ===== src/Base/Bits.antt =====
-- Laws of the native bit operations at every width, from one equation for the lowest digit.
mod Step
mod Xor
mod Masks
mod Tables
pub use Step.*
pub use Xor.*
pub use Masks.*
pub use Tables.*
unfoldable pub use Tables.{agree_below}
