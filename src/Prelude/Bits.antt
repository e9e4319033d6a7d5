-- ===== src/Prelude/Bits.antt =====
-- Laws of `^` and `&` at variables: the equation of the lowest binary digit, and what follows
-- from it by strong induction.
mod Step
mod Xor
mod And
mod Or
pub use Step.*
pub use Xor.*
pub use And.*
pub use Or.*
