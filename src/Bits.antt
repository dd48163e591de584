-- ===== src/Bits.antt =====
-- `|` of disjoint fields and `&` with a low mask as arithmetic, and single bits of a word.
pub mod Fields
pub mod Single
