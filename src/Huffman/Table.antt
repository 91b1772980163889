-- ===== src/Huffman/Table.antt =====
-- The decoding tables of huffman.rs, as the macro `bits_decode!` lays them out.
pub mod Types
pub mod Longest
pub mod Long
pub mod Short
