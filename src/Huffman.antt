-- ===== src/Huffman.antt =====
-- webtransport-proto/src/huffman.rs: the decoder of HPACK's string code (RFC 7541, 5.2).
pub mod Window
pub mod Table
pub mod Tree
pub mod Bits
pub mod Reads
pub mod Walk
pub mod Padding
pub mod Code
pub mod Coded
pub mod Total
mod Runs
