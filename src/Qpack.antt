-- ===== src/Qpack.antt =====
-- webtransport-proto/src/qpack.rs: header compression with the static table and literals only.
pub mod Error
pub mod Prefix
pub mod Text
pub mod StaticTable
pub mod Headers
