-- ===== src/Quinn.antt =====
-- webtransport-quinn: the exchanges over the streams of a QUIC connection.
pub mod Reading
pub mod SettingsStream
pub mod ConnectStream
pub mod QuinnCrate
pub mod Errors
pub mod StreamHeader
pub mod Streams
pub mod Accept
pub mod Session
pub mod Handshake
