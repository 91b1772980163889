-- ===== src/Lib.antt =====
-- A model of webtransport-rs: WebTransport over HTTP/3. The crate webtransport-proto holds the wire
-- formats, the crate webtransport-quinn runs them over QUIC streams. An endpoint opens a control
-- stream and sends its settings, reads those of the peer, and then the client sends a CONNECT
-- request whose headers are coded with QPACK; from then on each stream starts with a type and the
-- number of the session.
--
-- The parts and their files. A decoder is a function from the bytes left in the buffer to a value
-- with what is left, an error or a panic (`Outcome` of Base/Results.antt); an encoder returns the
-- bytes that it puts, or `none` where the code panics.
-- - VarInt.antt and below: webtransport-proto/src/varint.rs. `VarInt.decode` and `VarInt.encode` are
--   VarInt::decode and VarInt::encode. VarInt/Streaming.antt says what a decoder owes a caller that
--   tries again when more bytes have arrived.
-- - ErrorCode.antt: webtransport-proto/src/error.rs.
-- - Frame.antt and StreamUni.antt: webtransport-proto/src/frame.rs and stream.rs.
-- - HashMap.antt: the part of std::collections::HashMap that the crates use, as an association list.
--   The order in which a map is iterated is a parameter `iter` of the encoders, with the hypothesis
--   `Iterates`: it yields each entry once.
-- - Settings.antt and below: webtransport-proto/src/settings.rs; Settings/Ids.antt has the
--   identifiers, Settings/Encode.antt the sending side, Settings/Support.antt what a peer's settings
--   mean.
-- - Huffman.antt and below: webtransport-proto/src/huffman.rs; Huffman/Window.antt reads bits,
--   Huffman/Table has the tables, Huffman/Tree.antt walks them. Huffman/Bits.antt and
--   Huffman/Reads.antt say what bits the bytes are, Huffman/Code.antt holds the code of RFC 7541 to
--   compare with, and Huffman/Total.antt, with the files of that name beside the decoders of QPACK
--   and of the CONNECT messages, follows what each decoder leaves.
-- - Qpack.antt and below: webtransport-proto/src/qpack.rs; Qpack/Prefix.antt has decode_prefix and
--   encode_prefix, Qpack/Text.antt decode_string and str::from_utf8, Qpack/StaticTable.antt the
--   static table, Qpack/Headers.antt `Headers` with its decoder and Qpack/Headers/Encode.antt its
--   encoder.
-- - Connect.antt and below: webtransport-proto/src/connect.rs; Connect/HttpCrate.antt is the crate
--   http, a parameter with the laws of `HttpLaws`, and Connect/Encode.antt the sending side.
-- - Quinn/Reading.antt, Quinn/SettingsStream.antt and Quinn/ConnectStream.antt: webtransport-
--   quinn/src/settings.rs and connect.rs. A stream is the list of what `read_chunk` answers; the
--   errors of quinn are type parameters; the loops read a chunk, append it to the buffer and decode
--   the buffer again.
-- - Quinn/QuinnCrate.antt: the errors of the crate quinn that the code matches on, as data; `C`
--   stands for quinn's error of a connection. Quinn/Errors.antt: webtransport-quinn/src/error.rs.
-- - Quinn/StreamHeader.antt: of webtransport-quinn/src/session.rs the header in front of each
--   stream. A stream is there the bytes that arrive and the way it ends.
-- - Quinn/Accept.antt and below: `SessionAccept` of session.rs. Its loops poll the connection for
--   streams and the futures that read headers; what these polls find is a list of `Turn`, one for
--   each round, and any list is a schedule. A future is the stream that it reads, and completes in
--   its turn. Quinn/Accept/Polling.antt has the loop, and calls of it one after the other;
--   Quinn/Accept/Conserved.antt counts what is owed, returned and pending.
-- - Quinn/Session.antt and below: `Session` of session.rs, with its calls in
--   Quinn/Session/Calls.antt; Quinn/Session/PollOpen.antt has the polls that the trait of
--   webtransport-generic asks for.
-- - Quinn/Streams.antt and below: webtransport-quinn/src/stream.rs, as functions of what quinn
--   answers.
-- - Quinn/Handshake.antt and below: Settings::connect of settings.rs, client.rs and server.rs.
--   `Answers` holds what quinn answers on one connection; `try_join!` of the crate futures, the
--   lookup of names and the dialling are parameters.
-- - Generic.antt and below: webtransport-generic/src. The traits are records of operations on a
--   type; the context of a poll is the list of what happens from then on. Generic/Ext.antt has the
--   futures of ext.rs, Generic/Quinn.antt and Generic/Streams.antt the implementations in
--   session.rs, stream.rs and error.rs of webtransport-quinn, Generic/Awaits.antt what awaiting the
--   futures comes to.
-- - Baton.antt and below: webtransport-quinn/examples/baton/mod.rs, the game of the devious baton.
--   Baton/Parse.antt is `parse`, with what it uses of the texts of Rust. Baton/Run.antt is `run`: an
--   event is what one round of `select!` finds, any list of events is a schedule, and the lines that
--   are logged are part of the result. Baton/Kept.antt and Baton/Loop.antt say what one end keeps,
--   Baton/Game.antt and Baton/Ends.antt what two ends come to, joined by the hypothesis `Delivers`
--   that streams carry no baton that was not sent. Baton/Play.antt plays a game, on streams that
--   carry a given message. Baton/Server.antt is `run_conn` of webtransport-quinn/examples/server.rs,
--   Baton/Client.antt is `main` of webtransport-quinn/examples/client.rs behind the set-up of the
--   endpoint, and Baton/Pair.antt puts the two against each other.
--
-- Numbers. Integers are natural numbers; a conversion to a type of w bits is written `% 2 ^ w`, and
-- usize has 64 bits. Overflow is checked, as in a debug build, where decode_prefix shifts and adds
-- and where the baton game counts down: what is out of range is a panic there.
--
-- Loops. Loops over a buffer run on fuel that its length bounds, since each round takes at least one
-- byte: `decode_entries` of the settings and `decode_lines` of the headers get the length of the
-- buffer, the Huffman decoder twice the length of its input and one, `encode_loop` ten rounds for
-- ten groups of seven bits, and a call of `accept_uni` or `accept_bi` as many polls as there are
-- turns, since each poll takes a turn. A loop without fuel shows as a panic, so that a theorem about
-- a result also says that the loop ended.
--
-- Not modelled: the forwards of session.rs and stream.rs to the traits of tokio, and the datagrams,
-- which are unimplemented; the handles of streams that are only kept open, and what is sent on an
-- accepted stream; the set-up of TLS and of the endpoints in the examples, and the `main` of the
-- server, which spawns `run_conn`; and logging, but for the lines of the examples.
pub mod Base
pub mod VarInt
pub mod ErrorCode
pub mod Frame
pub mod StreamUni
pub mod HashMap
pub mod Settings
pub mod Huffman
pub mod Qpack
pub mod Baton
pub mod Connect
pub mod Generic
pub mod Quinn
