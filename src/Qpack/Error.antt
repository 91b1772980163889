-- ===== src/Qpack/Error.antt =====
-- The errors of qpack.rs.
use webtransport_rs.Huffman.Window
use webtransport_rs.Huffman.Window.{BitWindow}

-- `std::str::Utf8Error`, whose contents nothing looks at.
pub data Utf8Error : Type 0 where
  utf8_error : Utf8Error

pub data DecodeError : Type 0 where
  unexpected_end : DecodeError
  bounds_exceeded : DecodeError
  dynamic_entry : DecodeError
  unknown_entry : DecodeError
  huffman_error : Window.Error → DecodeError
  invalid_utf8 : Utf8Error → DecodeError
