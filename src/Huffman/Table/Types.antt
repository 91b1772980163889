-- ===== src/Huffman/Table/Types.antt =====
-- A table of huffman.rs: how many bits to look up, and what each value of them stands for.
use webtransport_rs.Base.{ℕ}

mutual
  pub data HuffmanDecoder : Type 0 where
    decoder : ℕ → Values → HuffmanDecoder

  pub data DecodeValue : Type 0 where
    partial : HuffmanDecoder → DecodeValue
    sym : ℕ → DecodeValue

  -- The slice of a table.
  pub data Values : Type 0 where
    nil : Values
    cons : DecodeValue → Values → Values
