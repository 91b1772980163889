-- ===== src/Huffman/Table/Long.antt =====
-- The tables of huffman.rs for the codes of 14 to 22 bits.
use webtransport_rs.Huffman.Table.Types.{HuffmanDecoder, decoder, partial, sym, nil, cons}
use webtransport_rs.Huffman.Table.Longest.{
  end23a_100, end23a_101, end23a_110, end23a_111, end23b_0101, end23b_0110, end23b_0111,
  end23b_1000, end23b_1001, end23b_1010, end23b_1011, end23b_1100, end23b_1101, end23b_1110,
  end23b_1111,
}

abbrev pub end13_10 : HuffmanDecoder
end13_10 = decoder 1 (cons (sym 94) (cons (sym 125) nil))

abbrev pub end14_0 : HuffmanDecoder
end14_0 = decoder 1 (cons (sym 60) (cons (sym 96) nil))

abbrev pub end19_0011 : HuffmanDecoder
end19_0011 = decoder 1 (cons (sym 128) (cons (sym 130) nil))

abbrev pub end19_0100 : HuffmanDecoder
end19_0100 = decoder 1 (cons (sym 131) (cons (sym 162) nil))

abbrev pub end19_0101 : HuffmanDecoder
end19_0101 = decoder 1 (cons (sym 184) (cons (sym 194) nil))

abbrev pub end19_0110 : HuffmanDecoder
end19_0110 = decoder 1 (cons (sym 224) (cons (sym 226) nil))

abbrev pub end19_0111 : HuffmanDecoder
end19_0111 = decoder 2 (cons (sym 153) (cons (sym 161) (cons (sym 167) (cons (sym 172) nil))))

abbrev pub end19_1000 : HuffmanDecoder
end19_1000 = decoder 2 (cons (sym 176) (cons (sym 177) (cons (sym 179) (cons (sym 209) nil))))

abbrev pub end19_1001 : HuffmanDecoder
end19_1001 = decoder 2 (cons (sym 216) (cons (sym 217) (cons (sym 227) (cons (sym 229) nil))))

abbrev pub end19_1010_01 : HuffmanDecoder
end19_1010_01 = decoder 1 (cons (sym 129) (cons (sym 132) nil))

abbrev pub end19_1010_10 : HuffmanDecoder
end19_1010_10 = decoder 1 (cons (sym 133) (cons (sym 134) nil))

abbrev pub end19_1010_11 : HuffmanDecoder
end19_1010_11 = decoder 1 (cons (sym 136) (cons (sym 146) nil))

abbrev pub end19_1010 : HuffmanDecoder
end19_1010 = decoder 2 (
    cons (sym 230) (
      cons (partial end19_1010_01)
        (cons (partial end19_1010_10) (cons (partial end19_1010_11) nil))))

abbrev pub end19_1011 : HuffmanDecoder
end19_1011 = decoder 3 (
    cons (sym 154) (
      cons (sym 156) (
        cons (sym 160) (
          cons (sym 163) (cons (sym 164) (cons (sym 169) (cons (sym 170) (cons (sym 173) nil))))))))

abbrev pub end19_1100 : HuffmanDecoder
end19_1100 = decoder 3 (
    cons (sym 178) (
      cons (sym 181) (
        cons (sym 185) (
          cons (sym 186) (cons (sym 187) (cons (sym 189) (cons (sym 190) (cons (sym 196) nil))))))))

abbrev pub end19_1101 : HuffmanDecoder
end19_1101 = decoder 3 (
    cons (sym 198) (
      cons (sym 228) (
        cons (sym 232) (
          cons (sym 233) (
            cons (partial end23a_100) (
              cons (partial end23a_101)
                (cons (partial end23a_110) (cons (partial end23a_111) nil))))))))

abbrev pub end19_1110 : HuffmanDecoder
end19_1110 = decoder 4 (
    cons (sym 147) (
      cons (sym 149) (
        cons (sym 150) (
          cons (sym 151) (
            cons (sym 152) (
              cons (sym 155) (
                cons (sym 157) (
                  cons (sym 158) (
                    cons (sym 165) (
                      cons (sym 166) (
                        cons (sym 168) (
                          cons (sym 174) (
                            cons (sym 175)
                              (cons (sym 180) (cons (sym 182) (cons (sym 183) nil))))))))))))))))

abbrev pub end19_1111 : HuffmanDecoder
end19_1111 = decoder 4 (
    cons (sym 188) (
      cons (sym 191) (
        cons (sym 197) (
          cons (sym 231) (
            cons (sym 239) (
              cons (partial end23b_0101) (
                cons (partial end23b_0110) (
                  cons (partial end23b_0111) (
                    cons (partial end23b_1000) (
                      cons (partial end23b_1001) (
                        cons (partial end23b_1010) (
                          cons (partial end23b_1011) (
                            cons (partial end23b_1100) (
                              cons (partial end23b_1101) (
                                cons (partial end23b_1110)
                                  (cons (partial end23b_1111) nil))))))))))))))))

abbrev pub end15_1 : HuffmanDecoder
end15_1 = decoder 4 (
    cons (sym 92) (
      cons (sym 195) (
        cons (sym 208) (
          cons (partial end19_0011) (
            cons (partial end19_0100) (
              cons (partial end19_0101) (
                cons (partial end19_0110) (
                  cons (partial end19_0111) (
                    cons (partial end19_1000) (
                      cons (partial end19_1001) (
                        cons (partial end19_1010) (
                          cons (partial end19_1011) (
                            cons (partial end19_1100) (
                              cons (partial end19_1101) (
                                cons (partial end19_1110)
                                  (cons (partial end19_1111) nil))))))))))))))))

abbrev pub end14_1 : HuffmanDecoder
end14_1 = decoder 1 (cons (sym 123) (cons (partial end15_1) nil))

abbrev pub end13_11 : HuffmanDecoder
end13_11 = decoder 1 (cons (partial end14_0) (cons (partial end14_1) nil))
