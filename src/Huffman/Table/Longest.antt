-- ===== src/Huffman/Table/Longest.antt =====
-- The tables of huffman.rs for the codes of 20 bits and more.
use webtransport_rs.Huffman.Table.Types.{HuffmanDecoder, decoder, partial, sym, nil, cons}

abbrev pub end23a_100 : HuffmanDecoder
end23a_100 = decoder 1 (cons (sym 1) (cons (sym 135) nil))

abbrev pub end23a_101 : HuffmanDecoder
end23a_101 = decoder 1 (cons (sym 137) (cons (sym 138) nil))

abbrev pub end23a_110 : HuffmanDecoder
end23a_110 = decoder 1 (cons (sym 139) (cons (sym 140) nil))

abbrev pub end23a_111 : HuffmanDecoder
end23a_111 = decoder 1 (cons (sym 141) (cons (sym 143) nil))

abbrev pub end23b_0101 : HuffmanDecoder
end23b_0101 = decoder 1 (cons (sym 9) (cons (sym 142) nil))

abbrev pub end23b_0110 : HuffmanDecoder
end23b_0110 = decoder 1 (cons (sym 144) (cons (sym 145) nil))

abbrev pub end23b_0111 : HuffmanDecoder
end23b_0111 = decoder 1 (cons (sym 148) (cons (sym 159) nil))

abbrev pub end23b_1000 : HuffmanDecoder
end23b_1000 = decoder 1 (cons (sym 171) (cons (sym 206) nil))

abbrev pub end23b_1001 : HuffmanDecoder
end23b_1001 = decoder 1 (cons (sym 215) (cons (sym 225) nil))

abbrev pub end23b_1010 : HuffmanDecoder
end23b_1010 = decoder 1 (cons (sym 236) (cons (sym 237) nil))

abbrev pub end23b_1011 : HuffmanDecoder
end23b_1011 = decoder 2 (cons (sym 199) (cons (sym 207) (cons (sym 234) (cons (sym 235) nil))))

abbrev pub end23b_1100 : HuffmanDecoder
end23b_1100 = decoder 3 (
    cons (sym 192) (
      cons (sym 193) (
        cons (sym 200) (
          cons (sym 201) (cons (sym 202) (cons (sym 205) (cons (sym 210) (cons (sym 213) nil))))))))

abbrev pub end27a_111 : HuffmanDecoder
end27a_111 = decoder 1 (cons (sym 203) (cons (sym 204) nil))

abbrev pub end23b_1101 : HuffmanDecoder
end23b_1101 = decoder 3 (
    cons (sym 218) (
      cons (sym 219) (
        cons (sym 238) (
          cons (sym 240)
            (cons (sym 242) (cons (sym 243) (cons (sym 255) (cons (partial end27a_111) nil))))))))

abbrev pub end23b_1110 : HuffmanDecoder
end23b_1110 = decoder 4 (
    cons (sym 211) (
      cons (sym 212) (
        cons (sym 214) (
          cons (sym 221) (
            cons (sym 222) (
              cons (sym 223) (
                cons (sym 241) (
                  cons (sym 244) (
                    cons (sym 245) (
                      cons (sym 246) (
                        cons (sym 247) (
                          cons (sym 248) (
                            cons (sym 250)
                              (cons (sym 251) (cons (sym 252) (cons (sym 253) nil))))))))))))))))

abbrev pub end27b_0001 : HuffmanDecoder
end27b_0001 = decoder 1 (cons (sym 2) (cons (sym 3) nil))

abbrev pub end27b_0010 : HuffmanDecoder
end27b_0010 = decoder 1 (cons (sym 4) (cons (sym 5) nil))

abbrev pub end27b_0011 : HuffmanDecoder
end27b_0011 = decoder 1 (cons (sym 6) (cons (sym 7) nil))

abbrev pub end27b_0100 : HuffmanDecoder
end27b_0100 = decoder 1 (cons (sym 8) (cons (sym 11) nil))

abbrev pub end27b_0101 : HuffmanDecoder
end27b_0101 = decoder 1 (cons (sym 12) (cons (sym 14) nil))

abbrev pub end27b_0110 : HuffmanDecoder
end27b_0110 = decoder 1 (cons (sym 15) (cons (sym 16) nil))

abbrev pub end27b_0111 : HuffmanDecoder
end27b_0111 = decoder 1 (cons (sym 17) (cons (sym 18) nil))

abbrev pub end27b_1000 : HuffmanDecoder
end27b_1000 = decoder 1 (cons (sym 19) (cons (sym 20) nil))

abbrev pub end27b_1001 : HuffmanDecoder
end27b_1001 = decoder 1 (cons (sym 21) (cons (sym 23) nil))

abbrev pub end27b_1010 : HuffmanDecoder
end27b_1010 = decoder 1 (cons (sym 24) (cons (sym 25) nil))

abbrev pub end27b_1011 : HuffmanDecoder
end27b_1011 = decoder 1 (cons (sym 26) (cons (sym 27) nil))

abbrev pub end27b_1100 : HuffmanDecoder
end27b_1100 = decoder 1 (cons (sym 28) (cons (sym 29) nil))

abbrev pub end27b_1101 : HuffmanDecoder
end27b_1101 = decoder 1 (cons (sym 30) (cons (sym 31) nil))

abbrev pub end27b_1110 : HuffmanDecoder
end27b_1110 = decoder 1 (cons (sym 127) (cons (sym 220) nil))

abbrev pub eof : HuffmanDecoder
eof = decoder 8 nil

abbrev pub end31_1 : HuffmanDecoder
end31_1 = decoder 2 (cons (sym 10) (cons (sym 13) (cons (sym 22) (cons (partial eof) nil))))

abbrev pub end27b_1111 : HuffmanDecoder
end27b_1111 = decoder 1 (cons (sym 249) (cons (partial end31_1) nil))

abbrev pub end23b_1111 : HuffmanDecoder
end23b_1111 = decoder 4 (
    cons (sym 254) (
      cons (partial end27b_0001) (
        cons (partial end27b_0010) (
          cons (partial end27b_0011) (
            cons (partial end27b_0100) (
              cons (partial end27b_0101) (
                cons (partial end27b_0110) (
                  cons (partial end27b_0111) (
                    cons (partial end27b_1000) (
                      cons (partial end27b_1001) (
                        cons (partial end27b_1010) (
                          cons (partial end27b_1011) (
                            cons (partial end27b_1100) (
                              cons (partial end27b_1101) (
                                cons (partial end27b_1110)
                                  (cons (partial end27b_1111) nil))))))))))))))))
