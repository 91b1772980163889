-- ===== src/Huffman/Table/Short.antt =====
-- The tables of huffman.rs from the root on.
use webtransport_rs.Huffman.Table.Types.{HuffmanDecoder, decoder, partial, sym, nil, cons}
use webtransport_rs.Huffman.Table.Long.{end13_10, end13_11}

abbrev pub end0_01010 : HuffmanDecoder
end0_01010 = decoder 1 (cons (sym 32) (cons (sym 37) nil))

abbrev pub end0_01011 : HuffmanDecoder
end0_01011 = decoder 1 (cons (sym 45) (cons (sym 46) nil))

abbrev pub end0_01100 : HuffmanDecoder
end0_01100 = decoder 1 (cons (sym 47) (cons (sym 51) nil))

abbrev pub end0_01101 : HuffmanDecoder
end0_01101 = decoder 1 (cons (sym 52) (cons (sym 53) nil))

abbrev pub end0_01110 : HuffmanDecoder
end0_01110 = decoder 1 (cons (sym 54) (cons (sym 55) nil))

abbrev pub end0_01111 : HuffmanDecoder
end0_01111 = decoder 1 (cons (sym 56) (cons (sym 57) nil))

abbrev pub end0_10000 : HuffmanDecoder
end0_10000 = decoder 1 (cons (sym 61) (cons (sym 65) nil))

abbrev pub end0_10001 : HuffmanDecoder
end0_10001 = decoder 1 (cons (sym 95) (cons (sym 98) nil))

abbrev pub end0_10010 : HuffmanDecoder
end0_10010 = decoder 1 (cons (sym 100) (cons (sym 102) nil))

abbrev pub end0_10011 : HuffmanDecoder
end0_10011 = decoder 1 (cons (sym 103) (cons (sym 104) nil))

abbrev pub end0_10100 : HuffmanDecoder
end0_10100 = decoder 1 (cons (sym 108) (cons (sym 109) nil))

abbrev pub end0_10101 : HuffmanDecoder
end0_10101 = decoder 1 (cons (sym 110) (cons (sym 112) nil))

abbrev pub end0_10110 : HuffmanDecoder
end0_10110 = decoder 1 (cons (sym 114) (cons (sym 117) nil))

abbrev pub end0_10111 : HuffmanDecoder
end0_10111 = decoder 2 (cons (sym 58) (cons (sym 66) (cons (sym 67) (cons (sym 68) nil))))

abbrev pub end0_11000 : HuffmanDecoder
end0_11000 = decoder 2 (cons (sym 69) (cons (sym 70) (cons (sym 71) (cons (sym 72) nil))))

abbrev pub end0_11001 : HuffmanDecoder
end0_11001 = decoder 2 (cons (sym 73) (cons (sym 74) (cons (sym 75) (cons (sym 76) nil))))

abbrev pub end0_11010 : HuffmanDecoder
end0_11010 = decoder 2 (cons (sym 77) (cons (sym 78) (cons (sym 79) (cons (sym 80) nil))))

abbrev pub end0_11011 : HuffmanDecoder
end0_11011 = decoder 2 (cons (sym 81) (cons (sym 82) (cons (sym 83) (cons (sym 84) nil))))

abbrev pub end0_11100 : HuffmanDecoder
end0_11100 = decoder 2 (cons (sym 85) (cons (sym 86) (cons (sym 87) (cons (sym 89) nil))))

abbrev pub end0_11101 : HuffmanDecoder
end0_11101 = decoder 2 (cons (sym 106) (cons (sym 107) (cons (sym 113) (cons (sym 118) nil))))

abbrev pub end0_11110 : HuffmanDecoder
end0_11110 = decoder 2 (cons (sym 119) (cons (sym 120) (cons (sym 121) (cons (sym 122) nil))))

abbrev pub end5_00 : HuffmanDecoder
end5_00 = decoder 1 (cons (sym 38) (cons (sym 42) nil))

abbrev pub end5_01 : HuffmanDecoder
end5_01 = decoder 1 (cons (sym 44) (cons (sym 59) nil))

abbrev pub end5_10 : HuffmanDecoder
end5_10 = decoder 1 (cons (sym 88) (cons (sym 90) nil))

abbrev pub end7_0 : HuffmanDecoder
end7_0 = decoder 2 (cons (sym 33) (cons (sym 34) (cons (sym 40) (cons (sym 41) nil))))

abbrev pub end9a_1 : HuffmanDecoder
end9a_1 = decoder 1 (cons (sym 39) (cons (sym 43) nil))

abbrev pub end8_0 : HuffmanDecoder
end8_0 = decoder 1 (cons (sym 63) (cons (partial end9a_1) nil))

abbrev pub end9b_01 : HuffmanDecoder
end9b_01 = decoder 1 (cons (sym 35) (cons (sym 62) nil))

abbrev pub end9b_10 : HuffmanDecoder
end9b_10 = decoder 2 (cons (sym 0) (cons (sym 36) (cons (sym 64) (cons (sym 91) nil))))

abbrev pub end9b_11 : HuffmanDecoder
end9b_11 =
    decoder 2
      (cons (sym 93) (cons (sym 126) (cons (partial end13_10) (cons (partial end13_11) nil))))

abbrev pub end8_1 : HuffmanDecoder
end8_1 = decoder 2 (
    cons (sym 124)
      (cons (partial end9b_01) (cons (partial end9b_10) (cons (partial end9b_11) nil))))

abbrev pub end7_1 : HuffmanDecoder
end7_1 = decoder 1 (cons (partial end8_0) (cons (partial end8_1) nil))

abbrev pub end5_11 : HuffmanDecoder
end5_11 = decoder 1 (cons (partial end7_0) (cons (partial end7_1) nil))

abbrev pub end0_11111 : HuffmanDecoder
end0_11111 = decoder 2 (
    cons (partial end5_00)
      (cons (partial end5_01) (cons (partial end5_10) (cons (partial end5_11) nil))))

abbrev pub hpack_string : HuffmanDecoder
hpack_string = decoder 5 (
    cons (sym 48) (
      cons (sym 49) (
        cons (sym 50) (
          cons (sym 97) (
            cons (sym 99) (
              cons (sym 101) (
                cons (sym 105) (
                  cons (sym 111) (
                    cons (sym 115) (
                      cons (sym 116) (
                        cons (partial end0_01010) (
                          cons (partial end0_01011) (
                            cons (partial end0_01100) (
                              cons (partial end0_01101) (
                                cons (partial end0_01110) (
                                  cons (partial end0_01111) (
                                    cons (partial end0_10000) (
                                      cons (partial end0_10001) (
                                        cons (partial end0_10010) (
                                          cons (partial end0_10011) (
                                            cons (partial end0_10100) (
                                              cons (partial end0_10101) (
                                                cons (partial end0_10110) (
                                                  cons (partial end0_10111) (
                                                    cons (partial end0_11000) (
                                                      cons (partial end0_11001) (
                                                        cons (partial end0_11010) (
                                                          cons (partial end0_11011) (
                                                            cons (partial end0_11100) (
                                                            cons (partial end0_11101) (
                                                            cons (partial end0_11110) (
                                                            cons (partial end0_11111)
                                                            nil))))))))))))))))))))))))))))))))
