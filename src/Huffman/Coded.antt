-- ===== src/Huffman/Coded.antt =====
-- The decoder against the code of RFC 7541.
use webtransport_rs.Base.{
  ℕ, zero, suc, ◌+◌, ◌*◌, ◌^◌, ◌<◌, ◌≤◌, ◌≡◌, ◌∙◌, refl, sym, ap, none, some, List, [], ◌∷◌, ◌++◌,
  append_assoc, length, length-append, All, IsByte, arith, ok, true,
}
use webtransport_rs.Huffman.Reads.Words.{length-bits}
use webtransport_rs.Huffman.Bits.{bits}
use webtransport_rs.Huffman.Window.{BitWindow, new}
use webtransport_rs.Huffman.Table.Short.{hpack_string}
use webtransport_rs.Huffman.Tree.{decode_next, hpack_decode}
use webtransport_rs.Huffman.Walk.{position, decode_next-find}
use webtransport_rs.Huffman.Padding.{ones, length-ones, ends, decode_next-ends}
use webtransport_rs.Huffman.Code.{code, find-code}

-- The codes of a text, one behind the other.
abbrev pub coded : List ℕ → List ℕ
coded [] = []
coded (x ∷ text) = code x ++ coded text

length-coded : (text : List ℕ) → All IsByte text → 5 * length text ≤ length (coded text)
length-coded [] h = omega arith
length-coded (x ∷ text) h =
    let (_, five) = find-code x h.0 in
    omega (arith, length-append (code x) (coded text), length-coded text h.1)

ends_root : (k : ℕ) → k < 8 → ends hpack_string k ≡ true
ends_root zero h = refl
ends_root (suc zero) h = refl
ends_root (suc (suc zero)) h = refl
ends_root (suc (suc (suc zero))) h = refl
ends_root (suc (suc (suc (suc zero)))) h = refl
ends_root (suc (suc (suc (suc (suc zero))))) h = refl
ends_root (suc (suc (suc (suc (suc (suc zero)))))) h = refl
ends_root (suc (suc (suc (suc (suc (suc (suc zero))))))) h = refl
ends_root (suc (suc (suc (suc (suc (suc (suc (suc k)))))))) h = absurd (omega arith)

module _ (src : List ℕ) (bytes : All IsByte src) (small : length src < 2 ^ 28) where
  hpack_decode-last :
      (fuel : ℕ) (w w' : BitWindow)
      → decode_next hpack_string w src ≡ ok (none, w')
      → hpack_decode (suc fuel) w src ≡ ok []
  unfolding hpack_decode
  hpack_decode-last fuel w w' e = ground (arith, e)

  hpack_decode-next :
      (fuel x : ℕ) (text : List ℕ) (w w' : BitWindow)
      → decode_next hpack_string w src ≡ ok (some x, w')
      → hpack_decode fuel w' src ≡ ok text
      → hpack_decode (suc fuel) w src ≡ ok (x ∷ text)
  unfolding hpack_decode
  hpack_decode-next fuel x text w w' e e' = ground (arith, e, e')

  hpack_decode-from :
      (text pre : List ℕ) (k fuel : ℕ) (w : BitWindow)
      → All IsByte text
      → bits src ≡ pre ++ (coded text ++ ones k)
      → k < 8
      → position w ≡ length pre
      → length text < fuel
      → hpack_decode fuel w src ≡ ok text
  hpack_decode-from text pre k zero w h e short at_pre enough = absurd (omega arith)
  hpack_decode-from [] pre k (suc fuel) w h e short at_pre enough =
      let (w', answer) =
        decode_next-ends src bytes small hpack_string pre k w e short at_pre (ends_root k short) in
      hpack_decode-last fuel w w' answer
  hpack_decode-from (x ∷ text) pre k (suc fuel) w h e short at_pre enough =
      let (found, _) = find-code x h.0 in
      let first = e ∙ ap (λ xs. pre ++ xs) (append_assoc (code x) (coded text) (ones k)) in
      let (w', answer, reached) =
        decode_next-find src bytes small hpack_string pre (code x) (coded text ++ ones k) w x first
          at_pre found in
      hpack_decode-next fuel x text w w' answer (
        hpack_decode-from text (pre ++ code x) k fuel w' h.1
          (first ∙ sym (append_assoc pre (code x) (coded text ++ ones k))) short
          (omega (arith, length-append pre (code x))) (omega arith))

  -- Content of fewer than 2 ^ 28 bytes whose bits are the codes of RFC 7541 for the bytes of a text,
  -- one behind the other, and fewer than eight ones behind them: with the fuel that decode_string
  -- gives, the decoder returns the text.
  pub hpack_decode-coded :
      (text : List ℕ) (k : ℕ)
      → All IsByte text
      → bits src ≡ coded text ++ ones k
      → k < 8
      → hpack_decode (2 * length src + 1) new src ≡ ok text
  hpack_decode-coded text k h e short =
      let total = ap length e ∙ length-append (coded text) (ones k) in
      hpack_decode-from text [] k (2 * length src + 1) new h e short refl
        (omega (arith, length-bits src, length-coded text h, length-ones k))
