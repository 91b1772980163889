-- ===== src/Huffman/Reads/Words.antt =====
-- Where bits stand in a list of bytes, and in a word of one or two of them.
use webtransport_rs.Base.{
  ℕ, zero, suc, ◌+◌, ◌-◌, ◌*◌, ◌/◌, ◌%◌, ◌^◌, ◌<◌, ◌≤◌, ◌≡◌, ◌∙◌, refl, sym, ap, List, [], ◌∷◌,
  ◌++◌, append_assoc, length, length-append, length-take, take, drop, take-append-drop, get_elem?,
  All, All-append_left, All-append_right, IsByte, arith,
}
use webtransport_rs.Huffman.Bits.{
  IsBit, value, bits_of_byte, bits, slice, value-bits_of_byte, value_append,
}

-- Two ways to cut a list.
levi {ℓ} :
    {A : Type ℓ} (xs ys zs ws : List A)
    → xs ++ ys ≡ zs ++ ws
    → length xs ≤ length zs
    → (m : List A) × (zs ≡ xs ++ m) × (ys ≡ m ++ ws)
levi [] ys zs ws e h = (zs, refl, e)
levi (x ∷ xs) ys [] ws e h = absurd (omega arith)
levi (x ∷ xs) ys (z ∷ zs) ws e h =
    let (m, e', e'') = levi xs ys zs ws (cc) (omega arith) in (m, cc, e'')

bits_append : (xs ys : List ℕ) → bits (xs ++ ys) ≡ bits xs ++ bits ys
bits_append [] ys = refl
bits_append (x ∷ xs) ys = rw (bits_append xs ys) refl

pub length-bits : (xs : List ℕ) → length (bits xs) ≡ length xs * 8
length-bits [] = refl
length-bits (x ∷ xs) = omega (arith, length-bits xs)

bits-IsBit : (xs : List ℕ) → All IsBit (bits xs)
bits-IsBit [] = tt
bits-IsBit (x ∷ xs) = (
  omega arith,
  (
    omega arith,
    (
      omega arith,
      (omega arith, (omega arith, (omega arith, (omega arith, (omega arith, bits-IsBit xs))))),
    ),
  ),
)

pub parts-IsBit : (src ys : List ℕ) → bits src ≡ ys → All IsBit ys
parts-IsBit src ys e = rw e at (bits-IsBit src)

pub get_elem?-drop {ℓ} :
    {A : Type ℓ} (xs : List A) (n k : ℕ) → get_elem? (drop n xs) k ≡ get_elem? xs (n + k)
get_elem?-drop xs zero k = let e : 0 + k ≡ k = omega arith in rw e refl
get_elem?-drop [] (suc n) k = refl
get_elem?-drop (x ∷ xs) (suc n) k =
    let e : suc n + k ≡ suc (n + k) = omega arith in rw e (get_elem?-drop xs n k)

-- In a list of bytes, the byte at which bits start.
pub at_byte :
    (src pre rest : List ℕ) (byte bit : ℕ)
    → bits src ≡ pre ++ rest
    → length pre ≡ byte * 8 + bit
    → (a : List ℕ) × (bits (drop byte src) ≡ a ++ rest) × (length a ≡ bit)
at_byte src pre rest byte bit e h =
    let whole = ap length e in
    let size : length (bits src) ≡ length pre + length rest = whole ∙ length-append pre rest in
    let within : byte ≤ length src = omega (arith, length-bits src, size) in
    let front = length-take byte src within in
    let cut : bits (take byte src) ++ bits (drop byte src) ≡ pre ++ rest =
      sym (bits_append (take byte src) (drop byte src)) ∙ ap bits (take-append-drop byte src) ∙ e in
    let shorter : length (bits (take byte src)) ≤ length pre =
      omega (arith, length-bits (take byte src)) in
    let (a, front_a, rest_a) =
      levi (bits (take byte src)) (bits (drop byte src)) pre rest cut shorter in
    let total : length pre ≡ length (bits (take byte src)) + length a =
      ap length front_a ∙ length-append (bits (take byte src)) a in
    (a, rest_a, omega (arith, length-bits (take byte src)))

-- The bits `v` behind `a`, in front of the end of the word `zs`.
window :
    (zs ws a v post : List ℕ)
    → All IsBit zs
    → zs ++ ws ≡ a ++ (v ++ post)
    → length a + length v ≤ length zs
    → value zs * 2 ^ length a % 2 ^ length zs / 2 ^ (length zs - length v) ≡ value v
window zs ws a v post hz e h =
    let (m, cut, _) =
      levi (a ++ v) post zs ws (append_assoc a v post ∙ sym e) (omega (arith, length-append a v)) in
    let parts : zs ≡ a ++ (v ++ m) = cut ∙ append_assoc a v m in
    let size : length zs ≡ length a + length v + length m =
      ap length cut ∙ length-append (a ++ v) m ∙ ap (λ n. n + length m) (length-append a v) in
    let over : length zs - length v ≡ length a + length m = omega arith in
    let bits_av : All IsBit (a ++ (v ++ m)) = rw parts at hz in
    let bits_vm = All-append_right IsBit a (v ++ m) bits_av in
    rw (over, size, parts)
      (slice a v m (All-append_left IsBit v m bits_vm) (All-append_right IsBit v m bits_vm))

-- The bits on the bytes `left`: on the first of them, or on the first two.
pub one_byte :
    (b : ℕ) (more a v post : List ℕ)
    → IsByte b
    → bits (b ∷ more) ≡ a ++ (v ++ post)
    → length a + length v ≤ 8
    → b * 2 ^ length a % 2 ^ 8 / 2 ^ (8 - length v) ≡ value v
one_byte b more a v post h e short =
    rw (value-bits_of_byte b h) at
      (window (bits_of_byte b) (bits more) a v post (omega arith) e short)

pub two_bytes :
    (b c : ℕ) (more a v post : List ℕ)
    → IsByte b
    → IsByte c
    → bits (b ∷ c ∷ more) ≡ a ++ (v ++ post)
    → length a < 8
    → length v ≤ 8
    → (b * 2 ^ 8 + c) * 2 ^ length a % 2 ^ 16 / 2 ^ (16 - length v) ≡ value v
two_bytes b c more a v post hb hc e ha hv =
    rw
      (
        value_append (bits_of_byte b) (bits_of_byte c),
        value-bits_of_byte b hb,
        value-bits_of_byte c hc,
      )
      at
      (window (bits_of_byte b ++ bits_of_byte c) (bits more) a v post (omega arith) e (omega arith))
