-- ===== src/Huffman/Code.antt =====
-- The code of RFC 7541, appendix B, which the tables of huffman.rs are to decode.
mod Rows
use webtransport_rs.Base.{
  ℕ, zero, suc, ◌+◌, ◌/◌, ◌%◌, ◌^◌, ◌<◌, ◌≤◌, ◌≡◌, refl, sym, ap, Option, none, some, List, [], ◌∷◌,
  length, get_elem?, leb, ◌==◌, ◌&&◌, Bool, true, false, arith,
}
use webtransport_rs.Huffman.Walk.{find}
use webtransport_rs.Huffman.Table.Short.{hpack_string}
use Rows.{rows}

abbrev to_bits : ℕ → ℕ → List ℕ
to_bits zero n = []
to_bits (suc l) n = n / 2 ^ l % 2 ∷ to_bits l n

unfoldable pub code : ℕ → List ℕ
code x = elim (get_elem? rows x) [ none ↦ [] | some (n, l) ↦ to_bits l n ]

abbrev is_symbol : ℕ → Option ℕ → Bool
is_symbol x none = false
is_symbol x (some y) = y == x

and_true : (a b : Bool) → (a && b) ≡ true → (a ≡ true) × (b ≡ true)
and_true true b e = (refl, e)
and_true false b e = absurd (cc e)

is_symbol-true : (x : ℕ) (o : Option ℕ) → is_symbol x o ≡ true → o ≡ some x
is_symbol-true x none e = absurd (cc e)
is_symbol-true x (some y) e = let same : y ≡ x = ground arith in ap some same

elem-at {ℓ} :
    {A : Type ℓ} (xs : List A) (i : ℕ) → i < length xs → (x : A) × (get_elem? xs i ≡ some x)
elem-at [] i h = absurd (omega arith)
elem-at (x ∷ xs) zero h = (x, refl)
elem-at (x ∷ xs) (suc i) h = elem-at xs i (omega arith)

module _ (f : List ℕ → Option ℕ) where
  -- From the byte `x` on, `f` takes the code of each byte, of five bits at least, to the byte.
  abbrev agrees : ℕ → List (ℕ × ℕ) → Bool
  agrees x [] = true
  agrees x ((n, l) ∷ more) =
      is_symbol x (f (to_bits l n)) && (leb 5 (length (to_bits l n)) && agrees (suc x) more)

  agrees-at :
      (table : List (ℕ × ℕ)) (x i n l : ℕ)
      → agrees x table ≡ true
      → get_elem? table i ≡ some (n, l)
      → (f (to_bits l n) ≡ some (x + i)) × (5 ≤ length (to_bits l n))
  agrees-at [] x i n l good e = absurd (cc e)
  agrees-at ((n', l') ∷ more) x zero n l good e =
      let (symbol, rest) = and_true (is_symbol x (f (to_bits l' n'))) _ good in
      let (long, _) = and_true (leb 5 (length (to_bits l' n'))) _ rest in
      let here : f (to_bits l' n') ≡ some x = is_symbol-true x (f (to_bits l' n')) symbol in
      let five : 5 ≤ length (to_bits l' n') = ground arith in
      let same_n : n' ≡ n = cc e in
      let same_l : l' ≡ l = cc e in
      let last : x + 0 ≡ x = omega arith in rw (sym same_n, sym same_l, last) (here, five)
  agrees-at ((n', l') ∷ more) x (suc i) n l good e =
      let (_, rest) = and_true (is_symbol x (f (to_bits l' n'))) _ good in
      let (_, later) = and_true (leb 5 (length (to_bits l' n'))) _ rest in
      let step : x + suc i ≡ suc x + i = omega arith in
      rw step (agrees-at more (suc x) i n l later e)

tables_agree : agrees (find hpack_string) 0 rows ≡ true
tables_agree = refl

-- The code of each byte has five bits at least, and leads from the first table to the byte.
pub find-code : (x : ℕ) → x < 256 → (find hpack_string (code x) ≡ some x) × (5 ≤ length (code x))
unfolding code
find-code x h =
    let ((n, l), e) = elem-at rows x h in
    let first : 0 + x ≡ x = omega arith in
    rw e (rw first at (agrees-at (find hpack_string) rows 0 x n l tables_agree e))
