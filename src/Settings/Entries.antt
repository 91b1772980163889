-- ===== src/Settings/Entries.antt =====
-- The entries of the frame on the wire, and the loops that write and read them.
use webtransport_rs.Base.{
  ℕ, ◌*◌, zero, suc, ◌+◌, ◌≤◌, ◌≡◌, ◌∙◌, refl, List, [], ◌∷◌, ◌++◌, length, length-append, some, ok,
  All, IsByte, All-append, arith,
}
use webtransport_rs.HashMap
use webtransport_rs.HashMap.{HashMap, nat_eq}
use webtransport_rs.VarInt
use webtransport_rs.VarInt.{VarInt, IsVarInt}
use webtransport_rs.VarInt.Wire.{wire, encode-wire, decode-wire, length-wire, wire-IsByte}
use webtransport_rs.Settings.{Settings, decode_entries}
use webtransport_rs.Settings.Encode.{encode_entries}
use webtransport_rs.Settings.Ids
use webtransport_rs.Settings.Ids.{Setting}

abbrev pub IsEntry : Setting × VarInt → Type 0
IsEntry (id, value) = IsVarInt id × IsVarInt value

unfoldable pub entries_wire : List (Setting × VarInt) → List ℕ
entries_wire [] = []
entries_wire ((id, value) ∷ es) = wire id ++ (wire value ++ entries_wire es)

pub encode_entries-wire :
    (es : List (Setting × VarInt)) → All IsEntry es → encode_entries es ≡ some (entries_wire es)
unfolding encode_entries entries_wire
encode_entries-wire [] h = refl
encode_entries-wire ((id, value) ∷ es) h =
    ground (arith, Ids.encode_lem id, encode-wire id, encode-wire value, encode_entries-wire es h.1)

-- One round of the loop.
decode_entries_step :
    (fuel : ℕ) (s : Settings) (bs : List ℕ) (id value : VarInt) (rest rest' : List ℕ)
    → VarInt.decode bs ≡ ok (id, rest)
    → VarInt.decode rest ≡ ok (value, rest')
    → decode_entries (suc fuel) s bs ≡ decode_entries fuel (HashMap.insert s id value) rest'
unfolding decode_entries
decode_entries_step fuel s [] id value rest rest' e e' = unfold VarInt.decode in cc
decode_entries_step fuel s (b ∷ bs) id value rest rest' e e' =
    ground (arith, Ids.decode_lem (b ∷ bs), e, e')

-- Two numbers take two bytes at least.
entries_wire-lt :
    (id value : VarInt) (es : List (Setting × VarInt))
    → length (entries_wire es) + 2 ≤ length (entries_wire ((id, value) ∷ es))
unfolding entries_wire
entries_wire-lt id value es = omega (
  arith,
  length-append (wire id) (wire value ++ entries_wire es),
  length-append (wire value) (entries_wire es),
  length-wire id,
  length-wire value,
)

-- The loop reads back the entries, and writes each into the map.
pub decode_entries-wire :
    (es : List (Setting × VarInt)) (fuel : ℕ) (s : Settings)
    → All IsEntry es
    → length (entries_wire es) ≤ fuel
    → decode_entries fuel s (entries_wire es) ≡ ok (HashMap.insert_all s es)
unfolding HashMap.insert_all
decode_entries-wire [] fuel s h hf = unfold decode_entries entries_wire in refl
decode_entries-wire ((id, value) ∷ es) zero s h hf =
    absurd (omega (arith, entries_wire-lt id value es))
decode_entries-wire ((id, value) ∷ es) (suc fuel) s h hf =
    let more = entries_wire es in
    decode_entries_step fuel s (entries_wire ((id, value) ∷ es)) id value (wire value ++ more) more
      (unfold entries_wire in decode-wire id (wire value ++ more) h.0.0)
      (decode-wire value more h.0.1)
    ∙ decode_entries-wire es fuel (HashMap.insert s id value) h.1
        (omega (arith, entries_wire-lt id value es))

pub length-entries_wire : (es : List (Setting × VarInt)) → length (entries_wire es) ≤ 16 * length es
unfolding entries_wire
length-entries_wire [] = omega arith
length-entries_wire ((id, value) ∷ es) = omega (
  arith,
  length-append (wire id) (wire value ++ entries_wire es),
  length-append (wire value) (entries_wire es),
  length-wire id,
  length-wire value,
  length-entries_wire es,
)

pub entries_wire-IsByte : (es : List (Setting × VarInt)) → All IsByte (entries_wire es)
unfolding entries_wire
entries_wire-IsByte [] = tt
entries_wire-IsByte ((id, value) ∷ es) =
    All-append IsByte (wire id) (wire value ++ entries_wire es) (wire-IsByte id) (
      All-append IsByte (wire value) (entries_wire es) (wire-IsByte value) (entries_wire-IsByte es))
