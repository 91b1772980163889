-- ===== src/Settings/RoundTrip.antt =====
-- A peer reads back the settings that were written.
use webtransport_rs.Base.{
  ℕ, ◌%◌, ◌^◌, ◌<◌, ◌≡◌, ◌∙◌, refl, sym, List, [], ◌++◌, append_assoc, length, some, ok, All, arith,
  ◌>>=◌, take-append, drop-append,
}
use webtransport_rs.HashMap
use webtransport_rs.HashMap.{HashMap, nat_eq, Distinct, Iterates}
use webtransport_rs.HashMap.Laws.{All-get, get-insert_all_copy, get-insert, insert-Distinct}
use webtransport_rs.Frame
use webtransport_rs.StreamUni
use webtransport_rs.VarInt.{VarInt, IsVarInt}
use webtransport_rs.VarInt.Wire.{wire, encode-wire, decode-wire}
use webtransport_rs.Settings.{Settings, decode_entries, decode, decode_limited}
use webtransport_rs.Settings.Encode.{encode, enable_webtransport}
use webtransport_rs.Settings.Entries.{
  IsEntry, entries_wire, encode_entries-wire, decode_entries-wire, length-entries_wire,
}
use webtransport_rs.Settings.Support.{
  supports_webtransport, supports_webtransport-ext, enable_webtransport_lem,
}
use webtransport_rs.Settings.Ids.{Setting}

-- A map that can be written: no key twice, and every number is a VarInt.
pub record IsValid (s : Settings) : Type 0 where
  pub distinct : Distinct s
  pub in_range : (k : Setting) (v : VarInt) → HashMap.get s k ≡ some v → IsVarInt k × IsVarInt v

-- The frame around a payload: the stream type, the frame type and the size.
abbrev pub framed : List ℕ → List ℕ
framed tmp = wire StreamUni.control ++ (wire Frame.settings ++ (wire (length tmp) ++ tmp))

decode_limited-append :
    (tmp rest : List ℕ)
    → decode_limited (length tmp) (tmp ++ rest)
      ≡ (decode_entries (length tmp) [] tmp >>= λ s. ok (s, rest))
unfolding decode_limited
decode_limited-append tmp rest = rw (take-append tmp rest, drop-append tmp rest) (ground arith)

pub decode-framed :
    (tmp rest : List ℕ)
    → IsVarInt (length tmp)
    → decode (framed tmp ++ rest) ≡ (decode_entries (length tmp) [] tmp >>= λ s. ok (s, rest))
unfolding decode
decode-framed tmp rest h =
    simp
      (
        append_assoc,
        StreamUni.decode_lem,
        Frame.decode_lem,
        decode-wire StreamUni.control _ (omega arith),
        decode-wire Frame.settings _ (omega arith),
        decode-wire (length tmp) _ h,
      )
      (decode_limited-append tmp rest)

encode-framed :
    (iter : Settings → List (Setting × VarInt)) (s : Settings)
    → All IsEntry (iter s)
    → length (entries_wire (iter s)) < 2 ^ 32
    → encode iter s ≡ some (framed (entries_wire (iter s)))
unfolding encode
encode-framed iter s h hl = ground (
  arith,
  StreamUni.encode_lem StreamUni.control,
  Frame.encode_lem Frame.settings,
  encode-wire StreamUni.control,
  encode-wire Frame.settings,
  encode_entries-wire (iter s) h,
  encode-wire (length (entries_wire (iter s))),
  encode-wire (length (entries_wire (iter s)) % 2 ^ 32),
)

empty-IsValid : IsValid []
empty-IsValid = record { distinct = tt; in_range = λ k v found. unfold HashMap.get in cc }

insert-IsValid :
    (s : Settings) (k : Setting) (v : VarInt)
    → IsVarInt k
    → IsVarInt v
    → IsValid s
    → IsValid (HashMap.insert s k v)
insert-IsValid s k v hk hv valid = record {
  distinct = insert-Distinct s k v valid.distinct;
  in_range = λ j w found. ground (arith, get-insert s k j v, valid.in_range j w, found);
}

pub enable_webtransport-IsValid :
    (s : Settings) (n : ℕ) → n < 2 ^ 32 → IsValid s → IsValid (enable_webtransport s n)
unfolding enable_webtransport
enable_webtransport-IsValid s n h valid =
    let one : IsVarInt 1 = omega arith in
    let small : IsVarInt n = omega arith in
    insert-IsValid _ _ 1 (omega arith) one (
      insert-IsValid _ _ n (omega arith) small (
        insert-IsValid _ _ n (omega arith) small (
          insert-IsValid _ _ 1 (omega arith) one (
            insert-IsValid _ _ 1 (omega arith) one
              (insert-IsValid _ _ 1 (omega arith) one valid)))))

module _ (iter : Settings → List (Setting × VarInt))
    (iterates : (s : Settings) → Distinct s → Iterates (iter s) s) where
  entries_valid : (s : Settings) → IsValid s → All IsEntry (iter s)
  entries_valid s v =
      let it = iterates s v.distinct in
      All-get IsEntry (iter s) it.distinct (λ k w found. v.in_range k w (sym (it.same k) ∙ found))

  entries_fit :
      (s : Settings) → Distinct s → length s < 2 ^ 28 → length (entries_wire (iter s)) < 2 ^ 32
  entries_fit s d h = omega (arith, (iterates s d).count, length-entries_wire (iter s))

  pub encode_valid :
      (s : Settings)
      → IsValid s
      → length s < 2 ^ 28
      → encode iter s ≡ some (framed (entries_wire (iter s)))
  encode_valid s v h = encode-framed iter s (entries_valid s v) (entries_fit s v.distinct h)

  -- Whatever the order in which the map is iterated: valid settings, fewer than 2 ^ 28, can be
  -- written, and a peer that decodes the bytes has a map with the same settings and is left with
  -- just the bytes that followed the frame.
  pub decode-encode_settings :
      (s : Settings) (rest : List ℕ)
      → IsValid s
      → length s < 2 ^ 28
      → (bs : List ℕ) × (t : Settings) × (encode iter s ≡ some bs)
        × (decode (bs ++ rest) ≡ ok (t, rest))
        × ((k : Setting) → HashMap.get t k ≡ HashMap.get s k)
  decode-encode_settings s rest v h =
      let es = iter s in
      let it = iterates s v.distinct in
      let valid = entries_valid s v in
      let fits = entries_fit s v.distinct h in
      (
        framed (entries_wire es),
        HashMap.insert_all [] es,
        encode_valid s v h,
        decode-framed (entries_wire es) rest (omega arith)
            ∙ rw (decode_entries-wire es (length (entries_wire es)) [] valid (omega arith)) refl,
        λ k. get-insert_all_copy k it,
      )

  -- The handshake: what `enable_webtransport` puts into an empty map and `encode` writes, a peer
  -- reads as support for the same number of sessions.
  pub handshake :
      (n : ℕ) (rest : List ℕ)
      → n < 2 ^ 32
      → (bs : List ℕ) × (t : Settings) × (encode iter (enable_webtransport [] n) ≡ some bs)
        × (decode (bs ++ rest) ≡ ok (t, rest))
        × (supports_webtransport t ≡ n)
  handshake n rest h =
      let sent = enable_webtransport [] n in
      let valid = enable_webtransport-IsValid [] n h empty-IsValid in
      let (bs, t, written, read, same) =
        decode-encode_settings sent rest valid
          (unfold enable_webtransport HashMap.insert in omega arith) in
      (
        bs,
        t,
        written,
        read,
        supports_webtransport-ext t sent same ∙ (enable_webtransport_lem [] n 0).0,
      )
