-- ===== src/Settings/Truncation.antt =====
-- A settings frame that has not arrived whole.
use webtransport_rs.Base.{
  ℕ, ◌^◌, ◌<◌, ◌≡◌, List, [], ◌∷◌, ◌++◌, append-nil, some, ok, err, All, IsByte, All-append,
  All-append_left, Outcome-cases, arith, inl, inr, length, length-append,
}
use webtransport_rs.HashMap.{nat_eq, Distinct, Iterates}
use webtransport_rs.Frame
use webtransport_rs.StreamUni
use webtransport_rs.VarInt.{VarInt}
use webtransport_rs.VarInt.Wire.{wire, wire-IsByte}
use webtransport_rs.Settings.{
  Settings, SettingsError, unexpected_end, unexpected_stream_type, unexpected_frame, invalid_size,
  decode,
}
use webtransport_rs.Settings.Encode.{encode}
use webtransport_rs.Settings.Entries.{entries_wire, entries_wire-IsByte}
use webtransport_rs.Settings.Ids.{Setting}
use webtransport_rs.Settings.RoundTrip.{IsValid, framed, encode_valid, decode-encode_settings}
use webtransport_rs.Settings.Stream.{decode-IsStreaming_settings, decode-ne-panic_settings}

-- An error of `decode` on a part of an input that it decodes can only be `UnexpectedEnd`.
error_of_part :
    (front more : List ℕ) (e : SettingsError) {t : Settings} {left : List ℕ}
    → decode (front ++ more) ≡ ok (t, left)
    → decode front ≡ err e
    → decode front ≡ err unexpected_end
error_of_part front more unexpected_end whole r = r
error_of_part front more (unexpected_stream_type x) whole r =
    cc (whole, decode-IsStreaming_settings.err_append front more _ (λ p. cc) r)
error_of_part front more (unexpected_frame x) whole r =
    cc (whole, decode-IsStreaming_settings.err_append front more _ (λ p. cc) r)
error_of_part front more invalid_size whole r =
    cc (whole, decode-IsStreaming_settings.err_append front more _ (λ p. cc) r)

part_ends :
    (front back : List ℕ) (b : ℕ) (t : Settings)
    → All IsByte front
    → decode (front ++ b ∷ back) ≡ ok (t, [])
    → decode front ≡ err unexpected_end
part_ends front back b t bytes whole = elim (Outcome-cases (decode front)) [
  | inl ((u, left), r) ↦ ground (
    arith,
    whole,
    decode-IsStreaming_settings.ok_append front (b ∷ back) u left r,
    length-append left (b ∷ back),
  )
  | inr (inl (e, r)) ↦ error_of_part front (b ∷ back) e whole r
  | inr (inr r) ↦ absurd (decode-ne-panic_settings front bytes r)
]

framed-IsByte : (tmp : List ℕ) → All IsByte tmp → All IsByte (framed tmp)
framed-IsByte tmp h =
    let size = wire (length tmp) in
    All-append IsByte (wire StreamUni.control) (wire Frame.settings ++ (size ++ tmp))
      (wire-IsByte _)
      (All-append IsByte (wire Frame.settings) (size ++ tmp) (wire-IsByte _)
        (All-append IsByte size tmp (wire-IsByte _) h))

module _ (iter : Settings → List (Setting × VarInt))
    (iterates : (s : Settings) → Distinct s → Iterates (iter s) s) where
  -- On every proper prefix of what `encode` writes for valid settings, fewer than 2 ^ 28, `decode`
  -- asks for more with `UnexpectedEnd`.
  pub decode_truncated_settings :
      (s : Settings) (front back : List ℕ) (b : ℕ)
      → IsValid s
      → length s < 2 ^ 28
      → encode iter s ≡ some (front ++ b ∷ back)
      → decode front ≡ err unexpected_end
  decode_truncated_settings s front back b v h e =
      let out = framed (entries_wire (iter s)) in
      let same : out ≡ front ++ b ∷ back = cc (encode_valid iter iterates s v h) in
      let (bs, t, written, read, _) = decode-encode_settings iter iterates s [] v h in
      let bytes = framed-IsByte (entries_wire (iter s)) (entries_wire-IsByte (iter s)) in
      let whole : bs ≡ front ++ b ∷ back = cc in
      part_ends front back b t (All-append_left IsByte front (b ∷ back) (rw same at bytes))
        (rw (append-nil, whole) at read)
