-- ===== src/Settings/Stream.antt =====
-- `decode` on a buffer that grows: the caller retries exactly while the answer is `UnexpectedEnd`.
use webtransport_rs.Base.{
  ◌++◌, ℕ, zero, suc, ◌≤◌, ◌≡◌, ◌≢◌, List, [], ◌∷◌, err, panic, Outcome, Outcome-cases, All, IsByte,
  arith, take, length, if◌then◌else◌, All-take, true, false, ◌==◌,
}
use mathlib.Core.Bool.{Bool, not}
use mathlib.Core.Path.{fun_ext}
use webtransport_rs.HashMap
use webtransport_rs.HashMap.{HashMap, nat_eq, Distinct, Iterates}
use webtransport_rs.Frame
use webtransport_rs.StreamUni
use webtransport_rs.VarInt.{VarInt}
use webtransport_rs.VarInt.Streaming.{
  extend, IsStreaming-settled, guarded-IsStreaming, IsStreaming, after_varint,
  after_varint-IsStreaming, limited-IsStreaming, decode_then-ne-panic,
}
use webtransport_rs.Settings.{
  Settings, SettingsError, unexpected_end, unexpected_stream_type, unexpected_frame, invalid_size,
  decode_entries, decode, decode_limited,
}
use webtransport_rs.Settings.Ids
use webtransport_rs.Settings.Ids.{Setting}

-- `decode` as three numbers read one after the other.
after_typ : VarInt → List ℕ → Outcome SettingsError (Settings × List ℕ)
after_typ typ buf =
    if not (typ == Frame.settings)
    then err (unexpected_frame typ)
    else after_varint unexpected_end decode_limited buf

after_stream : VarInt → List ℕ → Outcome SettingsError (Settings × List ℕ)
after_stream typ buf =
    if not (typ == StreamUni.control)
    then err (unexpected_stream_type typ)
    else after_varint unexpected_end after_typ buf

decode-after_varint : (buf : List ℕ) → decode buf ≡ after_varint unexpected_end after_stream buf
unfolding decode after_stream after_typ
decode-after_varint buf = simp (StreamUni.decode_lem, Frame.decode_lem)

decode_limited-IsStreaming : (size : VarInt) → IsStreaming unexpected_end (decode_limited size)
unfolding decode_limited
decode_limited-IsStreaming size =
    limited-IsStreaming unexpected_end (λ limit. decode_entries (length limit) [] limit) size

after_typ-IsStreaming : (typ : VarInt) → IsStreaming unexpected_end (after_typ typ)
unfolding after_typ
after_typ-IsStreaming typ =
    guarded-IsStreaming unexpected_end (unexpected_frame typ) _ _
      (after_varint-IsStreaming unexpected_end decode_limited decode_limited-IsStreaming)

after_stream-IsStreaming : (typ : VarInt) → IsStreaming unexpected_end (after_stream typ)
unfolding after_stream
after_stream-IsStreaming typ =
    guarded-IsStreaming unexpected_end (unexpected_stream_type typ) _ _
      (after_varint-IsStreaming unexpected_end after_typ after_typ-IsStreaming)

pub decode-IsStreaming_settings : IsStreaming unexpected_end decode
decode-IsStreaming_settings =
    rw (fun_ext decode-after_varint)
      (after_varint-IsStreaming unexpected_end after_stream after_stream-IsStreaming)

-- Once `decode` has answered anything but `UnexpectedEnd`, more bytes do not change the answer: the
-- same settings, with the new bytes left over, or the same error.
pub decode_settled_settings :
    (bs more : List ℕ)
    → decode bs ≢ err unexpected_end
    → decode (bs ++ more) ≡ extend more (decode bs)
decode_settled_settings bs more h =
    IsStreaming-settled unexpected_end decode bs more decode-IsStreaming_settings h

decode_entries-ne-panic :
    (fuel : ℕ) (s : Settings) (bs : List ℕ)
    → All IsByte bs
    → length bs ≤ fuel
    → decode_entries fuel s bs ≢ panic
unfolding decode_entries
decode_entries-ne-panic fuel s [] h hf = λ e. cc
decode_entries-ne-panic zero s (b ∷ bs) h hf = absurd (omega arith)
decode_entries-ne-panic (suc fuel) s (b ∷ bs) h hf = rw (Ids.decode_lem (b ∷ bs)) (
    decode_then-ne-panic invalid_size _ (b ∷ bs) h λ id rest hr shorter.
      decode_then-ne-panic invalid_size _ rest hr λ value left hl less.
        decode_entries-ne-panic fuel (HashMap.insert s id value) left hl (omega arith))

decode_limited-ne-panic :
    (size : VarInt) (buf : List ℕ) → All IsByte buf → decode_limited size buf ≢ panic
unfolding decode_limited
decode_limited-ne-panic size buf h =
    let total =
      decode_entries-ne-panic (length (take size buf)) [] (take size buf)
        (All-take IsByte size buf h) (omega arith) in
    ground
      (arith, total, Outcome-cases (decode_entries (length (take size buf)) [] (take size buf)))

guarded-ne-panic {ℓ κ} :
    {E : Type ℓ} {B : Type κ} (refuse : Bool) (e : E) (r : Outcome E B)
    → r ≢ panic
    → (if refuse then err e else r) ≢ panic
guarded-ne-panic true e r h = λ x. cc
guarded-ne-panic false e r h = h

-- On any bytes `decode` returns: its loop ends, and no `unreachable!` is reached.
pub decode-ne-panic_settings : (buf : List ℕ) → All IsByte buf → decode buf ≢ panic
unfolding after_stream after_typ
decode-ne-panic_settings buf h = rw (decode-after_varint buf) (
    decode_then-ne-panic unexpected_end after_stream buf h λ stream rest hr _.
      guarded-ne-panic _ _ _ (
        decode_then-ne-panic unexpected_end after_typ rest hr λ typ left hl _.
          guarded-ne-panic _ _ _ (
            decode_then-ne-panic unexpected_end decode_limited left hl
              λ size body hb _. decode_limited-ne-panic size body hb)))
