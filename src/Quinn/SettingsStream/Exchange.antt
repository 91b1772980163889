-- ===== src/Quinn/SettingsStream/Exchange.antt =====
-- What one endpoint writes, the other accepts.
use webtransport_rs.Base.{
  sym, ℕ, ◌≡◌, ◌↔◌, ◌∙◌, refl, true, some, List, [], ◌++◌, Outcome, ok, err, ◌>>=◌, arith,
}
use webtransport_rs.HashMap.{nat_eq, Distinct, Iterates}
use webtransport_rs.VarInt
use webtransport_rs.VarInt.{VarInt}
use webtransport_rs.StreamUni
use webtransport_rs.Settings
use webtransport_rs.Settings.{Settings}
use webtransport_rs.Settings.Ids.{Setting}
use webtransport_rs.Settings.Encode.{encode, enable_webtransport}
use webtransport_rs.Settings.RoundTrip.{handshake}
use webtransport_rs.Settings.Stream.{decode-IsStreaming_settings}
use webtransport_rs.Quinn.Reading.{
  Event, chunks, joined, read_loop, read_loop-append, read_loop-joined, at_end,
}
use webtransport_rs.Quinn.SettingsStream.{
  SettingsError, unexpected_end, read_error, proto_error, is_unexpected_end, supported, accept,
  open_settings,
}

is_unexpected_end_iff :
    (e : Settings.SettingsError) → (is_unexpected_end e ≡ true) ↔ (e ≡ Settings.unexpected_end)
is_unexpected_end_iff Settings.unexpected_end = (λ h. refl, λ h. refl)
is_unexpected_end_iff (Settings.unexpected_stream_type x) = (λ h. cc, λ h. cc)
is_unexpected_end_iff (Settings.unexpected_frame x) = (λ h. cc, λ h. cc)
is_unexpected_end_iff Settings.invalid_size = (λ h. cc, λ h. cc)

decode-nil : Settings.decode [] ≡ err Settings.unexpected_end
unfolding Settings.decode StreamUni.decode VarInt.decode
decode-nil = refl

module _ {C R W : Type 0} where
  abbrev pub answer :
      Outcome Settings.SettingsError (Settings × List ℕ) → Outcome (SettingsError C R W) Settings
  answer r = at_end unexpected_end read_error proto_error is_unexpected_end Settings.decode r

  abbrev reading : List (Event R) → Outcome (SettingsError C R W) Settings
  reading es =
      read_loop unexpected_end read_error proto_error is_unexpected_end Settings.decode [] es

  reading-chunks : (cs : List (List ℕ)) → reading (chunks cs) ≡ answer (Settings.decode (joined cs))
  reading-chunks cs =
      read_loop-joined unexpected_end read_error proto_error is_unexpected_end Settings.decode
        Settings.unexpected_end is_unexpected_end_iff decode-IsStreaming_settings cs [] decode-nil

  -- However the settings stream is cut into chunks, and it then ends, `accept` comes to one decoding
  -- of the whole stream.
  pub accept-chunks :
      (cs : List (List ℕ))
      → accept {C = C} (ok (chunks cs)) ≡ (answer (Settings.decode (joined cs)) >>= supported)
  unfolding accept
  accept-chunks cs = rw (reading-chunks cs) refl

  opened :
      (iter : Settings → List (Setting × VarInt)) (bs : List ℕ)
      → encode iter (enable_webtransport [] 1) ≡ some bs
      → open_settings {C = C} {R = R} {W = W} iter (ok tt) (λ _. ok tt) ≡ ok bs
  unfolding open_settings
  opened iter bs e = ground (arith, e)

  -- In any iteration order the settings can be written: `open` reaches the writing of some bytes, and
  -- succeeds where `open_uni` and `write_all` do.
  pub open_settings_lem :
      (iter : Settings → List (Setting × VarInt))
      → ((s : Settings) → Distinct s → Iterates (iter s) s)
      → (bs : List ℕ) × (open_settings {C = C} {R = R} {W = W} iter (ok tt) (λ _. ok tt) ≡ ok bs)
  open_settings_lem iter iterates =
      let (bs, t, written, _, _) = handshake iter iterates 1 [] (omega arith) in
      (bs, opened iter bs written)

  opened_bytes :
      (iter : Settings → List (Setting × VarInt)) (bs sent : List ℕ)
      → encode iter (enable_webtransport [] 1) ≡ some bs
      → open_settings {C = C} {R = R} {W = W} iter (ok tt) (λ _. ok tt) ≡ ok sent
      → bs ≡ sent
  opened_bytes iter bs sent e written = cc (opened iter bs e, written)

  -- Both endpoints of this library: the bytes `sent` that `open` writes are accepted, in whatever
  -- chunks they arrive, whatever follows them and whatever happens on the stream afterwards.
  pub settings_exchange :
      (iter : Settings → List (Setting × VarInt))
      → ((s : Settings) → Distinct s → Iterates (iter s) s)
      → (sent rest : List ℕ) (cs : List (List ℕ)) (more : List (Event R))
      → open_settings {C = C} {R = R} {W = W} iter (ok tt) (λ _. ok tt) ≡ ok sent
      → joined cs ≡ sent ++ rest
      → accept {C = C} {R = R} {W = W} (ok (chunks cs ++ more)) ≡ ok tt
  settings_exchange iter iterates sent rest cs more written same =
      let (bs, t, encoded, read, offered) = handshake iter iterates 1 rest (omega arith) in
      let one = opened_bytes iter bs sent encoded written in
      let whole : reading (chunks cs) ≡ ok t = reading-chunks cs ∙ rw (same, sym one, read) refl in
      let past =
        read_loop-append unexpected_end read_error proto_error is_unexpected_end Settings.decode
          (chunks cs) more [] t whole in
      unfold accept in rw (past, offered) refl
