-- ===== src/Quinn/Handshake/Client.antt =====
-- webtransport-quinn/src/client.rs.
use webtransport_rs.Base.{
  ℕ, Option, none, some, List, [], ◌∷◌, Outcome, ok, err, panic, ◌>>=◌, map_err,
}
use webtransport_rs.VarInt.{VarInt}
use webtransport_rs.Qpack.Text.{Bytes}
use webtransport_rs.Qpack.Headers.{Headers}
use webtransport_rs.Settings.{Settings}
use webtransport_rs.Settings.Ids.{Setting}
use webtransport_rs.Connect.HttpCrate.{Http}
use webtransport_rs.Quinn.SettingsStream.{SettingsError}
use webtransport_rs.Quinn.ConnectStream.{ConnectError, open_connect}
use webtransport_rs.Quinn.Session
use webtransport_rs.Quinn.Session.{Session}
use webtransport_rs.Quinn.Handshake.{Answers, Join, connect_settings}

-- `Q` is quinn's error of a connection attempt.
module _ (h : Http) (C R W Q : Type 0) where
  pub data ClientError : Type 0 where
    unexpected_end : ClientError
    connection : C → ClientError
    write_error : W → ClientError
    read_error : R → ClientError
    settings_error : SettingsError C R W → ClientError
    connect_error : ConnectError h C R W → ClientError
    quic_error : Q → ClientError
    invalid_dns_name : Bytes → ClientError

-- `unwrap_or(443)`.
abbrev pub or_https : Option ℕ → ℕ
or_https none = 443
or_https (some port) = port

-- A value that is `None` where the code unwraps it.
abbrev pub unwrap {ℓ κ} : {E : Type ℓ} {A : Type κ} → Option A → Outcome E A
unwrap none = panic
unwrap (some a) = ok a

module _ {h : Http} {C R W Q : Type 0} (try_join : Join C R W)
    (iter_settings : Settings → List (Setting × VarInt))
    (iter : Headers → List (Bytes × Bytes)) where
  unfoldable pub connect_with : Answers C R W → h.Uri → Outcome (ClientError h C R W Q) (Session C)
  connect_with conn uri = do
    settings ← map_err settings_error (connect_settings try_join iter_settings conn)
    connect ← map_err connect_error (open_connect iter conn.connect_recv conn.connect_write uri)
    unwrap (Session.new conn.stream_id)

  -- `host` and `port` are those of the crate http, `to_socket_addrs` looks a name up, and `dial` is
  -- quinn's `connect`, with the outcome of the attempt and what the connection answers.
  unfoldable pub connect {ℓ κ} :
      {Addr : Type ℓ} {X : Type κ}
      → (h.Authority → Bytes)
      → (h.Authority → Option ℕ)
      → (Bytes → ℕ → Outcome X (List Addr))
      → (Addr → Bytes → Outcome Q (Outcome C (Answers C R W)))
      → h.Uri
      → Outcome (ClientError h C R W Q) (Session C)
  connect host port to_socket_addrs dial uri = elim (h.authority uri) [
    | none ↦ err (invalid_dns_name [])
    | some authority ↦ elim (to_socket_addrs (host authority) (or_https (port authority))) [
      | err e ↦ err (invalid_dns_name (host authority))
      | panic ↦ panic
      | ok [] ↦ err (invalid_dns_name (host authority))
      | ok (remote ∷ more) ↦ do
        dialled ← map_err quic_error (dial remote (host authority))
        conn ← map_err connection dialled
        connect_with conn uri
    ]
  ]
