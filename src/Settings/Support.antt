-- ===== src/Settings/Support.antt =====
-- `supports_webtransport`: what a peer's settings mean.
use webtransport_rs.Base.{
  ℕ, ◌≡◌, ◌↔◌, ◌⊎◌, ◌<◌, Bool, false, Option, none, some, ◌==◌, if◌then◌else◌, arith,
}
use mathlib.Core.Bool.{not}
use webtransport_rs.HashMap
use webtransport_rs.HashMap.{HashMap, nat_eq}
use webtransport_rs.HashMap.Laws.{or_else, get-insert}
use webtransport_rs.Settings.{Settings}
use webtransport_rs.Settings.Encode.{enable_webtransport}
use webtransport_rs.Settings.Ids.{
  Setting, enable_connect_protocol, enable_datagram, enable_datagram_deprecated,
  webtransport_enable_deprecated, webtransport_max_sessions_deprecated, webtransport_max_sessions,
}

-- `o == Some(n)`, and `unwrap_or`.
abbrev is_value : Option ℕ → ℕ → Bool
is_value none n = false
is_value (some m) n = m == n

abbrev unwrap_or : Option ℕ → ℕ → ℕ
unwrap_or none n = n
unwrap_or (some m) n = m

unfoldable pub supports_webtransport : Settings → ℕ
supports_webtransport s =
    let datagram =
      or_else (HashMap.get s enable_datagram) (HashMap.get s enable_datagram_deprecated) in
    if not (is_value datagram 1) then 0 else elim (HashMap.get s webtransport_max_sessions) [
      | some max ↦ max
      | none ↦
          if not (is_value (HashMap.get s webtransport_enable_deprecated) 1)
          then 0
          else unwrap_or (HashMap.get s webtransport_max_sessions_deprecated) 1
    ]

-- Only the values of the settings count, not how the map stores them.
pub supports_webtransport-ext :
    (s t : Settings)
    → ((k : Setting) → HashMap.get s k ≡ HashMap.get t k)
    → supports_webtransport s ≡ supports_webtransport t
unfolding supports_webtransport
supports_webtransport-ext s t h = ground (
  arith,
  h enable_datagram,
  h enable_datagram_deprecated,
  h webtransport_max_sessions,
  h webtransport_enable_deprecated,
  h webtransport_max_sessions_deprecated,
)

-- What the drafts ask of a peer that accepts `n` sessions: HTTP datagrams are on, and the number is
-- given by the new setting or, where that is missing, by the deprecated pair.
abbrev pub Datagrams : Settings → Type 0
Datagrams s =
    (HashMap.get s enable_datagram ≡ some 1)
    ⊎ ((HashMap.get s enable_datagram ≡ none) × (HashMap.get s enable_datagram_deprecated ≡ some 1))

abbrev pub Offers : Settings → ℕ → Type 0
Offers s n =
    Datagrams s
    × ((HashMap.get s webtransport_max_sessions ≡ some n)
        ⊎ ((HashMap.get s webtransport_max_sessions ≡ none)
            × (HashMap.get s webtransport_enable_deprecated ≡ some 1)
            × ((HashMap.get s webtransport_max_sessions_deprecated ≡ some n)
                ⊎ ((HashMap.get s webtransport_max_sessions_deprecated ≡ none) × (n ≡ 1)))))

-- `supports_webtransport` returns a positive `n` exactly when the peer offers `n` sessions.
pub supports_webtransport_iff :
    (s : Settings) (n : ℕ) → 0 < n → (supports_webtransport s ≡ n) ↔ Offers s n
unfolding supports_webtransport
supports_webtransport_iff s n h = (λ e. (ground arith, ground arith), λ o. ground arith)

-- Whatever was set before, after `enable_webtransport` the settings support as many sessions as were
-- asked for; six settings have their new values, and all others are as they were.
pub enable_webtransport_lem :
    (s : Settings) (n : ℕ) (k : Setting)
    → (supports_webtransport (enable_webtransport s n) ≡ n)
      × (HashMap.get (enable_webtransport s n) k ≡ (
          if k == webtransport_max_sessions
          then some n
          else if k == webtransport_max_sessions_deprecated
          then some n
          else if k == enable_connect_protocol
          then some 1
          else if k == enable_datagram
          then some 1
          else if k == enable_datagram_deprecated
          then some 1
          else if k == webtransport_enable_deprecated
          then some 1
          else HashMap.get s k))
unfolding supports_webtransport enable_webtransport
enable_webtransport_lem s n k = (simp get-insert, simp get-insert (ground arith))
