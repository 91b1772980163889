-- ===== src/Generic/Awaits.antt =====
-- What the futures of webtransport-generic come to on a session of webtransport-quinn.
use webtransport_rs.Base.{
  ℕ, zero, suc, ◌+◌, ◌<◌, ◌≡◌, ◌∙◌, refl, Option, none, some, List, [], ◌∷◌, ◌++◌, length, Outcome,
  ok, ◌>>=◌, All, arith, inl, inr,
}
use mathlib.Core.Option
use webtransport_rs.Quinn.Errors.{SessionError}
use webtransport_rs.Quinn.StreamHeader.{RecvStream}
use webtransport_rs.Quinn.Accept
use webtransport_rs.Quinn.Accept.{Turn, SessionAccept}
use webtransport_rs.Quinn.Accept.Polling.{Poll, ready, pending, Poll-cases}
use webtransport_rs.Quinn.Session.Calls.{awaited}
use webtransport_rs.Quinn.Session.Calls
use webtransport_rs.Quinn.Session.PollOpen.{Answered, Blocked}
use webtransport_rs.Quinn.Session.PollOpen
use webtransport_rs.Generic.Ext
use webtransport_rs.Generic.Quinn.{
  Endpoint, with_accept, with_sending, quinn_session, poll_accept_uni, poll_accept_bidi,
  poll_open_uni,
}

abbrev map_poll : {A B : Type 0} → (A → B) → Poll A → Poll B
map_poll f (ready a) = ready (f a)
map_poll f pending = pending

-- A poll of a state that holds another, and answers as that does, is awaited as that is.
awaited_within :
    {T S S' A B : Type 0} (poll : List T → S → Poll A × S × List T)
    (poll' : List T → S' → Poll B × S' × List T) (f : A → B) (put : S → S')
    → ((ts : List T) (s : S)
        → poll' ts (put s) ≡ (map_poll f (poll ts s).0, put (poll ts s).1, (poll ts s).2))
    → (n : ℕ) (ts : List T) (s : S)
    → awaited poll' n ts (put s)
      ≡ (Option.map f (awaited poll n ts s).0, put (awaited poll n ts s).1, (awaited poll n ts s).2)
unfolding awaited
awaited_within poll poll' f put same zero ts s = refl
awaited_within poll poll' f put same (suc n) ts s =
    let rest = awaited_within poll poll' f put same n (poll ts s).2 (poll ts s).1 in
    elim (Poll-cases (poll ts s).0) [
      | inl e ↦ ground (arith, same ts s, e, rest)
      | inr (a, e) ↦ ground (arith, same ts s, e)
    ]

map_poll_id : {A : Type 0} (p : Poll A) → map_poll (λ a. a) p ≡ p
map_poll_id (ready a) = refl
map_poll_id pending = refl

Option-map_id : {A : Type 0} (o : Option A) → Option.map (λ a. a) o ≡ o
Option-map_id none = refl
Option-map_id (some a) = refl

with_sending-map_poll :
    {C : Type 0} (p : Poll (Outcome (SessionError C) (RecvStream C)))
    → with_sending p ≡ map_poll (λ res. res >>= λ recv. ok ([], recv)) p
with_sending-map_poll (ready res) = refl
with_sending-map_poll pending = refl

module _ {C : Type 0} (application_code : C → Option ℕ) (try_from : ℕ → Option ℕ) where
  -- The futures of `accept_uni` and `accept_bidi` of the trait SessionExt, awaited on a session of
  -- webtransport-quinn, come to what its own `accept_uni` and `accept_bi` come to: the same answer, the
  -- same session, and the same turns left; the connection is as it was.
  pub accept-ext :
      (ts : List (Turn C)) (e : Endpoint C)
      → (awaited
            (Ext.poll_accept_uni (quinn_session application_code try_from))
            (length ts)
            ts
            (Ext.accept_uni e)
          ≡ (
            (Calls.accept_uni ts e.session).0,
            record { conn = record e { session = (Calls.accept_uni ts e.session).1 } },
            (Calls.accept_uni ts e.session).2,
          ))
        × (awaited
              (Ext.poll_accept_bidi (quinn_session application_code try_from))
              (length ts)
              ts
              (Ext.accept_bidi e)
            ≡ (
              Option.map (λ res. res >>= λ recv. ok ([], recv)) (Calls.accept_bi ts e.session).0,
              record { conn = record e { session = (Calls.accept_bi ts e.session).1 } },
              (Calls.accept_bi ts e.session).2,
            ))
  unfolding Ext.poll_accept_uni Ext.poll_accept_bidi Ext.accept_uni Ext.accept_bidi Calls.accept_uni
      Calls.accept_bi poll_accept_uni poll_accept_bidi
  accept-ext ts e = (
    awaited_within Accept.poll_accept_uni
          (Ext.poll_accept_uni (quinn_session application_code try_from)) (λ a. a)
          (λ accept. record { conn = with_accept e accept })
          (λ ts s. rw (map_poll_id (Accept.poll_accept_uni ts s).0) refl) (length ts) ts
          e.session.accept
        ∙ rw (Option-map_id (awaited Accept.poll_accept_uni (length ts) ts e.session.accept).0)
            refl,
    awaited_within Accept.poll_accept_bi
        (Ext.poll_accept_bidi (quinn_session application_code try_from))
        (λ res. res >>= λ recv. ok ([], recv)) (λ accept. record { conn = with_accept e accept })
        (λ ts s. rw (with_sending-map_poll (Accept.poll_accept_bi ts s).0) refl) (length ts) ts
        e.session.accept,
  )

  poll_open_uni-Blocked :
      (e : Endpoint C) (a : Answered C) (recv : RecvStream C)
      (cx : List (Answered C × RecvStream C))
      → Blocked a
      → Ext.poll_open_uni
          (quinn_session application_code try_from)
          ((a, recv) ∷ cx)
          (Ext.open_uni e)
        ≡ (pending, Ext.open_uni (record e { opened = e.opened + 1 }), cx)
  unfolding Ext.poll_open_uni Ext.open_uni poll_open_uni PollOpen.poll_open_uni
  poll_open_uni-Blocked e a recv cx h = ground (arith, h.0, h.1)

  poll_open_uni-written :
      (e : Endpoint C) (a : Answered C) (recv : RecvStream C)
      → a.opened ≡ ready (ok tt)
      → a.written ≡ ready (ok tt)
      → Ext.poll_open_uni
          (quinn_session application_code try_from)
          ((a, recv) ∷ [])
          (Ext.open_uni e)
        ≡ (ready (ok e.session.header_uni), Ext.open_uni (record e { opened = e.opened + 1 }), [])
  unfolding Ext.poll_open_uni Ext.open_uni poll_open_uni PollOpen.poll_open_uni Calls.write_full
  poll_open_uni-written e a recv o w = ground (arith, o, w)

  -- A task that awaits the future of `open_uni` of the trait SessionExt on a session of webtransport-quinn
  -- whose write of the header has to wait any number of times, and then succeeds, gets one stream with the
  -- header, and the connection has opened one more for each time that it waited.
  pub open_uni-ext :
      (e : Endpoint C) (waits : List (Answered C × RecvStream C)) (last : Answered C)
      (recv : RecvStream C) (n : ℕ)
      → All (λ (a, recv). Blocked a) waits
      → last.opened ≡ ready (ok tt)
      → last.written ≡ ready (ok tt)
      → length waits < n
      → awaited
          (Ext.poll_open_uni (quinn_session application_code try_from))
          n
          (waits ++ (last, recv) ∷ [])
          (Ext.open_uni e)
        ≡ (
          some (ok e.session.header_uni),
          Ext.open_uni (record e { opened = e.opened + length waits + 1 }),
          [],
        )
  unfolding awaited
  open_uni-ext e waits last recv zero h o w lt = absurd (omega arith)
  open_uni-ext e [] last recv (suc n) h o w lt =
      ground (arith, poll_open_uni-written e last recv o w)
  open_uni-ext e ((a, other) ∷ waits) last recv (suc n) h o w lt =
      let waited = record e { opened = e.opened + 1 } in
      let rest = open_uni-ext waited waits last recv n h.1 o w (omega arith) in
      ground (arith, poll_open_uni-Blocked e a other (waits ++ (last, recv) ∷ []) h.0, rest)
