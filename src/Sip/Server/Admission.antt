-- ===== src/Sip/Server/Admission.antt =====
-- internal/sip/sip_handler.go: how many calls the guards of `handleInvite` let in.
-- A server that is full, or not ready, takes no call.
use tele_portal.Call.Manager.{CallManager}
use tele_portal.Common.{
  Bool-cases, List, Option, Option-cases, [], arith, false, inl, inr, length, some, suc, true, ℕ,
  ◌<◌, ◌==◌, ◌∷◌, ◌≡◌, ◌≤◌,
}
use tele_portal.Common.Text.{Text}
use tele_portal.Common.Words.{u64}
use tele_portal.Sip.Server.{
  Invite, Request, Server, Session, SipConfig, ack, active_session, bye, drop_session, end_call,
  end_session, find_session, finished, handle_ack, handle_bye, handle_invite, hung_up, invite,
  is_full, serve, serve_all, set_ready, shutdown, start_session,
}
use tele_portal.Sip.Server.Invites.{Grows}
use tele_portal.Sip.Server.Resources.{IsServer}
use tele_portal.Sip.Server.Safety.{
  AllOverUdp, OverUdp, end_call-cases, handle_ack-cases, serve-IsServer,
}
use tele_portal.Sip.Server.Sessions.{length-update_session}
use tele_portal.Sip.Server.Settled.{handle_invite-IsSettled}

handle_invite-full :
    (cfg : SipConfig) (q : Invite) (sv : Server)
    → is_full cfg sv.calls ≡ true
    → (handle_invite cfg q sv).0 ≡ sv
unfolding handle_invite
handle_invite-full cfg q sv f = elim (Bool-cases sv.is_ready) [
  | inl r ↦ simp (r, f, handle_invite)
  | inr r ↦ simp (r, handle_invite)
]

pub handle_invite-unready :
    (cfg : SipConfig) (q : Invite) (sv : Server)
    → sv.is_ready ≡ false
    → handle_invite cfg q sv ≡ (sv, some 503)
unfolding handle_invite
handle_invite-unready cfg q sv r = simp (r, handle_invite)

has_room :
    (cfg : SipConfig) (c : CallManager) (n : ℕ)
    → 0 < cfg.max_calls
    → n < 9223372036854775808
    → c.active_calls ≡ u64 n
    → is_full cfg c ≡ false
    → n < cfg.max_calls
unfolding is_full
has_room cfg c n limited small e f = ground (arith, limited, small, e, f)

grown-length :
    (q : Invite) (code : Option ℕ) (before after : List Session)
    → Grows q code before after
    → length after ≤ suc (length before)
grown-length q code before after (inl (a, (s, c, e))) = rw e (omega arith)
grown-length q code before after (inr (a, e)) = rw e (omega arith)

dropped-length : (h : ℕ) (ss : List Session) → length (drop_session h ss) ≤ length ss
unfolding drop_session
dropped-length h [] = omega arith
dropped-length h (x ∷ ss) = elim (Bool-cases (h == x.handle)) [
  | inl g ↦ rw g (omega arith)
  | inr g ↦ rw g (omega (arith, dropped-length h ss))
]

shutdown-length : (h : ℕ) (sv : Server) → length (shutdown h sv).sessions ≤ length sv.sessions
unfolding shutdown
shutdown-length h sv = elim (Option-cases (find_session h sv.sessions)) [
  | inl e ↦ rw (e, shutdown) (omega arith)
  | inr (s, e) ↦ rw (e, shutdown) (dropped-length h sv.sessions)
]

end_call-length :
    (cfg : SipConfig) (h : ℕ) (sv : Server)
    → length (end_call cfg h sv).sessions ≤ length sv.sessions
end_call-length cfg h sv = elim (end_call-cases cfg h sv) [
  | inl e ↦ rw e (omega arith)
  | inr (events, e) ↦ rw e (omega (arith, length-update_session h end_session sv.sessions))
]

handle_bye-length :
    (cfg : SipConfig) (call_id : Text) (sv : Server)
    → length (handle_bye cfg call_id sv).sessions ≤ length sv.sessions
unfolding handle_bye
handle_bye-length cfg call_id sv = elim (Option-cases (active_session call_id sv)) [
  | inl e ↦ rw (e, handle_bye) (omega arith)
  | inr (s, e) ↦ rw (e, handle_bye) (end_call-length cfg s.handle sv)
]

handle_ack-length :
    (cfg : SipConfig) (call_id : Text) (sv : Server)
    → length (handle_ack cfg call_id sv).sessions ≤ length sv.sessions
handle_ack-length cfg call_id sv = elim (handle_ack-cases cfg call_id sv) [
  | inl e ↦ rw e (omega arith)
  | inr (h, events, e) ↦ rw e (omega (arith, length-update_session h start_session sv.sessions))
]

-- What a server with a limit keeps.
record IsWithin (lo hi limit : ℕ) (sv : Server) : Type 0 where
  server : IsServer lo hi sv
  within : length sv.sessions ≤ limit

invite-within :
    (lo hi : ℕ) (cfg : SipConfig) (q : Invite) (sv : Server)
    → 0 < cfg.max_calls
    → cfg.max_calls < 9223372036854775808
    → q.is_udp ≡ true
    → IsWithin lo hi cfg.max_calls sv
    → length (handle_invite cfg q sv).0.sessions ≤ cfg.max_calls
invite-within lo hi cfg q sv limited small udp v = elim (Bool-cases (is_full cfg sv.calls)) [
  | inl f ↦ rw (handle_invite-full cfg q sv f) v.within
  | inr f ↦
      let room =
        has_room cfg sv.calls (length sv.sessions) limited (omega (arith, v.within, small))
          v.server.calls_ok.counted f in
      let r = handle_invite-IsSettled lo hi cfg q sv v.server udp in
      omega (
        arith,
        room,
        grown-length q (handle_invite cfg q sv).1 sv.sessions (handle_invite cfg q sv).0.sessions
            r.grows,
      )
]

serve-within :
    (lo hi : ℕ) (cfg : SipConfig) (r : Request) (sv : Server)
    → 0 < cfg.max_calls
    → cfg.max_calls < 9223372036854775808
    → OverUdp r
    → IsWithin lo hi cfg.max_calls sv
    → length (serve cfg r sv).sessions ≤ cfg.max_calls
unfolding serve
serve-within lo hi cfg (invite q) sv limited small u v =
    invite-within lo hi cfg q sv limited small u v
serve-within lo hi cfg (ack call_id) sv limited small u v =
    omega (arith, v.within, handle_ack-length cfg call_id sv)
serve-within lo hi cfg (bye call_id) sv limited small u v =
    omega (arith, v.within, handle_bye-length cfg call_id sv)
serve-within lo hi cfg (hung_up h) sv limited small u v =
    omega (arith, v.within, end_call-length cfg h sv)
serve-within lo hi cfg (finished h) sv limited small u v =
    omega (arith, v.within, shutdown-length h sv)
serve-within lo hi cfg (set_ready ready) sv limited small u v = v.within

-- With a limit of calls, of less than 2^63, no history of requests handled one at a time takes the
-- number of sessions above it, from a server whose ports in use and stored calls are those of at
-- most so many sessions, if every listener's address is of UDP.
serve_all-max_calls :
    (lo hi : ℕ) (cfg : SipConfig) (rs : List Request) (sv : Server)
    → 0 < cfg.max_calls
    → cfg.max_calls < 9223372036854775808
    → AllOverUdp rs
    → IsServer lo hi sv
    → length sv.sessions ≤ cfg.max_calls
    → length (serve_all cfg rs sv).sessions ≤ cfg.max_calls
unfolding serve_all
serve_all-max_calls lo hi cfg [] sv limited small u v w = w
serve_all-max_calls lo hi cfg (r ∷ rs) sv limited small u v w =
    serve_all-max_calls lo hi cfg rs (serve cfg r sv) limited small u.1
      (serve-IsServer lo hi cfg r sv u.0 v)
      (serve-within lo hi cfg r sv limited small u.0 (record { server = v; within = w }))
