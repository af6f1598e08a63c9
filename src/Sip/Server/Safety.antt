-- ===== src/Sip/Server/Safety.antt =====
-- internal/sip/sip_handler.go: what holds after any sequence of steps of the server.
use tele_portal.Common.{
  Bool-cases, List, Option-cases, [], ap, inl, inr, refl, subst, sym, true, ℕ, ◌∙◌, ◌∷◌, ◌≡◌, ◌⊎◌,
}
use tele_portal.Common.Maps.{IsMap}
use tele_portal.Common.Text.{Text}
use tele_portal.Common.Words.{u64}
use tele_portal.Sip.Server.{
  CallEvent, Request, Server, Session, SipConfig, ack, active_session, bye, connected, disconnected,
  end_call, end_session, find_session, finished, handle_ack, handle_bye, hung_up, invite, publish,
  serve, serve_all, set_ready, start_session, update_session,
}
use tele_portal.Sip.Server.Resources.{IsServer, shutdown-IsServer}
use tele_portal.Sip.Server.Sessions.{length-update_session, update-entries, update-ports}
use tele_portal.Sip.Server.Settled.{handle_invite-IsSettled}

update-IsServer :
    (lo hi h : ℕ) (f : Session → Session) (events : List CallEvent) (sv : Server)
    → ((s : Session) → (f s).port ≡ s.port)
    → ((s : Session) → (f s).call ≡ s.call)
    → IsServer lo hi sv
    → IsServer lo hi (record sv { sessions = update_session h f sv.sessions; events = events })
update-IsServer lo hi h f events sv same_port same_call v =
    let entries = update-entries h f sv.sessions same_call in
    record {
      ports_ok = record {
        sound = v.ports_ok.sound;
        held = v.ports_ok.held ∙ sym (update-ports h f sv.sessions same_port);
      };
      calls_ok = record {
        entries = v.calls_ok.entries ∙ sym entries;
        is_map = subst IsMap (sym entries) v.calls_ok.is_map;
        counted = v.calls_ok.counted ∙ ap u64 (sym (length-update_session h f sv.sessions));
      };
    }

pub end_call-cases :
    (cfg : SipConfig) (h : ℕ) (sv : Server)
    → (end_call cfg h sv ≡ sv)
      ⊎ ((events : List CallEvent) × (end_call cfg h sv
            ≡ record sv { sessions = update_session h end_session sv.sessions; events = events }))
unfolding end_call
end_call-cases cfg h sv = elim (Option-cases (find_session h sv.sessions)) [
  | inl e ↦ inl (simp (e, end_call))
  | inr (s, e) ↦ elim (Bool-cases s.ended) [
    | inl d ↦ inl (simp (e, d, end_call))
    | inr d ↦ inr (publish cfg (disconnected s.call.id) sv.events, simp (e, d, end_call))
  ]
]

end_call-IsServer :
    (lo hi h : ℕ) (cfg : SipConfig) (sv : Server)
    → IsServer lo hi sv
    → IsServer lo hi (end_call cfg h sv)
end_call-IsServer lo hi h cfg sv v = elim (end_call-cases cfg h sv) [
  | inl e ↦ subst (IsServer lo hi) (sym e) v
  | inr (events, e) ↦
      subst (IsServer lo hi) (sym e)
        (update-IsServer lo hi h end_session events sv (λ s. refl) (λ s. refl) v)
]

handle_bye-IsServer :
    (lo hi : ℕ) (cfg : SipConfig) (call_id : Text) (sv : Server)
    → IsServer lo hi sv
    → IsServer lo hi (handle_bye cfg call_id sv)
unfolding handle_bye
handle_bye-IsServer lo hi cfg call_id sv v = elim (Option-cases (active_session call_id sv)) [
  | inl e ↦ rw (e, handle_bye) v
  | inr (s, e) ↦ rw (e, handle_bye) (end_call-IsServer lo hi s.handle cfg sv v)
]

pub handle_ack-cases :
    (cfg : SipConfig) (call_id : Text) (sv : Server)
    → (handle_ack cfg call_id sv ≡ sv)
      ⊎ ((h : ℕ) × (events : List CallEvent) × (handle_ack cfg call_id sv
            ≡ record sv { sessions = update_session h start_session sv.sessions; events = events }))
unfolding handle_ack
handle_ack-cases cfg call_id sv = elim (Option-cases (active_session call_id sv)) [
  | inl e ↦ inl (simp (e, handle_ack))
  | inr (s, e) ↦ elim (Bool-cases s.started) [
    | inl d ↦ inl (simp (e, d, handle_ack))
    | inr d ↦ inr (s.handle, publish cfg (connected s.call.id) sv.events, simp (e, d, handle_ack))
  ]
]

handle_ack-IsServer :
    (lo hi : ℕ) (cfg : SipConfig) (call_id : Text) (sv : Server)
    → IsServer lo hi sv
    → IsServer lo hi (handle_ack cfg call_id sv)
handle_ack-IsServer lo hi cfg call_id sv v = elim (handle_ack-cases cfg call_id sv) [
  | inl e ↦ subst (IsServer lo hi) (sym e) v
  | inr (h, events, e) ↦
      subst (IsServer lo hi) (sym e)
        (update-IsServer lo hi h start_session events sv (λ s. refl) (λ s. refl) v)
]

-- The listener's address of every INVITE is of UDP.
abbrev pub OverUdp : Request → Type 0
OverUdp (invite q) = q.is_udp ≡ true
OverUdp (ack call_id) = Unit {0}
OverUdp (bye call_id) = Unit {0}
OverUdp (hung_up h) = Unit {0}
OverUdp (finished h) = Unit {0}
OverUdp (set_ready ready) = Unit {0}

abbrev pub AllOverUdp : List Request → Type 0
AllOverUdp [] = Unit {0}
AllOverUdp (r ∷ rs) = OverUdp r × AllOverUdp rs

pub serve-IsServer :
    (lo hi : ℕ) (cfg : SipConfig) (r : Request) (sv : Server)
    → OverUdp r
    → IsServer lo hi sv
    → IsServer lo hi (serve cfg r sv)
unfolding serve
serve-IsServer lo hi cfg (invite q) sv u v = (handle_invite-IsSettled lo hi cfg q sv v u).server
serve-IsServer lo hi cfg (ack call_id) sv u v = handle_ack-IsServer lo hi cfg call_id sv v
serve-IsServer lo hi cfg (bye call_id) sv u v = handle_bye-IsServer lo hi cfg call_id sv v
serve-IsServer lo hi cfg (hung_up h) sv u v = end_call-IsServer lo hi h cfg sv v
serve-IsServer lo hi cfg (finished h) sv u v = shutdown-IsServer lo hi h sv v
serve-IsServer lo hi cfg (set_ready ready) sv u v = record {
  ports_ok = v.ports_ok;
  calls_ok = v.calls_ok;
}

-- In every history of a server whose ports in use and stored calls are those of its sessions they
-- stay so, if every listener's address is of UDP: no port leaks and none is freed under a call, no
-- call is stored without a session, the ports in use are even, different and in the range, and the
-- counter of calls is the number of sessions, whatever fails on the way.
pub serve_all-IsServer :
    (lo hi : ℕ) (cfg : SipConfig) (rs : List Request) (sv : Server)
    → AllOverUdp rs
    → IsServer lo hi sv
    → IsServer lo hi (serve_all cfg rs sv)
unfolding serve_all
serve_all-IsServer lo hi cfg [] sv u v = v
serve_all-IsServer lo hi cfg (r ∷ rs) sv u v =
    serve_all-IsServer lo hi cfg rs (serve cfg r sv) u.1 (serve-IsServer lo hi cfg r sv u.0 v)
