-- ===== src/Sip/Server/Invites.antt =====
-- internal/sip/sip_handler.go: what an INVITE leaves behind on each path of `handleInvite`.
use tele_portal.Audio.Codec.{Stream}
use tele_portal.Call.Manager.{get}
use tele_portal.Common.{
  Bool, Bool-cases, List, Option, Option-cases, ap, arith, false, inl, inr, none, refl, some, true,
  ℕ, ◌==◌, ◌∙◌, ◌∷◌, ◌≡◌, ◌⊎◌,
}
use tele_portal.Common.Words.{u16}
use tele_portal.Rtp.Ports.{forget, in_use, release_listener}
use tele_portal.Rtp.Ports.Histories.{IsSound, release_listener-IsSound}
use tele_portal.Sip.Server.{
  Invite, Server, Session, drop_session, establish, find_session, new_call, new_session, prepare,
  shutdown, stored,
}
use tele_portal.Sip.Server.Resources.{
  HoldsPorts, IsServer, IsStored, add-IsStored, in_use-le, shutdown-IsServer, word_of_port,
}
use tele_portal.Sip.Server.Sessions.{forget-head, ports_of}

-- Whether the INVITE was answered with 200.
abbrev pub is_answered : Option ℕ → Bool
is_answered none = false
is_answered (some code) = code == 200

-- One session of the INVITE more, or none more, after an answer and after any other end.
abbrev pub Grows : Invite → Option ℕ → List Session → List Session → Type 0
Grows q code before after =
    ((is_answered code ≡ true) × ((s : Session) × (s.call ≡ new_call q) × (after ≡ s ∷ before)))
    ⊎ ((is_answered code ≡ false) × (after ≡ before))

pub record IsSettled (lo hi : ℕ) (q : Invite) (sv : Server) (r : Server × Option ℕ) : Type 0 where
  pub server : IsServer lo hi r.0
  pub grows : Grows q r.1 sv.sessions r.0.sessions
  pub same_ready : r.0.is_ready ≡ sv.is_ready

-- The state between the new listener and the end of the handler: one port more is in use.
pub record IsReserved (lo hi port : ℕ) (sv : Server) : Type 0 where
  pub sound : IsSound lo hi sv.ports
  pub held : sv.ports.ports ≡ port ∷ ports_of sv.sessions
  pub unused : in_use port (ports_of sv.sessions) ≡ false
  pub calls_ok : IsStored sv.calls sv.sessions

same_handle : (h : ℕ) → (h == h) ≡ true
same_handle h = ground arith

stored-IsServer :
    (lo hi port : ℕ) (q : Invite) (stream : Stream) (sv : Server)
    → IsReserved lo hi port sv
    → get q.call_id sv.calls ≡ none
    → IsServer lo hi (stored q stream port sv)
stored-IsServer lo hi port q stream sv v fresh = record {
  ports_ok = record { sound = v.sound; held = v.held };
  calls_ok =
      add-IsStored (new_session q stream port sv.next_handle) sv.calls sv.sessions v.calls_ok fresh;
}

find-head : (x : Session) (ss : List Session) → find_session x.handle (x ∷ ss) ≡ some x
unfolding find_session
find-head x ss = rw (same_handle x.handle) refl

drop-head : (x : Session) (ss : List Session) → drop_session x.handle (x ∷ ss) ≡ ss
unfolding drop_session
drop-head x ss = rw (same_handle x.handle) refl

shutdown-stored :
    (q : Invite) (stream : Stream) (port : ℕ) (sv : Server)
    → (shutdown sv.next_handle (stored q stream port sv)).sessions ≡ sv.sessions
unfolding shutdown
shutdown-stored q stream port sv =
    let x = new_session q stream port sv.next_handle in
    rw (find-head x sv.sessions, shutdown) (drop-head x sv.sessions)

shutdown-ready : (h : ℕ) (sv : Server) → (shutdown h sv).is_ready ≡ sv.is_ready
unfolding shutdown
shutdown-ready h sv = elim (Option-cases (find_session h sv.sessions)) [
  | inl e ↦ rw (e, shutdown) refl
  | inr (s, e) ↦ rw (e, shutdown) refl
]

establish-cases :
    (q : Invite) (stream : Stream) (port : ℕ) (sv : Server)
    → (establish q stream port sv ≡ (stored q stream port sv, some 200))
      ⊎ (establish q stream port sv ≡ (shutdown sv.next_handle (stored q stream port sv), some 500))
unfolding establish
establish-cases q stream port sv = elim (Bool-cases q.responds) [
  | inl e ↦ inl (simp (e, establish))
  | inr e ↦ inr (simp (e, establish))
]

establish-IsSettled :
    (lo hi port : ℕ) (q : Invite) (stream : Stream) (sv : Server)
    → IsReserved lo hi port sv
    → get q.call_id sv.calls ≡ none
    → IsSettled lo hi q sv (establish q stream port sv)
establish-IsSettled lo hi port q stream sv v fresh =
    let kept = stored-IsServer lo hi port q stream sv v fresh in
    elim (establish-cases q stream port sv) [
      | inl e ↦ rw e (record {
        server = kept;
        grows = inl (refl, (new_session q stream port sv.next_handle, refl, refl));
        same_ready = refl;
      })
      | inr e ↦ rw e (record {
        server = shutdown-IsServer lo hi sv.next_handle (stored q stream port sv) kept;
        grows = inr (refl, shutdown-stored q stream port sv);
        same_ready = shutdown-ready sv.next_handle (stored q stream port sv);
      })
    ]

-- Giving the new port back leaves the ports of the sessions.
released-HoldsPorts :
    (lo hi port : ℕ) (sv : Server)
    → IsReserved lo hi port sv
    → HoldsPorts lo hi (release_listener (some port) sv.ports) sv.sessions
unfolding release_listener in_use
released-HoldsPorts lo hi port sv v =
    let word : u16 port ≡ port = word_of_port lo hi port sv.ports v.sound (
      in_use-le lo hi port sv.ports.ports v.sound.in_range
        (rw v.held (rw (same_handle port) refl))) in
    record {
      sound = release_listener-IsSound lo hi (some port) sv.ports v.sound;
      held =
          ap (λ p. forget p sv.ports.ports) word
          ∙ ap (forget port) v.held
          ∙ forget-head port (ports_of sv.sessions) v.unused;
    }

abbrev released : ℕ → Server → Server
released port sv = record sv { ports = release_listener (some port) sv.ports }

released-IsSettled :
    (lo hi port : ℕ) (q : Invite) (sv : Server)
    → IsReserved lo hi port sv
    → IsSettled lo hi q sv (released port sv, some 500)
released-IsSettled lo hi port q sv v = record {
  server = record { ports_ok = released-HoldsPorts lo hi port sv v; calls_ok = v.calls_ok };
  grows = inr (refl, refl);
  same_ready = refl;
}

prepare-cases :
    (q : Invite) (stream : Stream) (port : ℕ) (sv : Server)
    → q.is_udp ≡ true
    → (prepare q stream port sv ≡ establish q stream port sv)
      ⊎ (prepare q stream port sv ≡ (released port sv, some 500))
unfolding prepare
prepare-cases q stream port sv udp = elim (Bool-cases q.prints_answer) [
  | inl e ↦ inl (simp (udp, e, prepare))
  | inr e ↦ inr (simp (udp, e, prepare))
]

pub prepare-IsSettled :
    (lo hi port : ℕ) (q : Invite) (stream : Stream) (sv : Server)
    → IsReserved lo hi port sv
    → get q.call_id sv.calls ≡ none
    → q.is_udp ≡ true
    → IsSettled lo hi q sv (prepare q stream port sv)
prepare-IsSettled lo hi port q stream sv v fresh udp = elim (prepare-cases q stream port sv udp) [
  | inl e ↦ rw e (establish-IsSettled lo hi port q stream sv v fresh)
  | inr e ↦ rw e (released-IsSettled lo hi port q sv v)
]
