-- ===== src/Sip/Server/Settled.antt =====
-- internal/sip/sip_handler.go: `handleInvite` as a whole, and histories of requests.
use tele_portal.Audio.Codec.{Stream}
use tele_portal.Call.Manager.{get}
use tele_portal.Common.{
  Bool-cases, Option-cases, ap, false, inl, inr, none, refl, some, subst, sym, true, ℕ, ◌∙◌, ◌∷◌,
  ◌≡◌, ◌⊎◌,
}
use tele_portal.Common.Result.{Result-cases, ok}
use tele_portal.Rtp.Ports.{RtpManager, create_listener, in_use, port_at}
use tele_portal.Rtp.Ports.Allocate.{
  IsManager, create_listener-cases, create_listener-ok, granted, next_even-next_port, refused,
}
use tele_portal.Rtp.Ports.Histories.{IsSound, create_listener-IsSound}
use tele_portal.Sip.Negotiation.{negotiate_stream}
use tele_portal.Sip.Offer.{SessionDescription}
use tele_portal.Sip.Server.{
  Invite, Server, SipConfig, allocate, handle_invite, has_address, is_full, negotiate, prepare,
}
use tele_portal.Sip.Server.Invites.{IsReserved, IsSettled, is_answered, prepare-IsSettled}
use tele_portal.Sip.Server.Resources.{IsServer}

kept-IsSettled :
    (lo hi code : ℕ) (q : Invite) (sv : Server)
    → IsServer lo hi sv
    → is_answered (some code) ≡ false
    → IsSettled lo hi q sv (sv, some code)
kept-IsSettled lo hi code q sv v e = record { server = v; grows = inr (e, refl); same_ready = refl }

ignored-IsSettled :
    (lo hi : ℕ) (q : Invite) (sv : Server) → IsServer lo hi sv → IsSettled lo hi q sv (sv, none)
ignored-IsSettled lo hi q sv v = record { server = v; grows = inr (refl, refl); same_ready = refl }

abbrev with_ports : RtpManager → Server → Server
with_ports m sv = record sv { ports = m }

granted-IsReserved :
    (lo hi idx : ℕ) (q : Invite) (sv : Server)
    → IsServer lo hi sv
    → create_listener q.bind sv.ports ≡ (granted sv.ports idx, ok (port_at sv.ports idx))
    → IsReserved lo hi (port_at sv.ports idx) (with_ports (granted sv.ports idx) sv)
granted-IsReserved lo hi idx q sv v e =
    let m = sv.ports in
    let r =
      create_listener-ok q.bind m (granted m idx) (port_at m idx) v.ports_ok.sound.manager e in
    record {
      sound =
          subst (λ x. IsSound lo hi x.0) e
            (create_listener-IsSound lo hi q.bind m v.ports_ok.sound);
      held = ap (λ l. port_at m idx ∷ l) v.ports_ok.held;
      unused = ap (in_use (port_at m idx)) (sym v.ports_ok.held) ∙ r.1;
      calls_ok = v.calls_ok;
    }

allocate-cases :
    (q : Invite) (stream : Stream) (sv : Server)
    → IsManager sv.ports
    → (allocate q stream sv ≡ (with_ports (refused sv.ports) sv, some 503))
      ⊎ ((idx : ℕ) × (create_listener q.bind sv.ports
            ≡ (granted sv.ports idx, ok (port_at sv.ports idx)))
          × (allocate q stream sv
              ≡ prepare q stream (port_at sv.ports idx) (with_ports (granted sv.ports idx) sv)))
unfolding allocate
allocate-cases q stream sv v = elim (create_listener-cases q.bind sv.ports v) [
  | inl (f, e) ↦ inl (simp (e, allocate))
  | inr (idx, f, e) ↦ inr (idx, e, simp (e, allocate))
]

refused-same : (m : RtpManager) → IsManager m → refused m ≡ m
refused-same m v = rw (next_even-next_port m v) refl

allocate-IsSettled :
    (lo hi : ℕ) (q : Invite) (stream : Stream) (sv : Server)
    → IsServer lo hi sv
    → get q.call_id sv.calls ≡ none
    → q.is_udp ≡ true
    → IsSettled lo hi q sv (allocate q stream sv)
allocate-IsSettled lo hi q stream sv v fresh udp =
    let manager = v.ports_ok.sound.manager in
    elim (allocate-cases q stream sv manager) [
      | inl e ↦ rw e (
          subst (λ m. IsSettled lo hi q sv (with_ports m sv, some 503))
            (sym (refused-same sv.ports manager)) (kept-IsSettled lo hi 503 q sv v refl))
      | inr (idx, e, p) ↦
          let r =
            prepare-IsSettled lo hi (port_at sv.ports idx) q stream
              (with_ports (granted sv.ports idx) sv) (granted-IsReserved lo hi idx q sv v e) fresh
              udp in
          rw p (record { server = r.server; grows = r.grows; same_ready = r.same_ready })
    ]

negotiate-IsSettled :
    (lo hi : ℕ) (cfg : SipConfig) (q : Invite) (offer : SessionDescription) (sv : Server)
    → IsServer lo hi sv
    → get q.call_id sv.calls ≡ none
    → q.is_udp ≡ true
    → IsSettled lo hi q sv (negotiate cfg q offer sv)
unfolding negotiate
negotiate-IsSettled lo hi cfg q offer sv v fresh udp =
    let Goal = IsSettled lo hi q sv in
    elim (Result-cases (negotiate_stream cfg.ws_codec offer)) [
      | inr (x, e) ↦ rw (e, negotiate) (kept-IsSettled lo hi 488 q sv v refl)
      | inl (stream, e) ↦ elim (Bool-cases (has_address q offer)) [
        | inr a ↦ rw (e, a, negotiate) (kept-IsSettled lo hi 400 q sv v refl)
        | inl a ↦ elim (Bool-cases q.creates_dialog) [
          | inr d ↦ subst Goal (simp (e, a, d, negotiate)) (kept-IsSettled lo hi 500 q sv v refl)
          | inl d ↦
              subst Goal (simp (e, a, d, negotiate))
                (allocate-IsSettled lo hi q stream sv v fresh udp)
        ]
      ]
    ]

-- In a server whose ports in use and stored calls are those of the sessions, this is also so after
-- `handleInvite`, if the listener's address is of UDP: on every path but that of a listener of
-- another kind, whose port is not released. The sessions are those before
-- and one of the INVITE's call if the response is 200, and those before if it is another or none is
-- sent; the readiness is kept.
pub handle_invite-IsSettled :
    (lo hi : ℕ) (cfg : SipConfig) (q : Invite) (sv : Server)
    → IsServer lo hi sv
    → q.is_udp ≡ true
    → IsSettled lo hi q sv (handle_invite cfg q sv)
unfolding handle_invite
handle_invite-IsSettled lo hi cfg q sv v udp =
    let Goal = IsSettled lo hi q sv in
    elim (Bool-cases sv.is_ready) [
      | inr r ↦ subst Goal (simp (r, handle_invite)) (kept-IsSettled lo hi 503 q sv v refl)
      | inl r ↦ elim (Bool-cases (is_full cfg sv.calls)) [
        | inl f ↦ subst Goal (simp (r, f, handle_invite)) (kept-IsSettled lo hi 486 q sv v refl)
        | inr f ↦ elim (Option-cases (get q.call_id sv.calls)) [
          | inr (c, g) ↦ subst Goal (simp (r, f, g, handle_invite)) (ignored-IsSettled lo hi q sv v)
          | inl g ↦ elim (Option-cases q.body) [
            | inl b ↦
                subst Goal (simp (r, f, g, b, handle_invite)) (kept-IsSettled lo hi 400 q sv v refl)
            | inr (offer, b) ↦
                subst Goal (simp (r, f, g, b, handle_invite))
                  (negotiate-IsSettled lo hi cfg q offer sv v g udp)
          ]
        ]
      ]
    ]
