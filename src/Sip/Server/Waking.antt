-- ===== src/Sip/Server/Waking.antt =====
-- internal/app/app.go: what ends the wait of `Drain`.
use tele_portal.Audio.Recorder.Files.{channel}
use tele_portal.Call.Manager.{CallManager, remove, remove_call, wait_empty}
use tele_portal.Common.{
  Bool-cases, List, Option-cases, [], ap, arith, false, inl, inr, length, ltb, refl, some, subst,
  sym, true, ℕ, ◌&&◌, ◌<◌, ◌==◌, ◌∙◌, ◌∷◌, ◌≡◌,
}
use tele_portal.Common.Maps.{lookup}
use tele_portal.Common.Words.{u64}
use tele_portal.Sip.Server.{
  Request, Server, Session, SipConfig, ack, bye, drop_session, find_session, finished, hung_up,
  invite, serve, serve_all, set_ready, shutdown,
}
use tele_portal.Sip.Server.Admission.{handle_invite-unready}
use tele_portal.Sip.Server.Drain.{
  AllStayUnready, IsDraining, StaysUnready, Waits, drain, end_call-IsDraining,
  handle_ack-IsDraining, handle_bye-IsDraining, has, has-right, remove_call-Waits,
}
use tele_portal.Sip.Server.Resources.{IsServer, IsStored, remove-IsStored}
use tele_portal.Sip.Server.Safety.{AllOverUdp, serve-IsServer}
use tele_portal.Sip.Server.Sessions.{find-lookup}

remove-found :
    (h : ℕ) (s : Session) (c : CallManager) (ss : List Session)
    → IsStored c ss
    → find_session h ss ≡ some s
    → remove s.call.call_id c ≡ remove_call s.call.call_id s.call.id c
unfolding remove
remove-found h s c ss v e =
    let there : lookup s.call.call_id c.calls_by_sip ≡ some s.call =
      ap (lookup s.call.call_id) v.entries ∙ find-lookup h ss s v.is_map e in
    rw (there, remove) refl

remove-Waits :
    (channel h : ℕ) (s : Session) (c : CallManager) (ss : List Session)
    → IsStored c ss
    → find_session h ss ≡ some s
    → Waits channel c ss
    → Waits channel (remove s.call.call_id c) (drop_session h ss)
remove-Waits channel h s c ss v e w =
    let same = remove-found h s c ss v e in
    subst (λ d. Waits channel d (drop_session h ss)) (sym same)
      (remove_call-Waits channel s.call.call_id s.call.id c ss (drop_session h ss) w
        (ap (λ d. d.active_calls) (sym same) ∙ (remove-IsStored h s c ss v e).counted))

shutdown-IsDraining :
    (lo hi channel h : ℕ) (sv : Server)
    → IsServer lo hi sv
    → IsDraining channel sv
    → IsDraining channel (shutdown h sv)
unfolding shutdown
shutdown-IsDraining lo hi channel h sv k v = elim (Option-cases (find_session h sv.sessions)) [
  | inl e ↦ rw (e, shutdown) v
  | inr (s, e) ↦
      rw (e, shutdown)
        (record {
          unready = v.unready;
          waits = remove-Waits channel h s sv.calls sv.sessions k.calls_ok e v.waits;
        })
]

serve-IsDraining :
    (lo hi channel : ℕ) (cfg : SipConfig) (r : Request) (sv : Server)
    → StaysUnready r
    → IsServer lo hi sv
    → IsDraining channel sv
    → IsDraining channel (serve cfg r sv)
unfolding serve
serve-IsDraining lo hi channel cfg (invite q) sv u k v =
    subst (λ x. IsDraining channel x.0) (sym (handle_invite-unready cfg q sv v.unready)) v
serve-IsDraining lo hi channel cfg (ack call_id) sv u k v =
    handle_ack-IsDraining channel cfg call_id sv v
serve-IsDraining lo hi channel cfg (bye call_id) sv u k v =
    handle_bye-IsDraining channel cfg call_id sv v
serve-IsDraining lo hi channel cfg (hung_up h) sv u k v = end_call-IsDraining channel h cfg sv v
serve-IsDraining lo hi channel cfg (finished h) sv u k v =
    shutdown-IsDraining lo hi channel h sv k v
serve-IsDraining lo hi channel cfg (set_ready ready) sv u k v = record {
  unready = u;
  waits = v.waits;
}

serve_all-IsDraining :
    (lo hi channel : ℕ) (cfg : SipConfig) (rs : List Request) (sv : Server)
    → AllStayUnready rs
    → AllOverUdp rs
    → IsServer lo hi sv
    → IsDraining channel sv
    → IsDraining channel (serve_all cfg rs sv)
unfolding serve_all
serve_all-IsDraining lo hi channel cfg [] sv u o k v = v
serve_all-IsDraining lo hi channel cfg (r ∷ rs) sv u o k v =
    serve_all-IsDraining lo hi channel cfg rs (serve cfg r sv) u.1 o.1
      (serve-IsServer lo hi cfg r sv o.0 k) (serve-IsDraining lo hi channel cfg r sv u.0 k v)

wait_empty-has :
    (channel : ℕ) (c : CallManager)
    → (c.active_calls == 0) ≡ false
    → has channel (wait_empty channel c).0.empty_waiters ≡ true
unfolding wait_empty
wait_empty-has channel c e =
    rw (e, wait_empty) (has-right channel c.empty_waiters (channel ∷ []) (ground arith))

wait_empty-same :
    (channel : ℕ) (c : CallManager)
    → ((wait_empty channel c).0.calls_by_sip ≡ c.calls_by_sip)
      × ((wait_empty channel c).0.active_calls ≡ c.active_calls)
unfolding wait_empty
wait_empty-same channel c = elim (Bool-cases (c.active_calls == 0)) [
  | inl e ↦ (simp (e, wait_empty), simp (e, wait_empty))
  | inr e ↦ (simp (e, wait_empty), simp (e, wait_empty))
]

drain-waits :
    (channel : ℕ) (sv : Server)
    → (drain channel sv).1 ≡ false
    → ((sv.calls.active_calls == 0) ≡ false)
      × ((drain channel sv).0
          ≡ record sv { is_ready = false; calls = (wait_empty channel sv.calls).0 })
unfolding drain
drain-waits channel sv e =
    elim (Bool-cases
      (ltb 0 sv.calls.active_calls && ltb sv.calls.active_calls 9223372036854775808)) [
        | inl p ↦ (ground (arith, p), simp p)
        | inr p ↦ cc (rw p at e)
      ]

waiting-IsServer :
    (lo hi channel : ℕ) (sv : Server)
    → IsServer lo hi sv
    → IsServer lo hi (record sv { is_ready = false; calls = (wait_empty channel sv.calls).0 })
waiting-IsServer lo hi channel sv v =
    let same = wait_empty-same channel sv.calls in
    record {
      ports_ok = v.ports_ok;
      calls_ok = record {
        entries = same.0 ∙ v.calls_ok.entries;
        is_map = v.calls_ok.is_map;
        counted = same.1 ∙ v.calls_ok.counted;
      };
    }

some_session : (a n : ℕ) → (a == 0) ≡ false → a ≡ u64 n → 0 < n
some_session a n e f = ground (arith, e, f)

no_session : (ss : List Session) → ss ≡ [] → 0 < length ss → ⊥
no_session ss e h = absurd (omega (arith, ap length e))

-- If `Drain` waits, in a server whose ports in use and stored calls are those of its sessions, then
-- after any history that ends with no session its channel is closed, so that it returns, if no step
-- makes the server ready again and every listener is of UDP.
pub drain-wakes :
    (lo hi channel : ℕ) (cfg : SipConfig) (rs : List Request) (sv : Server)
    → IsServer lo hi sv
    → (drain channel sv).1 ≡ false
    → AllStayUnready rs
    → AllOverUdp rs
    → (serve_all cfg rs (drain channel sv).0).sessions ≡ []
    → has channel (serve_all cfg rs (drain channel sv).0).calls.closed ≡ true
drain-wakes lo hi channel cfg rs sv k e u o none_left =
    let (busy, same) = drain-waits channel sv e in
    let start : Server = record sv { is_ready = false; calls = (wait_empty channel sv.calls).0 } in
    let first : IsDraining channel start = record {
      unready = refl;
      waits = inr (
        wait_empty-has channel sv.calls busy,
        some_session sv.calls.active_calls (length sv.sessions) busy k.calls_ok.counted,
      );
    } in
    let last =
      serve_all-IsDraining lo hi channel cfg rs start u o (waiting-IsServer lo hi channel sv k)
        first in
    let at_end = ap (λ d. serve_all cfg rs d) same in
    ap (λ d. has channel d.calls.closed) at_end ∙ (elim last.waits [
      | inl c ↦ c
      | inr w ↦ absurd (
          no_session (serve_all cfg rs start).sessions
            (ap (λ d. d.sessions) (sym at_end) ∙ none_left) w.1)
    ])
