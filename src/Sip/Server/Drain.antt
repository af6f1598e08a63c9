-- ===== src/Sip/Server/Drain.antt =====
-- internal/app/app.go: `Drain`, and what follows it on the server.
-- `Drain` up to the end of the part of `WaitEmpty` under the lock, for a new channel: whether it
-- returns without waiting.
use tele_portal.Audio.Recorder.Files.{channel}
use tele_portal.Call.Manager.{CallManager, remove_call, wait_empty}
use tele_portal.Common.{
  Bool, Bool-cases, List, Option-cases, [], arith, false, if◌then◌else◌, inl, inr, length, ltb,
  subst, sym, true, ℕ, ◌&&◌, ◌++◌, ◌+◌, ◌<◌, ◌==◌, ◌||◌, ◌∷◌, ◌≡◌, ◌⊎◌,
}
use tele_portal.Common.Text.{Text}
use tele_portal.Common.Words.{u64}
use tele_portal.Sip.Server.{
  CallEvent, Request, Server, Session, SipConfig, ack, active_session, bye, end_call, end_session,
  finished, handle_ack, handle_bye, hung_up, invite, set_ready, start_session, update_session,
}
use tele_portal.Sip.Server.Safety.{end_call-cases, handle_ack-cases}
use tele_portal.Sip.Server.Sessions.{length-update_session}

unfoldable pub drain : ℕ → Server → Server × Bool
unfolding wait_empty
drain channel sv =
    let calls = sv.calls in
    if ltb 0 calls.active_calls && ltb calls.active_calls 9223372036854775808
    then (
      record sv { is_ready = false; calls = (wait_empty channel calls).0 },
      (wait_empty channel calls).1,
    )
    else (record sv { is_ready = false }, true)

abbrev pub has : ℕ → List ℕ → Bool
has c [] = false
has c (x ∷ xs) = c == x || has c xs

has-left : (c : ℕ) (xs ys : List ℕ) → has c xs ≡ true → has c (xs ++ ys) ≡ true
has-left c [] ys e = cc
has-left c (x ∷ xs) ys e = ground (arith, e, has-left c xs ys)

pub has-right : (c : ℕ) (xs ys : List ℕ) → has c ys ≡ true → has c (xs ++ ys) ≡ true
has-right c [] ys e = e
has-right c (x ∷ xs) ys e = ground (arith, has-right c xs ys e)

-- The channel of a drain is closed, or it waits and there are sessions.
abbrev pub Waits : ℕ → CallManager → List Session → Type 0
Waits channel c ss =
    (has channel c.closed ≡ true) ⊎ ((has channel c.empty_waiters ≡ true) × (0 < length ss))

-- No step of a history makes the server ready.
abbrev pub StaysUnready : Request → Type 0
StaysUnready (invite q) = Unit {0}
StaysUnready (ack call_id) = Unit {0}
StaysUnready (bye call_id) = Unit {0}
StaysUnready (hung_up h) = Unit {0}
StaysUnready (finished h) = Unit {0}
StaysUnready (set_ready ready) = ready ≡ false

abbrev pub AllStayUnready : List Request → Type 0
AllStayUnready [] = Unit {0}
AllStayUnready (r ∷ rs) = StaysUnready r × AllStayUnready rs

pub record IsDraining (channel : ℕ) (sv : Server) : Type 0 where
  pub unready : sv.is_ready ≡ false
  pub waits : Waits channel sv.calls sv.sessions

updated-IsDraining :
    (channel h : ℕ) (f : Session → Session) (events : List CallEvent) (sv : Server)
    → IsDraining channel sv
    → IsDraining channel (record sv { sessions = update_session h f sv.sessions; events = events })
updated-IsDraining channel h f events sv v = record {
  unready = v.unready;
  waits = elim v.waits [
    | inl c ↦ inl c
    | inr w ↦ inr (w.0, omega (arith, w.1, length-update_session h f sv.sessions))
  ];
}

pub end_call-IsDraining :
    (channel h : ℕ) (cfg : SipConfig) (sv : Server)
    → IsDraining channel sv
    → IsDraining channel (end_call cfg h sv)
end_call-IsDraining channel h cfg sv v = elim (end_call-cases cfg h sv) [
  | inl e ↦ subst (IsDraining channel) (sym e) v
  | inr (events, e) ↦
      subst (IsDraining channel) (sym e) (updated-IsDraining channel h end_session events sv v)
]

pub handle_bye-IsDraining :
    (channel : ℕ) (cfg : SipConfig) (call_id : Text) (sv : Server)
    → IsDraining channel sv
    → IsDraining channel (handle_bye cfg call_id sv)
unfolding handle_bye
handle_bye-IsDraining channel cfg call_id sv v = elim (Option-cases (active_session call_id sv)) [
  | inl e ↦ rw (e, handle_bye) v
  | inr (s, e) ↦ rw (e, handle_bye) (end_call-IsDraining channel s.handle cfg sv v)
]

pub handle_ack-IsDraining :
    (channel : ℕ) (cfg : SipConfig) (call_id : Text) (sv : Server)
    → IsDraining channel sv
    → IsDraining channel (handle_ack cfg call_id sv)
handle_ack-IsDraining channel cfg call_id sv v = elim (handle_ack-cases cfg call_id sv) [
  | inl e ↦ subst (IsDraining channel) (sym e) v
  | inr (h, events, e) ↦
      subst (IsDraining channel) (sym e) (updated-IsDraining channel h start_session events sv v)
]

-- Removing a call wakes those who wait when the counter gets to 0.
pub remove_call-Waits :
    (channel : ℕ) (call_id id : Text) (c : CallManager) (before after : List Session)
    → Waits channel c before
    → (remove_call call_id id c).active_calls ≡ u64 (length after)
    → Waits channel (remove_call call_id id c) after
unfolding remove_call
remove_call-Waits channel call_id id c before after w e =
    elim (Bool-cases (u64 (c.active_calls + 18446744073709551615) == 0)) [
      | inl z ↦ elim w [
        | inl d ↦ inl (rw z (has-right channel c.empty_waiters c.closed d))
        | inr d ↦ inl (rw z (has-left channel c.empty_waiters c.closed d.0))
      ]
      | inr n ↦ elim w [ inl d ↦ inl (rw n d) | inr d ↦ inr (rw n d.0, ground (arith, n, e)) ]
    ]
