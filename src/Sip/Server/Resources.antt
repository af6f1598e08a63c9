-- ===== src/Sip/Server/Resources.antt =====
-- internal/sip/sip_handler.go: the ports in use and the stored calls are those of the live sessions.
use tele_portal.Call.Manager.{CallManager, add, add_count, add_insert, get, remove, remove_call}
use tele_portal.Common.{
  List, Option-cases, [], ap, arith, inl, inr, length, none, some, subst, suc, true, ℕ, ◌+◌, ◌∙◌,
  ◌∷◌, ◌≡◌, ◌≤◌,
}
use tele_portal.Common.Maps.{IsMap, delete, delete-IsMap, delete-absent, insert, lookup}
use tele_portal.Common.Words.{u16, u64}
use tele_portal.Rtp.Ports.{RtpManager, forget, in_use, release_listener}
use tele_portal.Rtp.Ports.Histories.{AllPorts, Distinct, IsSound, release_listener-IsSound}
use tele_portal.Sip.Server.{Server, Session, drop_session, find_session, shutdown}
use tele_portal.Sip.Server.Sessions.{
  delete-drop, entries_of, entry_of, find-in_use, find-lookup, forget-drop, length-drop_session,
  ports_of,
}

-- The stored calls are those of the sessions, and the counter is their number.
pub record IsStored (c : CallManager) (ss : List Session) : Type 0 where
  pub entries : c.calls_by_sip ≡ entries_of ss
  pub is_map : IsMap (entries_of ss)
  pub counted : c.active_calls ≡ u64 (length ss)

-- The ports are well formed, and those of the sessions.
pub record HoldsPorts (lo hi : ℕ) (m : RtpManager) (ss : List Session) : Type 0 where
  pub sound : IsSound lo hi m
  pub held : m.ports ≡ ports_of ss

pub record IsServer (lo hi : ℕ) (sv : Server) : Type 0 where
  pub ports_ok : HoldsPorts lo hi sv.ports sv.sessions
  pub calls_ok : IsStored sv.calls sv.sessions

counter_up : (a n : ℕ) → a ≡ u64 n → u64 (a + 1) ≡ u64 (suc n)
counter_up a n e = omega arith

counter_down : (a n m : ℕ) → a ≡ u64 n → suc m ≡ n → u64 (a + 18446744073709551615) ≡ u64 m
counter_down a n m e s = omega arith

pub add-IsStored :
    (s : Session) (c : CallManager) (ss : List Session)
    → IsStored c ss
    → get s.call.call_id c ≡ none
    → IsStored (add s.call c) (s ∷ ss)
unfolding add add_insert add_count get insert IsMap
add-IsStored s c ss v fresh =
    let absent : lookup s.call.call_id (entries_of ss) ≡ none = rw v.entries at fresh in
    record {
      entries =
          ap (λ m. entry_of s ∷ delete s.call.call_id m) v.entries
          ∙ ap (λ m. entry_of s ∷ m) (delete-absent s.call.call_id (entries_of ss) absent);
      is_map = (absent, v.is_map);
      counted = counter_up c.active_calls (length ss) v.counted;
    }

pub remove-IsStored :
    (h : ℕ) (s : Session) (c : CallManager) (ss : List Session)
    → IsStored c ss
    → find_session h ss ≡ some s
    → IsStored (remove s.call.call_id c) (drop_session h ss)
unfolding remove remove_call
remove-IsStored h s c ss v e =
    let there : lookup s.call.call_id c.calls_by_sip ≡ some s.call =
      ap (lookup s.call.call_id) v.entries ∙ find-lookup h ss s v.is_map e in
    let left : delete s.call.call_id c.calls_by_sip ≡ entries_of (drop_session h ss) =
      ap (delete s.call.call_id) v.entries ∙ delete-drop h ss s v.is_map e in
    rw (there, remove)
      (record {
        entries = left;
        is_map =
            subst IsMap (delete-drop h ss s v.is_map e)
              (delete-IsMap s.call.call_id (entries_of ss) v.is_map);
        counted =
            counter_down c.active_calls (length ss) (length (drop_session h ss)) v.counted
              (length-drop_session h ss s e);
      })

pub in_use-le : (lo hi p : ℕ) (ps : List ℕ) → AllPorts lo hi ps → in_use p ps ≡ true → p ≤ hi
unfolding in_use
in_use-le lo hi p [] a e = absurd cc
in_use-le lo hi p (x ∷ ps) a e = ground (arith, a.2, in_use-le lo hi p ps a.3)

-- A port of the range is its own 16-bit word.
pub word_of_port : (lo hi p : ℕ) (m : RtpManager) → IsSound lo hi m → p ≤ hi → u16 p ≡ p
word_of_port lo hi p m v h = omega (arith, v.manager.high, v.same_max)

release-HoldsPorts :
    (lo hi h : ℕ) (s : Session) (m : RtpManager) (ss : List Session)
    → HoldsPorts lo hi m ss
    → find_session h ss ≡ some s
    → HoldsPorts lo hi (release_listener (some s.port) m) (drop_session h ss)
unfolding release_listener
release-HoldsPorts lo hi h s m ss v e =
    let there : in_use s.port m.ports ≡ true = rw v.held (find-in_use h ss s e) in
    let word : u16 s.port ≡ s.port =
      word_of_port lo hi s.port m v.sound (in_use-le lo hi s.port m.ports v.sound.in_range there) in
    record {
      sound = release_listener-IsSound lo hi (some s.port) m v.sound;
      held =
          ap (λ p. forget p m.ports) word
          ∙ ap (forget s.port) v.held
          ∙ forget-drop h ss s (subst Distinct v.held v.sound.distinct) e;
    }

pub shutdown-IsServer :
    (lo hi h : ℕ) (sv : Server) → IsServer lo hi sv → IsServer lo hi (shutdown h sv)
unfolding shutdown
shutdown-IsServer lo hi h sv v = elim (Option-cases (find_session h sv.sessions)) [
  | inl e ↦ rw (e, shutdown) v
  | inr (s, e) ↦
      rw (e, shutdown)
        (record {
          ports_ok = release-HoldsPorts lo hi h s sv.ports sv.sessions v.ports_ok e;
          calls_ok = remove-IsStored h s sv.calls sv.sessions v.calls_ok e;
        })
]
