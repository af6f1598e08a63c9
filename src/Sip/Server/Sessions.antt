-- ===== src/Sip/Server/Sessions.antt =====
-- internal/sip/sip_handler.go: the sessions beside the ports and the stored calls.
use tele_portal.Call.Manager.{ActiveCall}
use tele_portal.Common.{
  Bool-cases, List, [], ap, arith, false, inl, inr, length, refl, some, subst, suc, sym, true, ℕ,
  ◌==◌, ◌∙◌, ◌∷◌, ◌≡◌,
}
use tele_portal.Common.Maps.{IsMap, Map, delete, delete-absent, lookup, size, some-inj, some-none}
use tele_portal.Common.Text.{Text, same_text, same_text_refl, same_text→eq}
use tele_portal.Rtp.Ports.{forget, in_use}
use tele_portal.Rtp.Ports.Histories.{Distinct}
use tele_portal.Sip.Server.{Session, drop_session, find_session, update_session}

abbrev pub port_of : Session → ℕ
port_of s = s.port

abbrev pub entry_of : Session → Text × ActiveCall
entry_of s = (s.call.call_id, s.call)

abbrev pub ports_of : List Session → List ℕ
ports_of [] = []
ports_of (s ∷ ss) = s.port ∷ ports_of ss

abbrev pub entries_of : List Session → Map ActiveCall
entries_of [] = []
entries_of (s ∷ ss) = entry_of s ∷ entries_of ss

-- What a session that is found has is there.
pub find-in_use :
    (h : ℕ) (ss : List Session) (s : Session)
    → find_session h ss ≡ some s
    → in_use s.port (ports_of ss) ≡ true
unfolding find_session in_use
find-in_use h [] s e = cc
find-in_use h (x ∷ ss) s e = elim (Bool-cases (h == x.handle)) [
  | inl g ↦ ground (arith, g, e)
  | inr g ↦ ground (arith, g, e, find-in_use h ss s)
]

pub find-lookup :
    (h : ℕ) (ss : List Session) (s : Session)
    → IsMap (entries_of ss)
    → find_session h ss ≡ some s
    → lookup s.call.call_id (entries_of ss) ≡ some s.call
unfolding find_session lookup IsMap
find-lookup h [] s v e = absurd (some-none (sym e))
find-lookup h (x ∷ ss) s v e = elim (Bool-cases (h == x.handle)) [
  | inl g ↦
      subst (λ y. lookup y.call.call_id (entries_of (x ∷ ss)) ≡ some y.call)
        (some-inj (rw (g, find_session) at e)) (rw (same_text_refl x.call.call_id) refl)
  | inr g ↦ elim (Bool-cases (same_text s.call.call_id x.call.call_id)) [
    | inr k ↦ rw k (find-lookup h ss s v.1 (rw (g, find_session) at e))
    | inl k ↦ absurd (
        some-none (
          sym (find-lookup h ss s v.1 (rw (g, find_session) at e))
          ∙ ap (λ y. lookup y (entries_of ss)) (same_text→eq s.call.call_id x.call.call_id k)
          ∙ v.0))
  ]
]

pub forget-absent : (p : ℕ) (ps : List ℕ) → in_use p ps ≡ false → forget p ps ≡ ps
unfolding in_use forget
forget-absent p [] e = refl
forget-absent p (x ∷ ps) e = ground (arith, forget-absent p ps)

pub forget-drop :
    (h : ℕ) (ss : List Session) (s : Session)
    → Distinct (ports_of ss)
    → find_session h ss ≡ some s
    → forget s.port (ports_of ss) ≡ ports_of (drop_session h ss)
unfolding find_session drop_session forget
forget-drop h [] s d e = absurd (some-none (sym e))
forget-drop h (x ∷ ss) s d e = elim (Bool-cases (h == x.handle)) [
  | inl g ↦
      subst (λ y. forget y.port (ports_of (x ∷ ss)) ≡ ports_of (drop_session h (x ∷ ss)))
        (some-inj (rw (g, find_session) at e))
        (ground (arith, g, d.0, forget-absent x.port (ports_of ss)))
  | inr g ↦ ground (
    arith,
    g,
    d.0,
    find-in_use h ss s (rw (g, find_session) at e),
    forget-drop h ss s d.1 (rw (g, find_session) at e),
  )
]

-- The map without the entry of a session is the map of the other sessions.
pub delete-drop :
    (h : ℕ) (ss : List Session) (s : Session)
    → IsMap (entries_of ss)
    → find_session h ss ≡ some s
    → delete s.call.call_id (entries_of ss) ≡ entries_of (drop_session h ss)
unfolding find_session drop_session delete IsMap
delete-drop h [] s v e = absurd (some-none (sym e))
delete-drop h (x ∷ ss) s v e = elim (Bool-cases (h == x.handle)) [
  | inl g ↦
      subst
        (λ y. delete y.call.call_id (entries_of (x ∷ ss)) ≡ entries_of (drop_session h (x ∷ ss)))
        (some-inj (rw (g, find_session) at e))
        (rw (g, same_text_refl x.call.call_id) (delete-absent x.call.call_id (entries_of ss) v.0))
  | inr g ↦ elim (Bool-cases (same_text s.call.call_id x.call.call_id)) [
    | inr k ↦
        rw (g, k) (ap (λ l. entry_of x ∷ l) (delete-drop h ss s v.1 (rw (g, find_session) at e)))
    | inl k ↦ absurd (
        some-none (
          sym (find-lookup h ss s v.1 (rw (g, find_session) at e))
          ∙ ap (λ y. lookup y (entries_of ss)) (same_text→eq s.call.call_id x.call.call_id k)
          ∙ v.0))
  ]
]

pub length-drop_session :
    (h : ℕ) (ss : List Session) (s : Session)
    → find_session h ss ≡ some s
    → suc (length (drop_session h ss)) ≡ length ss
unfolding find_session drop_session
length-drop_session h [] s e = absurd (some-none (sym e))
length-drop_session h (x ∷ ss) s e = elim (Bool-cases (h == x.handle)) [
  | inl g ↦ rw g refl
  | inr g ↦ rw g (ap suc (length-drop_session h ss s (rw (g, find_session) at e)))
]

-- An update that keeps port and call of every session keeps the lists.
pub update-ports :
    (h : ℕ) (f : Session → Session) (ss : List Session)
    → ((s : Session) → (f s).port ≡ s.port)
    → ports_of (update_session h f ss) ≡ ports_of ss
unfolding update_session
update-ports h f [] same = refl
update-ports h f (x ∷ ss) same = elim (Bool-cases (h == x.handle)) [
  | inl g ↦ rw g (ap (λ p. p ∷ ports_of ss) (same x))
  | inr g ↦ rw g (ap (λ l. x.port ∷ l) (update-ports h f ss same))
]

pub update-entries :
    (h : ℕ) (f : Session → Session) (ss : List Session)
    → ((s : Session) → (f s).call ≡ s.call)
    → entries_of (update_session h f ss) ≡ entries_of ss
unfolding update_session
update-entries h f [] same = refl
update-entries h f (x ∷ ss) same = elim (Bool-cases (h == x.handle)) [
  | inl g ↦ rw g (ap (λ c. (c.call_id, c) ∷ entries_of ss) (same x))
  | inr g ↦ rw g (ap (λ l. entry_of x ∷ l) (update-entries h f ss same))
]

pub length-entries_of : (ss : List Session) → size (entries_of ss) ≡ length ss
unfolding size
length-entries_of [] = refl
length-entries_of (s ∷ ss) = ap suc (length-entries_of ss)

pub forget-head : (p : ℕ) (ps : List ℕ) → in_use p ps ≡ false → forget p (p ∷ ps) ≡ ps
unfolding forget
forget-head p ps e = ground (arith, forget-absent p ps)

pub length-update_session :
    (h : ℕ) (f : Session → Session) (ss : List Session) → length (update_session h f ss) ≡ length ss
unfolding update_session
length-update_session h f [] = refl
length-update_session h f (x ∷ ss) = elim (Bool-cases (h == x.handle)) [
  | inl g ↦ rw g refl
  | inr g ↦ rw g (ap suc (length-update_session h f ss))
]
