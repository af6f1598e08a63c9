-- ===== src/Call/Manager/Lookups.antt =====
-- internal/call/call_manager.go: what the operations do to the two maps.
use tele_portal.Call.Manager.{
  ActiveCall, CallManager, add, add_count, add_insert, get, get_by_internal_id, new_call_manager,
  remove, remove_call,
}
use tele_portal.Common.{Bool-cases, Option-cases, ap, inl, inr, none, some, subst, sym, ◌∙◌, ◌≡◌}
use tele_portal.Common.Maps.{
  IsMap, Map, delete, delete-IsMap, insert, insert-IsMap, lookup, lookup-delete_ne,
  lookup-delete_self, lookup-insert_ne, lookup-insert_self, some-inj, some-none, true-false,
}
use tele_portal.Common.Text.{Text, same_text, same_text_refl, same_text→eq}

-- Every entry of `a` has its own key, and is in `b` under its other key.
abbrev Linked : (ActiveCall → Text) → (ActiveCall → Text) → Map ActiveCall → Map ActiveCall → Type 0
Linked f g a b =
    (k : Text) → (c : ActiveCall) → lookup k a ≡ some c → (f c ≡ k) × (lookup (g c) b ≡ some c)

delete-Linked :
    (f g : ActiveCall → Text)
    → (a b : Map ActiveCall) → (c : ActiveCall) → Linked f g a b
    → lookup (f c) a ≡ some c
    → lookup (g c) b ≡ some c
    → Linked f g (delete (f c) a) (delete (g c) b)
delete-Linked f g a b c h here there k d e = elim (Bool-cases (same_text k (f c))) [
  | inl same ↦ absurd (
      some-none (
        sym e
        ∙ ap (λ x. lookup x (delete (f c) a)) (same_text→eq k (f c) same)
        ∙ lookup-delete_self (f c) a))
  | inr other ↦
      let (own, linked) = h k d (sym (lookup-delete_ne k (f c) a other) ∙ e) in
      elim (Bool-cases (same_text (g d) (g c))) [
        | inr apart ↦ (own, lookup-delete_ne (g d) (g c) b apart ∙ linked)
        | inl same ↦
            let equal : d ≡ c =
              some-inj
                (sym linked ∙ ap (λ x. lookup x b) (same_text→eq (g d) (g c) same) ∙ there) in
            absurd (
              true-false (
                sym (same_text_refl (f c))
                ∙ ap (λ x. same_text x (f c)) (sym (ap f equal) ∙ own)
                ∙ other))
      ]
]

insert-Linked :
    (f g : ActiveCall → Text)
    → (a b : Map ActiveCall) → (c : ActiveCall) → Linked f g a b
    → lookup (g c) b ≡ none
    → Linked f g (insert (f c) c a) (insert (g c) c b)
insert-Linked f g a b c h fresh k d e = elim (Bool-cases (same_text k (f c))) [
  | inl same ↦
      let key : k ≡ f c = same_text→eq k (f c) same in
      let equal : c ≡ d = some-inj (
        sym (lookup-insert_self (f c) c a) ∙ ap (λ x. lookup x (insert (f c) c a)) (sym key) ∙ e) in
      subst (λ x. (f x ≡ k) × (lookup (g x) (insert (g c) c b) ≡ some x)) equal
        (sym key, lookup-insert_self (g c) c b)
  | inr other ↦
      let (own, linked) = h k d (sym (lookup-insert_ne k (f c) c a other) ∙ e) in
      elim (Bool-cases (same_text (g d) (g c))) [
        | inr apart ↦ (own, lookup-insert_ne (g d) (g c) c b apart ∙ linked)
        | inl same ↦
            absurd (
              some-none (sym linked ∙ ap (λ x. lookup x b) (same_text→eq (g d) (g c) same) ∙ fresh))
      ]
]

-- The two maps hold the same calls, each under its two names.
pub record IsIndexed (m : CallManager) : Type 0 where
  pub sip_map : IsMap m.calls_by_sip
  pub uuid_map : IsMap m.calls_by_uuid
  pub by_sip : Linked (λ c. c.call_id) (λ c. c.id) m.calls_by_sip m.calls_by_uuid
  pub by_uuid : Linked (λ c. c.id) (λ c. c.call_id) m.calls_by_uuid m.calls_by_sip

pub new_call_manager-IsIndexed : IsIndexed new_call_manager
unfolding IsMap lookup
new_call_manager-IsIndexed = record {
  sip_map = tt;
  uuid_map = tt;
  by_sip = λ k c e. absurd (some-none (sym e));
  by_uuid = λ k c e. absurd (some-none (sym e));
}

-- Storing a call whose two names are new keeps the maps in step: each call is found under its SIP
-- Call-ID and under its internal id, and nothing else is found.
pub add-IsIndexed :
    (c : ActiveCall)
    → (m : CallManager) → IsIndexed m
    → get c.call_id m ≡ none
    → get_by_internal_id c.id m ≡ none
    → IsIndexed (add c m)
unfolding add add_insert add_count get get_by_internal_id
add-IsIndexed c m v new_sip new_uuid = record {
  sip_map = insert-IsMap c.call_id c m.calls_by_sip v.sip_map;
  uuid_map = insert-IsMap c.id c m.calls_by_uuid v.uuid_map;
  by_sip =
      insert-Linked (λ x. x.call_id) (λ x. x.id) m.calls_by_sip m.calls_by_uuid c v.by_sip new_uuid;
  by_uuid =
      insert-Linked (λ x. x.id) (λ x. x.call_id) m.calls_by_uuid m.calls_by_sip c v.by_uuid new_sip;
}

remove_call-IsIndexed :
    (c : ActiveCall)
    → (m : CallManager) → IsIndexed m
    → lookup c.call_id m.calls_by_sip ≡ some c
    → IsIndexed (remove_call c.call_id c.id m)
unfolding remove_call
remove_call-IsIndexed c m v e =
    let (_, there) = v.by_sip c.call_id c e in
    record {
      sip_map = delete-IsMap c.call_id m.calls_by_sip v.sip_map;
      uuid_map = delete-IsMap c.id m.calls_by_uuid v.uuid_map;
      by_sip =
          delete-Linked (λ x. x.call_id) (λ x. x.id) m.calls_by_sip m.calls_by_uuid c v.by_sip e
            there;
      by_uuid =
          delete-Linked (λ x. x.id) (λ x. x.call_id) m.calls_by_uuid m.calls_by_sip c v.by_uuid
            there e;
    }

-- Removing a Call-ID, known or not, keeps the maps in step.
pub remove-IsIndexed :
    (call_id : Text) → (m : CallManager) → IsIndexed m → IsIndexed (remove call_id m)
unfolding remove
remove-IsIndexed call_id m v = elim (Option-cases (lookup call_id m.calls_by_sip)) [
  | inl e ↦ rw (e, remove) v
  | inr (c, e) ↦
      let (own, _) = v.by_sip call_id c e in
      rw (e, remove)
        (subst (λ x. IsIndexed (remove_call x c.id m)) own
          (remove_call-IsIndexed c m v (ap (λ x. lookup x m.calls_by_sip) own ∙ e)))
]
