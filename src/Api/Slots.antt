-- ===== src/Api/Slots.antt =====
-- internal/api/http_handler.go: what a request for the audio of a call leaves of the call's slot.
-- A request that gets no audio leaves the bridge as it was.
use tele_portal.Api.{
  ListenRequest, Outcome, TelePortalClaims, check_claims, handle_upgrade, join_call, may_listen,
  streaming,
}
use tele_portal.Call.Bridge.{Bridge, add_client, is_some, try_lock, unlock}
use tele_portal.Call.Manager.{ActiveCall, CallManager, get_by_internal_id}
use tele_portal.Common.{
  Bool-cases, Option, Option-cases, [], ap, arith, false, inl, inr, refl, subst, sym, true, ◌||◌,
  ◌≡◌, ◌⊎◌,
}
use tele_portal.Common.Text.{Text, same_text}

abbrev pub Leaves : ListenRequest → Bridge → Bridge × Outcome → Type 0
Leaves q b r =
    (r.0 ≡ b)
    ⊎ ((c : ActiveCall) × (r.1 ≡ streaming c)
        × (r.0 ≡ add_client q.conn (record b { reserved = true })))

try_lock-won :
    (b : Bridge)
    → (try_lock b).1 ≡ true
    → (b.reserved ≡ false) × (try_lock b ≡ (record b { reserved = true }, true))
unfolding try_lock
try_lock-won b e = elim (Bool-cases (is_some b.client || b.reserved)) [
  | inl f ↦ cc (rw f at e)
  | inr f ↦ (ground (arith, f), simp f)
]

try_lock-lost : (b : Bridge) → (try_lock b).1 ≡ false → try_lock b ≡ (b, false)
unfolding try_lock
try_lock-lost b e = elim (Bool-cases (is_some b.client || b.reserved)) [
  | inl f ↦ simp f
  | inr f ↦ cc (rw f at e)
]

unlock-locked : (b : Bridge) → b.reserved ≡ false → unlock (record b { reserved = true }) ≡ b
unfolding unlock
unlock-locked b e = ap (λ r. record b { reserved = r }) (sym e)

join_call-Leaves :
    (q : ListenRequest) (c : ActiveCall) (b : Bridge)
    → q.writes_headers ≡ true
    → Leaves q b (join_call q c b)
unfolding join_call
join_call-Leaves q c b w = elim (Bool-cases (try_lock b).1) [
  | inr l ↦ inl (rw (try_lock-lost b l) refl)
  | inl l ↦
      let (free, e) = try_lock-won b l in
      elim (Bool-cases q.upgrades) [
        | inr u ↦ inl (simp (e, u, unlock-locked b free))
        | inl u ↦ inr (c, simp (e, u, w), simp (e, u, w))
      ]
]

-- If the headers can be sent, a request either gets the audio and its client is added to the
-- reserved slot, or it leaves the bridge as it was, on every path.
pub handle_upgrade-Leaves :
    (secret : Text) (claims : Option TelePortalClaims) (q : ListenRequest) (m : CallManager)
    (b : Bridge)
    → q.writes_headers ≡ true
    → Leaves q b (handle_upgrade secret claims q m b)
unfolding handle_upgrade
handle_upgrade-Leaves secret claims q m b w = elim (Bool-cases (same_text q.call_id [])) [
  | inl x ↦ inl (simp (x, handle_upgrade))
  | inr x ↦ elim (Bool-cases (same_text q.internal_id [])) [
    | inl y ↦ inl (simp (x, y, handle_upgrade))
    | inr y ↦ elim (Option-cases (check_claims secret (may_listen q.internal_id) claims)) [
      | inr (code, f) ↦ inl (simp (x, y, f, handle_upgrade))
      | inl f ↦ elim (Option-cases (get_by_internal_id q.internal_id m)) [
        | inl g ↦ inl (simp (x, y, f, g, handle_upgrade))
        | inr (c, g) ↦ elim (Bool-cases (same_text c.call_id q.call_id)) [
          | inr s ↦ inl (simp (x, y, f, g, s, handle_upgrade))
          | inl s ↦
              subst (Leaves q b) (simp (x, y, f, g, s, handle_upgrade)) (join_call-Leaves q c b w)
        ]
      ]
    ]
  ]
]
