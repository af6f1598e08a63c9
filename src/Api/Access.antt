-- ===== src/Api/Access.antt =====
-- internal/api/http_handler.go: only a valid token in scope gets the audio of a call.
-- What a token has to allow.
use tele_portal.Api.{
  Auth, ListenRequest, ParseWithClaims, TelePortalClaims, auth_middleware, check_claims,
  handle_upgrade, join_call, key_for, may_listen, passed, refused, serve_upgrade, star, streaming,
  token_of,
}
use tele_portal.Call.Bridge.{Bridge, has_listeners, is_some, try_lock}
use tele_portal.Call.Manager.{ActiveCall, CallManager, get_by_internal_id}
use tele_portal.Common.{
  Bool, Bool-cases, Option, Option-cases, [], ap, arith, false, inl, inr, none, refl, some, subst,
  sym, true, ◌∙◌, ◌≡◌, ◌⊎◌,
}
use tele_portal.Common.Text.{Text, same_text, same_text→eq}

abbrev pub InScope : Text → TelePortalClaims → Type 0
InScope internal_id c = (c.admin ≡ true) ⊎ ((c.subject ≡ star) ⊎ (c.subject ≡ internal_id))

may_listen-InScope :
    (internal_id : Text) (c : TelePortalClaims)
    → may_listen internal_id c ≡ true
    → InScope internal_id c
may_listen-InScope internal_id c e = elim (Bool-cases c.admin) [
  | inl a ↦ inl a
  | inr a ↦ elim (Bool-cases (same_text c.subject star)) [
    | inl s ↦ inr (inl (same_text→eq c.subject star s))
    | inr s ↦ inr (inr (same_text→eq c.subject internal_id (ground (arith, a, s, e))))
  ]
]

-- How a request that gets the audio of `c` went.
record IsJoined (secret : Text) (claims : Option TelePortalClaims) (q : ListenRequest)
    (m : CallManager) (b : Bridge) (c : ActiveCall) : Type 0 where
  cleared : check_claims secret (may_listen q.internal_id) claims ≡ none
  found : get_by_internal_id q.internal_id m ≡ some c
  same_call : c.call_id ≡ q.call_id
  joined : (join_call q c b).1 ≡ streaming c

join_call-streaming :
    (q : ListenRequest) (c d : ActiveCall) (b : Bridge) → (join_call q c b).1 ≡ streaming d → c ≡ d
unfolding join_call
join_call-streaming q c d b e = elim (Bool-cases (try_lock b).1) [
  | inr l ↦ cc (rw l at e)
  | inl l ↦ elim (Bool-cases q.upgrades) [
    | inr u ↦ cc (rw (l, u) at e)
    | inl u ↦ elim (Bool-cases q.writes_headers) [
      | inr w ↦ cc (rw (l, u, w) at e)
      | inl w ↦ cc (rw (l, u, w) at e)
    ]
  ]
]

join_call-free :
    (q : ListenRequest) (c d : ActiveCall) (b : Bridge)
    → (join_call q c b).1 ≡ streaming d
    → has_listeners b ≡ false
unfolding join_call try_lock has_listeners
join_call-free q c d b e = elim (Bool-cases (is_some b.client)) [
  | inr n ↦ n
  | inl y ↦ cc (rw y at e)
]

handle_upgrade-IsJoined :
    (secret : Text) (claims : Option TelePortalClaims) (q : ListenRequest) (m : CallManager)
    (b : Bridge) (d : ActiveCall)
    → (handle_upgrade secret claims q m b).1 ≡ streaming d
    → IsJoined secret claims q m b d
unfolding handle_upgrade
handle_upgrade-IsJoined secret claims q m b d e = elim (Bool-cases (same_text q.call_id [])) [
  | inl x ↦ cc (rw x at e)
  | inr x ↦ elim (Bool-cases (same_text q.internal_id [])) [
    | inl y ↦ cc (rw (x, y) at e)
    | inr y ↦ elim (Option-cases (check_claims secret (may_listen q.internal_id) claims)) [
      | inr (code, f) ↦ cc (rw (x, y, f) at e)
      | inl f ↦ elim (Option-cases (get_by_internal_id q.internal_id m)) [
        | inl g ↦ cc (rw (x, y, f, g) at e)
        | inr (c, g) ↦ elim (Bool-cases (same_text c.call_id q.call_id)) [
          | inr s ↦ cc (rw (x, y, f, g, s) at e)
          | inl s ↦
              let j : (join_call q c b).1 ≡ streaming d = rw (x, y, f, g, s) at e in
              subst (IsJoined secret claims q m b) (join_call-streaming q c d b j) (record {
                cleared = f;
                found = g;
                same_call = same_text→eq c.call_id q.call_id s;
                joined = j ∙ ap streaming (sym (join_call-streaming q c d b j));
              })
        ]
      ]
    ]
  ]
]

check_claims-allowed :
    (secret : Text) (allowed : TelePortalClaims → Bool) (claims : Option TelePortalClaims)
    → same_text secret [] ≡ false
    → check_claims secret allowed claims ≡ none
    → (c : TelePortalClaims) × (claims ≡ some c) × (allowed c ≡ true)
unfolding check_claims
check_claims-allowed secret allowed none s e = cc (rw s at e)
check_claims-allowed secret allowed (some c) s e = elim (Bool-cases (allowed c)) [
  | inl a ↦ (c, refl, a)
  | inr a ↦ cc (rw (s, a) at e)
]

-- The claims that the middleware passes on are those of the token.
auth_middleware-valid :
    (parsed : ParseWithClaims) (secret header query : Text) (c : TelePortalClaims)
    → same_text secret [] ≡ false
    → auth_middleware parsed secret header query ≡ passed (some c)
    → parsed (key_for secret) (token_of header query) ≡ some c
unfolding auth_middleware
auth_middleware-valid parsed secret header query c s e =
    elim (Bool-cases (same_text (token_of header query) [])) [
      | inl n ↦ cc (rw (s, n) at e)
      | inr n ↦ elim (Option-cases (parsed (key_for secret) (token_of header query))) [
        | inl v ↦ cc (rw (s, n, v) at e)
        | inr (d, v) ↦ v ∙ passed-inj (rw (s, n, v) at e)
      ]
    ]
  where
    passed-inj : {x y : Option TelePortalClaims} → passed x ≡ passed y → x ≡ y
    passed-inj f = cc

-- With a secret, a request gets the audio of a call only with a token that is valid under the key
-- for its method and that is of an admin, for all calls, or for the internal id of the request; the
-- call is then the one stored under that internal id, its call id is that of the request, and no
-- client was there.
pub serve_upgrade-InScope :
    (parsed : ParseWithClaims) (secret header query : Text) (q : ListenRequest) (m : CallManager)
    (b : Bridge) (d : ActiveCall)
    → same_text secret [] ≡ false
    → (serve_upgrade parsed secret header query q m b).1 ≡ streaming d
    → ((c : TelePortalClaims) × (parsed (key_for secret) (token_of header query) ≡ some c)
        × InScope q.internal_id c)
      × (get_by_internal_id q.internal_id m ≡ some d)
      × (d.call_id ≡ q.call_id)
      × (has_listeners b ≡ false)
unfolding serve_upgrade
serve_upgrade-InScope parsed secret header query q m b d s e =
    elim (auth-cases (auth_middleware parsed secret header query)) [
      | inl r ↦ cc (rw (r, serve_upgrade) at e)
      | inr (claims, r) ↦
          let j = handle_upgrade-IsJoined secret claims q m b d (rw (r, serve_upgrade) at e) in
          let (c, same, a) =
            check_claims-allowed secret (may_listen q.internal_id) claims s j.cleared in
          (
            (
              c,
              auth_middleware-valid parsed secret header query c s (r ∙ ap passed same),
              may_listen-InScope q.internal_id c a,
            ),
            j.found,
            j.same_call,
            join_call-free q d d b j.joined,
          )
    ]
  where
    auth-cases : (a : Auth) → (a ≡ refused) ⊎ ((x : Option TelePortalClaims) × (a ≡ passed x))
    auth-cases refused = inl refl
    auth-cases (passed x) = inr (x, refl)
