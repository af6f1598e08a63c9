-- ===== src/Api.antt =====
-- internal/api/http_handler.go: who may list the calls and who gets the audio of a call. What the
-- JWT library says of a token is a parameter: its claims, if it is valid under the key for its
-- method.
pub mod Access
pub mod Slots
use tele_portal.Call.Bridge.{Bridge, add_client, try_lock, unlock}
use tele_portal.Call.Manager.{ActiveCall, CallManager, get_by_internal_id, list_active_calls}
use tele_portal.Common.{
  Bool, List, Option, [], false, if◌then◌else◌, leb, none, not, some, ℕ, ◌&&◌, ◌*◌, ◌==◌, ◌||◌, ◌∷◌,
}
use tele_portal.Common.Text.{Text, codes, equal_fold, same_text, split}

-- The claims that are read.
pub record TelePortalClaims : Type 0 where
  pub subject : Text
  pub admin : Bool

-- What a handler ends with: a response with a status, an error after the reservation, the calls, or
-- the audio of a call.
pub data Outcome : Type 0 where
  status : ℕ → Outcome
  failed : Outcome
  listed : List ActiveCall → Outcome
  streaming : ActiveCall → Outcome

-- `strings.CutPrefix`.
abbrev pub cut_prefix : Text → Text → Option Text
cut_prefix [] s = some s
cut_prefix (c ∷ cs) [] = none
cut_prefix (c ∷ cs) (x ∷ xs) = if c == x then cut_prefix cs xs else none

-- The token of the header, or that of the query.
unfoldable pub token_of : Text → Text → Text
unfolding same_text
token_of header query =
    let bearer : Text = elim (cut_prefix (codes "Bearer ") header) [
      | some after ↦ after
      | none ↦ []
    ] in
    if same_text bearer [] then query else bearer

-- The key that the middleware has for a token, by whether its signing method is HMAC; for another
-- method there is an error instead.
unfoldable pub key_for : Text → Bool → Option Text
key_for secret is_hmac = if is_hmac then some secret else none

-- `jwt.ParseWithClaims`: the claims of a token that is valid under the key for its method.
abbrev pub ParseWithClaims : Type 0
ParseWithClaims = (Bool → Option Text) → Text → Option TelePortalClaims

-- What `authMiddleware` decides: the response, or the claims in the context of the next handler.
pub data Auth : Type 0 where
  refused : Auth
  passed : Option TelePortalClaims → Auth

unfoldable pub auth_middleware : ParseWithClaims → Text → Text → Text → Auth
unfolding token_of key_for
auth_middleware parsed secret header query =
    if same_text secret []
    then passed none
    else if same_text (token_of header query) []
    then refused
    else elim (parsed (key_for secret) (token_of header query)) [
      | none ↦ refused
      | some c ↦ passed (some c)
    ]

abbrev pub star : Text
star = codes "*"

-- `strings.TrimSpace` on ASCII.
abbrev is_space : ℕ → Bool
is_space c = c == 32 || leb 9 c && leb c 13

abbrev trim_left : Text → Text
trim_left [] = []
trim_left (c ∷ cs) = let rest = trim_left cs in if is_space c then rest else c ∷ cs

-- The bytes up to the last one that is no space.
abbrev trim_right : Text → Text
trim_right [] = []
trim_right (c ∷ cs) =
    let rest = trim_right cs in if is_space c && same_text rest [] then [] else c ∷ rest

-- The loop of `CheckOrigin` over the configured origins.
unfoldable pub origin_loop : Text → List Text → Bool
unfolding same_text equal_fold
origin_loop origin [] = false
origin_loop origin (o ∷ os) =
    let allowed = trim_right (trim_left o) in
    let rest = origin_loop origin os in same_text allowed star || equal_fold allowed origin || rest

-- `CheckOrigin`, where origins are configured; `cors_origins` is not empty.
unfoldable pub check_origin : Text → Text → Bool
unfolding split origin_loop same_text
check_origin cors_origins origin = same_text origin [] || origin_loop origin (split 44 cors_origins)

unfoldable pub handle_readyz : Bool → ℕ
handle_readyz is_ready = if is_ready then 200 else 503

-- Whether a handler goes on after its check of the claims; the number is the status otherwise.
unfoldable pub check_claims : Text → (TelePortalClaims → Bool) → Option TelePortalClaims → Option ℕ
check_claims secret allowed claims =
    if same_text secret []
    then none
    else elim claims [ none ↦ some 500 | some c ↦ if allowed c then none else some 403 ]

abbrev pub may_list : TelePortalClaims → Bool
may_list c = same_text c.subject star || c.admin

abbrev pub may_listen : Text → TelePortalClaims → Bool
may_listen internal_id c = c.admin || same_text c.subject star || same_text c.subject internal_id

unfoldable pub handle_list_calls : Text → Option TelePortalClaims → CallManager → Outcome
unfolding check_claims list_active_calls
handle_list_calls secret claims m = elim (check_claims secret may_list claims) [
  | some code ↦ status code
  | none ↦ listed (list_active_calls m.calls_by_sip)
]

-- A request for the audio of a call, with what the upgrade does: whether it succeeds, whether the
-- headers are sent, and the new connection.
pub record ListenRequest : Type 0 where
  pub internal_id : Text
  pub call_id : Text
  pub upgrades : Bool
  pub writes_headers : Bool
  pub conn : ℕ

-- From `TryLock` on, for the bridge of the call.
unfoldable pub join_call : ListenRequest → ActiveCall → Bridge → Bridge × Outcome
unfolding try_lock unlock add_client
join_call q c b =
    let (locked, won) = try_lock b in
    if not won
    then (locked, status 409)
    else if not q.upgrades
    then (unlock locked, failed)
    else if not q.writes_headers
    then (locked, failed)
    else (add_client q.conn locked, streaming c)

-- `HandleUpgrade` up to the start of `ReadPump`; `b` is the bridge of the call that is found.
unfoldable pub handle_upgrade :
    Text → Option TelePortalClaims → ListenRequest → CallManager → Bridge → Bridge × Outcome
unfolding check_claims get_by_internal_id join_call
handle_upgrade secret claims q m b =
    if same_text q.call_id []
    then (b, status 400)
    else if same_text q.internal_id []
    then (b, status 400)
    else elim (check_claims secret (may_listen q.internal_id) claims) [
      | some code ↦ (b, status code)
      | none ↦ elim (get_by_internal_id q.internal_id m) [
        | none ↦ (b, status 404)
        | some c ↦ if not (same_text c.call_id q.call_id) then (b, status 404) else join_call q c b
      ]
    ]

-- The route of the listeners: the middleware, then the handler.
unfoldable pub serve_upgrade :
    ParseWithClaims → Text → Text → Text → ListenRequest → CallManager → Bridge → Bridge × Outcome
unfolding auth_middleware handle_upgrade
serve_upgrade parsed secret header query q m b = elim (auth_middleware parsed secret header query) [
  | refused ↦ (b, status 401)
  | passed claims ↦ handle_upgrade secret claims q m b
]
