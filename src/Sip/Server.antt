-- ===== src/Sip/Server.antt =====
-- internal/sip/sip_handler.go and internal/call/active_call.go: what the SIP requests do to the
-- ports, the stored calls and the calls' life. A handler runs as one step, as does `Shutdown`, which
-- `EndCall` starts in a goroutine of its own. A call that `Shutdown` has finished is out of the
-- model: it does nothing any more, since `closeOnce` has run.
pub mod Sessions
pub mod Resources
pub mod Invites
pub mod Settled
pub mod Safety
pub mod Admission
pub mod Drain
pub mod Waking
use tele_portal.Audio.Codec.{CodecName, Stream}
use tele_portal.Call.Manager.{ActiveCall, CallManager, add, get, remove}
use tele_portal.Common.{
  Bool, List, Option, [], false, if◌then◌else◌, leb, ltb, none, not, some, suc, true, ℕ, ◌&&◌, ◌==◌,
  ◌∷◌,
}
use tele_portal.Common.Result.{err, ok}
use tele_portal.Common.Text.{Text, same_text}
use tele_portal.Rtp.Ports.{RtpManager, create_listener, release_listener}
use tele_portal.Sip.Negotiation.{negotiate_stream}
use tele_portal.Sip.Offer.{SessionDescription, get_remote_rtp_addr}

-- A limit of 0 stands for every setting that is not positive.
pub record SipConfig : Type 0 where
  pub max_calls : ℕ
  pub ws_codec : CodecName
  pub has_publisher : Bool

-- An active call from its creation to the end of `Shutdown`, with the port of its RTP stream and
-- what `startOnce` and `callEnded` remember. The handle is the pointer to it.
pub record Session : Type 0 where
  pub handle : ℕ
  pub call : ActiveCall
  pub port : ℕ
  pub stream : Stream
  pub started : Bool
  pub ended : Bool

-- What is published, latest first, with the internal id of the call.
pub data CallEvent : Type 0 where
  connected disconnected : Text → CallEvent

pub record Server : Type 0 where
  pub is_ready : Bool
  pub ports : RtpManager
  pub calls : CallManager
  pub sessions : List Session
  pub next_handle : ℕ
  pub events : List CallEvent

abbrev pub publish : SipConfig → CallEvent → List CallEvent → List CallEvent
publish cfg e events = if cfg.has_publisher then e ∷ events else events

-- The session of a pointer.
unfoldable pub find_session : ℕ → List Session → Option Session
find_session h [] = none
find_session h (s ∷ ss) = if h == s.handle then some s else find_session h ss

unfoldable pub drop_session : ℕ → List Session → List Session
drop_session h [] = []
drop_session h (s ∷ ss) = let rest = drop_session h ss in if h == s.handle then ss else s ∷ rest

unfoldable pub update_session : ℕ → (Session → Session) → List Session → List Session
update_session h f [] = []
update_session h f (s ∷ ss) =
    let rest = update_session h f ss in if h == s.handle then f s ∷ ss else s ∷ rest

-- The session of a stored call.
unfoldable pub session_of : Text → List Session → Option Session
session_of call_id [] = none
session_of call_id (s ∷ ss) =
    if same_text call_id s.call.call_id then some s else session_of call_id ss

-- `Shutdown` with the `OnFinished` of `handleInvite`.
unfoldable pub shutdown : ℕ → Server → Server
shutdown h sv = elim (find_session h sv.sessions) [
  | none ↦ sv
  | some s ↦ record sv {
    ports = release_listener (some s.port) sv.ports;
    calls = remove s.call.call_id sv.calls;
    sessions = drop_session h sv.sessions;
  }
]

-- An INVITE, with what the libraries say: the parsed body, whether the address resolves, whether a
-- dialog is created, which ports can be bound, whether the listener's address is of UDP, whether the
-- answer can be printed and sent, and the new internal id.
pub record Invite : Type 0 where
  pub call_id : Text
  pub body : Option SessionDescription
  pub resolves : Bool
  pub creates_dialog : Bool
  pub bind : ℕ → Bool
  pub is_udp : Bool
  pub prints_answer : Bool
  pub responds : Bool
  pub uuid : Text

abbrev pub new_call : Invite → ActiveCall
new_call q = record { call_id = q.call_id; id = q.uuid; has_dialog = true; has_bridge = true }

abbrev pub new_session : Invite → Stream → ℕ → ℕ → Session
new_session q stream port h = record {
  handle = h;
  call = new_call q;
  port = port;
  stream = stream;
  started = false;
  ended = false;
}

abbrev pub stored : Invite → Stream → ℕ → Server → Server
stored q stream port sv = record sv {
  calls = add (new_call q) sv.calls;
  sessions = new_session q stream port sv.next_handle ∷ sv.sessions;
  next_handle = suc sv.next_handle;
}

-- The call is stored and the answer is sent; if that fails, the call is shut down.
unfoldable pub establish : Invite → Stream → ℕ → Server → Server × Option ℕ
unfolding shutdown
establish q stream port sv =
    if q.responds
    then (stored q stream port sv, some 200)
    else (shutdown sv.next_handle (stored q stream port sv), some 500)

-- From the new listener to the answer. `none` stands for a listener that is not of UDP.
unfoldable pub prepare : Invite → Stream → ℕ → Server → Server × Option ℕ
unfolding establish
prepare q stream port sv =
    if not q.is_udp
    then (record sv { ports = release_listener none sv.ports }, some 500)
    else if not q.prints_answer
    then (record sv { ports = release_listener (some port) sv.ports }, some 500)
    else establish q stream port sv

unfoldable pub allocate : Invite → Stream → Server → Server × Option ℕ
unfolding prepare
allocate q stream sv =
    let ports = (create_listener q.bind sv.ports).0 in
    elim (create_listener q.bind sv.ports).1 [
      | err e ↦ (record sv { ports = ports }, some 503)
      | ok port ↦ prepare q stream port (record sv { ports = ports })
    ]

-- Whether the address of the offer is found and resolves.
unfoldable pub has_address : Invite → SessionDescription → Bool
has_address q offer = elim (get_remote_rtp_addr offer) [ ok a ↦ q.resolves | err e ↦ false ]

unfoldable pub negotiate : SipConfig → Invite → SessionDescription → Server → Server × Option ℕ
unfolding allocate has_address
negotiate cfg q offer sv = elim (negotiate_stream cfg.ws_codec offer) [
  | err e ↦ (sv, some 488)
  | ok stream ↦
      if not (has_address q offer)
      then (sv, some 400)
      else if not q.creates_dialog
      then (sv, some 500)
      else allocate q stream sv
]

-- The capacity check: `int64` of the counter, 0 for no limit.
unfoldable pub is_full : SipConfig → CallManager → Bool
is_full cfg calls =
    ltb 0 cfg.max_calls
    && (ltb calls.active_calls 9223372036854775808 && leb cfg.max_calls calls.active_calls)

-- `handleInvite`: the server after it, and the code of the response, if one is sent. It is one step
-- here, so that INVITEs are handled one at a time; in the source the capacity check, the look at the
-- stored calls and `Add` are apart, and another INVITE may come between them.
unfoldable pub handle_invite : SipConfig → Invite → Server → Server × Option ℕ
unfolding negotiate is_full
handle_invite cfg q sv =
    if not sv.is_ready
    then (sv, some 503)
    else if is_full cfg sv.calls
    then (sv, some 486)
    else elim (get q.call_id sv.calls) [
      | some c ↦ (sv, none)
      | none ↦ elim q.body [ none ↦ (sv, some 400) | some offer ↦ negotiate cfg q offer sv ]
    ]

-- The session of the call that `Get` finds.
unfoldable pub active_session : Text → Server → Option Session
active_session call_id sv = elim (get call_id sv.calls) [
  | none ↦ none
  | some c ↦ session_of call_id sv.sessions
]

-- `StartRTPHandlers`, what it does once.
abbrev pub start_session : Session → Session
start_session s = record s { started = true }

unfoldable pub handle_ack : SipConfig → Text → Server → Server
handle_ack cfg call_id sv = elim (active_session call_id sv) [
  | none ↦ sv
  | some s ↦ if s.started then sv else record sv {
    sessions = update_session s.handle start_session sv.sessions;
    events = publish cfg (connected s.call.id) sv.events;
  }
]

abbrev pub end_session : Session → Session
end_session s = record s { ended = true }

-- `EndCall`: the call is marked and the event is published, once; `Shutdown` follows by itself.
unfoldable pub end_call : SipConfig → ℕ → Server → Server
end_call cfg h sv = elim (find_session h sv.sessions) [
  | none ↦ sv
  | some s ↦ if s.ended then sv else record sv {
    sessions = update_session h end_session sv.sessions;
    events = publish cfg (disconnected s.call.id) sv.events;
  }
]

-- `handleBye` and `handleCancel`.
unfoldable pub handle_bye : SipConfig → Text → Server → Server
unfolding end_call
handle_bye cfg call_id sv = elim (active_session call_id sv) [
  | none ↦ sv
  | some s ↦ end_call cfg s.handle sv
]

-- `handleOptions`: the code that is tried.
unfoldable pub handle_options : Server → ℕ
handle_options sv = if not sv.is_ready then 503 else 200

-- The steps of the server: requests, an `EndCall` of the media timeout or the client, a `Shutdown`,
-- and `SetReady`.
pub data Request : Type 0 where
  invite : Invite → Request
  ack bye : Text → Request
  hung_up finished : ℕ → Request
  set_ready : Bool → Request

unfoldable pub serve : SipConfig → Request → Server → Server
unfolding handle_ack handle_bye
serve cfg (invite q) sv = (handle_invite cfg q sv).0
serve cfg (ack call_id) sv = handle_ack cfg call_id sv
serve cfg (bye call_id) sv = handle_bye cfg call_id sv
serve cfg (hung_up h) sv = end_call cfg h sv
serve cfg (finished h) sv = shutdown h sv
serve cfg (set_ready ready) sv = record sv { is_ready = ready }

unfoldable pub serve_all : SipConfig → List Request → Server → Server
serve_all cfg [] sv = sv
serve_all cfg (r ∷ rs) sv = serve_all cfg rs (serve cfg r sv)
