-- ===== src/Webrtc.antt =====
-- internal/webrtc/manager.go and codec.go: calls over WebRTC, and the handler of
-- internal/api/http_handler.go that makes them. What the library pion answers is a parameter.
pub mod Outbound
pub mod Signaling
pub mod Codecs
use tele_portal.Api.{TelePortalClaims}
use tele_portal.Audio.Codec.{Stream, l16, opus, unnamed}
use tele_portal.Call.Manager.{ActiveCall, CallManager, Effect, add, hang_up_call, remove}
use tele_portal.Call.Processor.{Media}
use tele_portal.Common.{
  Bool, List, Option, [], false, if◌then◌else◌, none, not, some, true, ℕ, ◌&&◌, ◌==◌, ◌||◌, ◌∷◌,
}
use tele_portal.Common.Text.{Text, codes, same_text}
use tele_portal.Rtp.Writer.{bytes_per_sample}

-- `strings.Contains`.
unfoldable pub has_prefix : Text → Text → Bool
has_prefix [] s = true
has_prefix (c ∷ cs) [] = false
has_prefix (c ∷ cs) (x ∷ xs) = c == x && has_prefix cs xs

unfoldable pub contains : Text → Text → Bool
unfolding has_prefix
contains part [] = has_prefix part []
contains part (x ∷ xs) = has_prefix part (x ∷ xs) || contains part xs

-- A codec that is registered with the media engine.
pub record CodecParameters : Type 0 where
  pub mime_type : Text
  pub clock_rate : ℕ
  pub codec_channels : ℕ
  pub registered_type : ℕ

abbrev pub mime_opus : Text
mime_opus = codes "audio/opus"

abbrev pub mime_l16 : Text
mime_l16 = codes "audio/L16"

abbrev pub new_media_engine : List CodecParameters
new_media_engine =
    record { mime_type = mime_opus; clock_rate = 48000; codec_channels = 2; registered_type = 111 }
    ∷ record { mime_type = mime_l16; clock_rate = 16000; codec_channels = 1; registered_type = 112 }
    ∷ record { mime_type = mime_l16; clock_rate = 8000; codec_channels = 1; registered_type = 11 }
    ∷ []

-- `sampleRate` and `mimeType`, by the text of the offer.
pub record Format : Type 0 where
  pub rate : ℕ
  pub mime : Text

unfoldable pub format_of : Text → Format
unfolding contains
format_of sdp =
    if contains (codes "L16/16000") sdp
    then record { rate = 16000; mime = mime_l16 }
    else if contains (codes "L16/8000") sdp
    then record { rate = 8000; mime = mime_l16 }
    else record { rate = 48000; mime = mime_opus }

-- The stream of the call: the other fields keep their zero values.
unfoldable pub stream_info : Format → Stream
unfolding same_text
stream_info f = record {
  codec = record {
    name = if same_text f.mime mime_l16 then l16 else opus;
    bytes_per_sample = 0;
    sample_rate = f.rate;
    channels = 0;
    payload_type = 0;
    is_big_endian = false;
    is_signed = false;
  };
  ptime = 0;
  dtmf_payload_type = 0;
}

unfoldable pub payload_type_of : Format → ℕ
unfolding same_text
payload_type_of f = if same_text f.mime mime_l16 then (if f.rate == 16000 then 112 else 11) else 111

-- The media of the bridge of such a call: no codec of the WebSocket and no recording are set.
unfoldable pub bridge_media : Text → Media
unfolding stream_info format_of
bridge_media sdp = record {
  ws_codec = unnamed;
  stream = stream_info (format_of sdp);
  has_client = false;
  send = [];
  recorder = none;
  output = some [];
  taken = 0;
  returned = 0;
}

-- The calls, the peer connections that are open, and the audio loops that run.
pub record Rtc : Type 0 where
  pub manager : CallManager
  pub peers : List Text
  pub loops : List Text

-- What the libraries answer during the signaling.
pub record Libraries : Type 0 where
  pub has_publisher : Bool
  pub marshals : Bool
  pub publishes : Bool
  pub parses_id : Bool
  pub connects : Bool
  pub makes_track : Bool
  pub adds_track : Bool
  pub sets_remote : Bool
  pub creates_answer : Bool
  pub sets_local : Bool

pub data Signaled : Type 0 where
  answered : Signaled
  inbound_failed id_failed : Signaled
  connection_failed track_failed add_track_failed : Signaled
  remote_failed answer_failed local_failed : Signaled

-- `HandleInboundCall`: whether it returns no error.
unfoldable pub handle_inbound_call : Libraries → Bool
handle_inbound_call l = l.marshals && (not l.has_publisher || l.publishes)

abbrev pub webrtc_call : Text → Text → ActiveCall
webrtc_call call_id id = record {
  call_id = call_id;
  id = id;
  has_dialog = false;
  has_bridge = true;
}

-- The call is made, its bridge started, and stored.
unfoldable pub start_call : Text → Text → Rtc → Rtc
start_call call_id id s = record s {
  manager = add (webrtc_call call_id id) s.manager;
  loops = call_id ∷ s.loops;
}

unfoldable pub process_signaling : Libraries → Text → Text → Rtc → Signaled × Rtc
unfolding handle_inbound_call start_call
process_signaling l call_id id s =
    let started = start_call call_id id s in
    let opened = record started { peers = call_id ∷ started.peers } in
    if not (handle_inbound_call l)
    then (inbound_failed, s)
    else if not l.parses_id
    then (id_failed, s)
    else if not l.connects
    then (connection_failed, started)
    else if not l.makes_track
    then (track_failed, opened)
    else if not l.adds_track
    then (add_track_failed, opened)
    else if not l.sets_remote
    then (remote_failed, opened)
    else if not l.creates_answer
    then (answer_failed, opened)
    else if not l.sets_local
    then (local_failed, opened)
    else (answered, opened)

unfoldable pub without : Text → List Text → List Text
unfolding same_text
without t [] = []
without t (x ∷ xs) = if same_text t x then without t xs else x ∷ without t xs

-- `OnConnectionStateChange`, for a connection that has failed or was closed.
unfoldable pub on_connection_lost : Text → Rtc → Rtc
unfolding without
on_connection_lost call_id s = record s {
  manager = remove call_id s.manager;
  peers = without call_id s.peers;
}

-- What the handler of a connection meets before and after the signaling.
pub record ConnectRequest : Type 0 where
  pub secret : Text
  pub claims : Option TelePortalClaims
  pub upgrades : Bool
  pub has_manager : Bool
  pub reads_offer : Bool

-- What the handler has come to: a response or an error, or the wait for the client.
pub data Connected : Type 0 where
  response : ℕ → Connected
  connect_failed : Connected
  awaiting_client : Connected

unfoldable pub check_context : Text → Option TelePortalClaims → Bool
unfolding same_text
check_context secret none = same_text secret []
check_context secret (some c) = true

abbrev pub await_client : Signaled × Rtc → Connected × Rtc
await_client (answered, s) = (awaiting_client, s)
await_client (failure, s) = (connect_failed, s)

unfoldable pub handle_webrtc_connect :
    ConnectRequest → Libraries → Text → Text → Rtc → Connected × Rtc
unfolding check_context process_signaling
handle_webrtc_connect q l call_id id s =
    if not (check_context q.secret q.claims)
    then (response 500, s)
    else if not q.upgrades
    then (connect_failed, s)
    else if not q.has_manager
    then (response 500, s)
    else if not q.reads_offer
    then (connect_failed, s)
    else await_client (process_signaling l call_id id s)

-- The deferred hangup, after the client has gone or the answer could not be written.
-- What hanging up does besides is given back, too: for a WebRTC call the closing of its bridge.
unfoldable pub client_gone : Text → Rtc → Rtc × List Effect
unfolding hang_up_call
client_gone call_id s =
    let (manager, effects) = hang_up_call call_id s.manager in
    (record s { manager = manager }, effects)
