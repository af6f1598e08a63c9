-- ===== src/Call/Bridge.antt =====
-- internal/call/audio_bridge.go: the one slot for a client, its reservation, and the first message
-- that a client gets. A connection is a number; each has one client.
pub mod Slot
use tele_portal.Audio.Codec.{CodecName, Stream, pass, same_name}
use tele_portal.Common.{
  Bool, List, Option, [], false, if◌then◌else◌, none, not, some, suc, true, ℕ, ◌==◌, ◌||◌, ◌∷◌,
}

-- `connected` and `disconnected` count the calls of the metrics, `closed` lists the clients whose
-- channel was closed, and `refused` the connections that were closed at once.
pub record Bridge : Type 0 where
  pub client : Option ℕ
  pub reserved : Bool
  pub cancelled : Bool
  pub connected : ℕ
  pub disconnected : ℕ
  pub closed : List ℕ
  pub refused : List ℕ

abbrev pub new_bridge : Bridge
new_bridge = record {
  client = none;
  reserved = false;
  cancelled = false;
  connected = 0;
  disconnected = 0;
  closed = [];
  refused = [];
}

abbrev pub is_some : Option ℕ → Bool
is_some (some n) = true
is_some none = false

unfoldable pub has_listeners : Bridge → Bool
has_listeners b = is_some b.client

unfoldable pub try_lock : Bridge → Bridge × Bool
try_lock b =
    if is_some b.client || b.reserved then (b, false) else (record b { reserved = true }, true)

unfoldable pub unlock : Bridge → Bridge
unlock b = record b { reserved = false }

-- `AddClient`, but for the message to the new client.
unfoldable pub add_client : ℕ → Bridge → Bridge
add_client conn b =
    if b.cancelled || is_some b.client
    then record b { refused = conn ∷ b.refused }
    else record b { client = some conn; reserved = false; connected = suc b.connected }

-- What `disconnect.Do` does, once for each client.
unfoldable pub disconnect : ℕ → Bridge → Bridge
disconnect conn b = record b { disconnected = suc b.disconnected; closed = conn ∷ b.closed }

unfoldable pub remove_client : ℕ → Bridge → Bridge
unfolding disconnect
remove_client conn b = elim b.client [
  | some c ↦ if c == conn then disconnect c (record b { client = none; reserved = false }) else b
  | none ↦ b
]

-- The body of `CloseAll`, without the recorder.
unfoldable pub close_all : Bridge → Bridge
unfolding disconnect
close_all b = elim b.client [
  | some c ↦ disconnect c (record b { client = none; reserved = false })
  | none ↦ record b { reserved = false }
]

-- `WsMetadataMessage`, the first message.
pub record Metadata : Type 0 where
  pub codec : CodecName
  pub sample_rate : ℕ
  pub channels : ℕ
  pub ptime : ℕ
  pub dtmf_enabled : Bool
  pub is_big_endian : Bool

unfoldable pub metadata : CodecName → Stream → Metadata
metadata ws_codec stream = record {
  codec = if same_name ws_codec pass then stream.codec.name else ws_codec;
  sample_rate = stream.codec.sample_rate;
  channels = stream.codec.channels;
  ptime = stream.ptime;
  dtmf_enabled = not (stream.dtmf_payload_type == 0);
  is_big_endian = if same_name ws_codec pass then stream.codec.is_big_endian else false;
}
