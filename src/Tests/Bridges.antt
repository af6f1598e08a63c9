-- ===== src/Tests/Bridges.antt =====
-- The theorems on the media of a call, on access to calls and on the client library at concrete
-- inputs.
use tele_portal.Api.{
  ListenRequest, ParseWithClaims, TelePortalClaims, key_for, serve_upgrade, streaming, token_of,
}
use tele_portal.Api.Access.{InScope, serve_upgrade-InScope}
use tele_portal.Audio.Codec.{l16, new_codec_g711_mu_law}
use tele_portal.Audio.G711.Tables.{Tables, initialize, zeroed}
use tele_portal.Call.Bridge.{has_listeners, new_bridge}
use tele_portal.Call.Manager.{ActiveCall, CallManager, add, get_by_internal_id, new_call_manager}
use tele_portal.Call.Processor.{Media, RtpPacket}
use tele_portal.Call.Processor.Client.{process_all-take}
use tele_portal.Call.Processor.Delivery.{process_all, wanted_all}
use tele_portal.Client.{sent}
use tele_portal.Client.Lifetimes.{run-close}
use tele_portal.Client.Session.{
  Session, Step, arriving, closing, new_session, pumping, reading, requesting, run, silent, writing,
}
use tele_portal.Common.{
  Bool, List, [], arith, false, if◌then◌else◌, none, refl, some, take, true, ◌&&◌, ◌++◌, ◌+◌, ◌∷◌,
  ◌≡◌,
}
use tele_portal.Common.Maps.{insert, lookup}
use tele_portal.Common.Result.{ok}
use tele_portal.Common.Text.{codes, same_text}

abbrev tables : Tables
tables = initialize zeroed

abbrev transcoded : Media
transcoded = record {
  ws_codec = l16;
  stream = record { codec = new_codec_g711_mu_law; ptime = 20; dtmf_payload_type = 101 };
  has_client = true;
  send = [];
  recorder = some (record { left_ch = []; right_ch = []; stops = false });
  output = some [];
  taken = 0;
  returned = 0;
}

abbrev packet : RtpPacket
packet = record { payload = some (255 ∷ 127 ∷ []); payload_type = some 0 }

abbrev digit : RtpPacket
digit = record { payload = some (5 ∷ 10 ∷ 0 ∷ 160 ∷ []); payload_type = some 101 }

abbrev packets : List (Bool × RtpPacket)
packets = (true, packet) ∷ (true, digit) ∷ (false, packet) ∷ (true, packet) ∷ []

process_all-take_example :
    (process_all tables packets transcoded).send
    ≡ take 200 (transcoded.send ++ wanted_all tables packets transcoded)
process_all-take_example = process_all-take tables packets transcoded refl (omega arith)

abbrev calls : CallManager
calls =
    add (record { call_id = codes "one"; id = codes "u1"; has_dialog = true; has_bridge = true })
      new_call_manager

-- One token, with a method of HMAC, that is signed with the secret "s".
abbrev signed : ParseWithClaims
signed key token = elim (key true) [
  | some secret ↦
      if same_text token (codes "t") && same_text secret (codes "s")
      then some (record { subject = codes "u1"; admin = false })
      else none
  | none ↦ none
]

abbrev listener : ListenRequest
listener = record {
  internal_id = codes "u1";
  call_id = codes "one";
  upgrades = true;
  writes_headers = true;
  conn = 7;
}

abbrev joined : ActiveCall
joined = record { call_id = codes "one"; id = codes "u1"; has_dialog = true; has_bridge = true }

listening :
    (serve_upgrade signed (codes "s") (codes "Bearer t") [] listener calls new_bridge).1
    ≡ streaming joined
unfolding serve_upgrade key_for lookup add insert
listening = refl

serve_upgrade-InScope_example :
    ((c : TelePortalClaims) × (signed (key_for (codes "s")) (token_of (codes "Bearer t") [])
        ≡ some c)
      × InScope (codes "u1") c)
    × (get_by_internal_id (codes "u1") calls ≡ some joined)
    × (codes "one" ≡ codes "one")
    × (has_listeners new_bridge ≡ false)
serve_upgrade-InScope_example =
    serve_upgrade-InScope signed (codes "s") (codes "Bearer t") [] listener calls new_bridge joined
      (unfold same_text in refl) listening

abbrev life : List Step
life =
    writing (1 ∷ 2 ∷ []) sent
    ∷ arriving (3 ∷ 4 ∷ []) true
    ∷ arriving (5 ∷ 6 ∷ []) true
    ∷ reading
    ∷ requesting (codes "{}") sent
    ∷ pumping
    ∷ silent 2
    ∷ closing
    ∷ []

abbrev ended : Session
ended = record new_session { is_closed = true; given = 1; taken = 4; returned = 3 }

life-ended : run life new_session ≡ ok ended
unfolding run
life-ended = refl

run-close_example :
    (ended.send ≡ []) × (ended.receive ≡ []) × (ended.taken ≡ ended.returned + ended.given)
run-close_example = run-close life ended life-ended refl
