-- ===== src/Tests/Servers.antt =====
-- The theorems on the server's requests at concrete inputs.
use tele_portal.Audio.Codec.{new_codec_g711_mu_law, pass}
use tele_portal.Call.Manager.{add, get, new_call_manager}
use tele_portal.Common.{List, [], arith, false, none, refl, some, true, ◌∷◌, ◌≡◌}
use tele_portal.Common.Maps.{IsMap, insert, lookup}
use tele_portal.Common.Result.{ok}
use tele_portal.Common.Text.{codes, itoa, same_text}
use tele_portal.Rtp.Ports.{RtpManager, create_listener, in_use, new_rtp_manager, search_loop}
use tele_portal.Rtp.Ports.Histories.{IsSound, run, run-IsSound}
use tele_portal.Sip.Negotiation.{choose, negotiate_stream, nothing_yet}
use tele_portal.Sip.Offer.{
  MediaDescription, audio_media, get_dynamic_pt, get_remote_rtp_addr, has_format,
}
use tele_portal.Sip.Server.{
  Invite, Request, Server, SipConfig, ack, active_session, bye, drop_session, find_session,
  finished, handle_invite, invite, serve, serve_all, session_of, set_ready, update_session,
}
use tele_portal.Sip.Server.Drain.{AllStayUnready, drain, has}
use tele_portal.Sip.Server.Invites.{IsSettled}
use tele_portal.Sip.Server.Resources.{IsServer}
use tele_portal.Sip.Server.Safety.{AllOverUdp, serve_all-IsServer}
use tele_portal.Sip.Server.Settled.{handle_invite-IsSettled}
use tele_portal.Sip.Server.Waking.{drain-wakes}

abbrev fresh_ports : RtpManager
fresh_ports = record { ports = []; port_min = 20000; port_max = 20005; next_port = 20000 }

fresh_ports-new : new_rtp_manager 20000 20005 ≡ ok fresh_ports
unfolding new_rtp_manager
fresh_ports-new = refl

fresh_ports-IsSound : IsSound 20000 20005 fresh_ports
unfolding run
fresh_ports-IsSound = run-IsSound 20000 20005 fresh_ports [] (omega arith) fresh_ports-new

abbrev config : SipConfig
config = record { max_calls = 1; ws_codec = pass; has_publisher = true }

abbrev server : Server
server = record {
  is_ready = true;
  ports = fresh_ports;
  calls = new_call_manager;
  sessions = [];
  next_handle = 0;
  events = [];
}

server-IsServer : IsServer 20000 20005 server
unfolding IsMap
server-IsServer = record {
  ports_ok = record { sound = fresh_ports-IsSound; held = refl };
  calls_ok = record { entries = refl; is_map = tt; counted = refl };
}

abbrev audio : MediaDescription
audio = record {
  media = codes "audio";
  connection = some (codes "10.0.0.7");
  port = 4000;
  formats = codes "0" ∷ [];
  attributes = [];
}

abbrev request : Invite
request = record {
  call_id = codes "one";
  body = some (record { connection = none; media_descriptions = audio ∷ [] });
  resolves = true;
  creates_dialog = true;
  bind = λ p. true;
  is_udp = true;
  prints_answer = true;
  responds = true;
  uuid = codes "u1";
}

abbrev unanswered : Invite
unanswered = record request { call_id = codes "two"; responds = false }

-- The request of the example is answered with 200.
answered : (handle_invite config request server).1 ≡ some 200
unfolding handle_invite get lookup negotiate_stream audio_media same_text choose get_dynamic_pt
    nothing_yet has_format itoa new_codec_g711_mu_law get_remote_rtp_addr create_listener
    search_loop in_use
answered = refl

handle_invite-IsSettled_example :
    IsSettled 20000 20005 request server (handle_invite config request server)
handle_invite-IsSettled_example =
    handle_invite-IsSettled 20000 20005 config request server server-IsServer refl

abbrev day : List Request
day =
    invite unanswered
    ∷ invite request
    ∷ invite unanswered
    ∷ ack (codes "one")
    ∷ bye (codes "one")
    ∷ finished 1
    ∷ set_ready false
    ∷ []

day-AllOverUdp : AllOverUdp day
day-AllOverUdp = (refl, (refl, (refl, (tt, (tt, (tt, (tt, tt)))))))

serve_all-IsServer_example : IsServer 20000 20005 (serve_all config day server)
serve_all-IsServer_example =
    serve_all-IsServer 20000 20005 config day server day-AllOverUdp server-IsServer

-- A server with a call.
abbrev busy : Server
busy = (handle_invite config request server).0

busy-IsServer : IsServer 20000 20005 busy
busy-IsServer =
    (handle_invite-IsSettled 20000 20005 config request server server-IsServer refl).server

busy-waits : (drain 7 busy).1 ≡ false
unfolding drain handle_invite get lookup negotiate_stream audio_media same_text choose
    get_dynamic_pt nothing_yet has_format itoa new_codec_g711_mu_law get_remote_rtp_addr
    create_listener search_loop in_use add
busy-waits = refl

abbrev evening : List Request
evening = invite unanswered ∷ ack (codes "one") ∷ bye (codes "one") ∷ finished 0 ∷ []

evening-AllStayUnready : AllStayUnready evening
evening-AllStayUnready = (tt, (tt, (tt, (tt, tt))))

evening-AllOverUdp : AllOverUdp evening
evening-AllOverUdp = (refl, (tt, (tt, (tt, tt))))

evening-ends : (serve_all config evening (drain 7 busy).0).sessions ≡ []
unfolding serve_all drain handle_invite get lookup negotiate_stream audio_media same_text choose
    get_dynamic_pt nothing_yet has_format itoa new_codec_g711_mu_law get_remote_rtp_addr
    create_listener search_loop in_use serve find_session active_session add insert session_of
    update_session drop_session
evening-ends = refl

drain-wakes_example : has 7 (serve_all config evening (drain 7 busy).0).calls.closed ≡ true
drain-wakes_example =
    drain-wakes 20000 20005 7 config evening busy busy-IsServer busy-waits evening-AllStayUnready
      evening-AllOverUdp evening-ends
