-- ===== src/Tests/Peers.antt =====
-- The theorems on WebRTC calls at concrete inputs.
use tele_portal.Audio.G711.Tables.{Tables}
use tele_portal.Call.Manager.{add, get, new_call_manager}
use tele_portal.Call.Processor.{RtpPacket}
use tele_portal.Call.Processor.Delivery.{process_all}
use tele_portal.Common.{Bool, List, [], false, none, refl, some, take, true, ◌∷◌, ◌≡◌, ◌⊎◌}
use tele_portal.Common.Maps.{insert, lookup}
use tele_portal.Common.Text.{codes}
use tele_portal.Webrtc.{
  ConnectRequest, Libraries, Rtc, awaiting_client, connect_failed, handle_webrtc_connect,
  webrtc_call,
}
use tele_portal.Webrtc.Codecs.{
  bridge_media-heard, joined, l16_messages, metadata_message, names_l16,
}
use tele_portal.Webrtc.Outbound.{
  accepted_payloads, handle_outbound_audio, handle_outbound_audio-numbered, numbered,
}
use tele_portal.Webrtc.Signaling.{completes, handle_webrtc_connect-stored, reaches_call}

abbrev nobody : Rtc
nobody = record { manager = new_call_manager; peers = []; loops = [] }

abbrev request : ConnectRequest
request = record {
  secret = [];
  claims = none;
  upgrades = true;
  has_manager = true;
  reads_offer = true;
}

-- The offer is refused by the peer connection.
abbrev bad_offer : Libraries
bad_offer = record {
  has_publisher = true;
  marshals = true;
  publishes = true;
  parses_id = true;
  connects = true;
  makes_track = true;
  adds_track = true;
  sets_remote = false;
  creates_answer = true;
  sets_local = true;
}

abbrev good_offer : Libraries
good_offer = record bad_offer { sets_remote = true }

handle_webrtc_connect-stored_example :
    let end = handle_webrtc_connect request bad_offer (codes "c") (codes "i") nobody in
    ((reaches_call request bad_offer ≡ true)
      × (end.1.manager ≡ add (webrtc_call (codes "c") (codes "i")) new_call_manager)
      × (end.1.loops ≡ codes "c" ∷ [])
      × (((completes bad_offer ≡ true) × (end.0 ≡ awaiting_client) × (end.1.peers ≡ codes "c" ∷ []))
          ⊎ ((completes bad_offer ≡ false) × (end.0 ≡ connect_failed))))
    ⊎ ((reaches_call request bad_offer ≡ false) × (¬ (end.0 ≡ awaiting_client)) × (end.1 ≡ nobody))
handle_webrtc_connect-stored_example =
    handle_webrtc_connect-stored request bad_offer (codes "c") (codes "i") nobody

-- The call of a refused offer is still there.
left_behind :
    get
      (codes "c")
      (handle_webrtc_connect request bad_offer (codes "c") (codes "i") nobody).1.manager
    ≡ some (webrtc_call (codes "c") (codes "i"))
unfolding get lookup handle_webrtc_connect add insert
left_behind = refl

handle_outbound_audio-numbered_example :
    handle_outbound_audio
      (record { track_type = 112; track_clock = 16000 })
      65535
      4294967295
      ((1 ∷ [], true) ∷ (2 ∷ [], true) ∷ (3 ∷ [], false) ∷ (4 ∷ [], true) ∷ [])
    ≡ numbered
        (record { track_type = 112; track_clock = 16000 })
        65535
        4294967295
        0
        (accepted_payloads
          ((1 ∷ [], true) ∷ (2 ∷ [], true) ∷ (3 ∷ [], false) ∷ (4 ∷ [], true) ∷ []))
handle_outbound_audio-numbered_example =
    handle_outbound_audio-numbered (record { track_type = 112; track_clock = 16000 }) 65535
      4294967295 ((1 ∷ [], true) ∷ (2 ∷ [], true) ∷ (3 ∷ [], false) ∷ (4 ∷ [], true) ∷ [])

abbrev silent_tables : Tables
silent_tables = record {
  initialized = false;
  mu_law_to_pcm = λ n. 0;
  a_law_to_pcm = λ n. 0;
  pcm_to_mu_law = λ n. 0;
  pcm_to_a_law = λ n. 0;
}

abbrev opus_packets : List (Bool × RtpPacket)
opus_packets =
    (true, record { payload = some (7 ∷ 8 ∷ []); payload_type = some 111 })
    ∷ (false, record { payload = none; payload_type = none })
    ∷ []

bridge_media-heard_example :
    ((names_l16 (codes "m=audio 9 RTP/AVP 111") ≡ true)
      × ((process_all silent_tables opus_packets
            (joined (codes "{}") (codes "m=audio 9 RTP/AVP 111"))).send
          ≡ take 200 (metadata_message (codes "{}") ∷ l16_messages opus_packets)))
    ⊎ ((names_l16 (codes "m=audio 9 RTP/AVP 111") ≡ false)
        × ((process_all silent_tables opus_packets
              (joined (codes "{}") (codes "m=audio 9 RTP/AVP 111"))).send
            ≡ metadata_message (codes "{}") ∷ []))
bridge_media-heard_example =
    bridge_media-heard silent_tables opus_packets (codes "{}") (codes "m=audio 9 RTP/AVP 111")
