-- ===== src/Sip/Sdp.antt =====
-- internal/sdp/sdp.go: the SDP answer to an offer. The fields that vary, and the texts that stand
-- there, are kept; `Marshal` is the library pion/sdp.
pub mod Reading
pub mod Attributes
pub mod RoundTrip
pub mod Widths
pub mod Negotiated
use tele_portal.Audio.Codec.{Codec, CodecName, Stream, l16, opus, pass, pcma, pcmu, unnamed}
use tele_portal.Common.{List, [], if◌then◌else◌, ltb, ℕ, ◌++◌, ◌-◌, ◌==◌, ◌∷◌}
use tele_portal.Common.Text.{Text, codes, itoa}
use tele_portal.Rtp.Writer.{audio}
use tele_portal.Sip.Offer.{Attribute}

pub record Origin : Type 0 where
  pub username : Text
  pub session_id : ℕ
  pub session_version : ℕ
  pub network_type : Text
  pub address_type : Text
  pub unicast_address : Text

pub record ConnectionInformation : Type 0 where
  pub network_type : Text
  pub address_type : Text
  pub address : Text

pub record AnswerMedia : Type 0 where
  pub media : Text
  pub port : ℕ
  pub protos : List Text
  pub formats : List Text
  pub connection_information : ConnectionInformation
  pub attributes : List Attribute

pub record Answer : Type 0 where
  pub version : ℕ
  pub origin : Origin
  pub session_name : Text
  pub connection_information : ConnectionInformation
  pub start_time : ℕ
  pub stop_time : ℕ
  pub media_descriptions : List AnswerMedia

-- The text of a codec name.
unfoldable pub name_text : CodecName → Text
name_text pcmu = codes "PCMU"
name_text pcma = codes "PCMA"
name_text l16 = codes "L16"
name_text opus = codes "opus"
name_text pass = codes "PASS"
name_text unnamed = []

unfoldable pub answer_formats : Stream → List Text
unfolding itoa
answer_formats s =
    itoa s.codec.payload_type
    ∷ (if s.dtmf_payload_type == 0 then [] else itoa s.dtmf_payload_type ∷ [])

-- The value of the attribute `rtpmap` of the codec.
unfoldable pub rtpmap_value : Codec → Text
unfolding itoa name_text
rtpmap_value c =
    itoa c.payload_type
    ++ (b' '
        ∷ (name_text c.name
            ++ (b'/'
                ∷ (itoa c.sample_rate
                    ++ (if ltb 1 c.channels then b'/' ∷ itoa c.channels else [])))))

unfoldable pub answer_attributes : Stream → List Attribute
unfolding rtpmap_value itoa
answer_attributes s =
    record { key = codes "rtpmap"; value = rtpmap_value s.codec }
    ∷ record { key = codes "ptime"; value = itoa s.ptime }
    ∷ record { key = codes "sendrecv"; value = [] }
    ∷ (if s.dtmf_payload_type == 0
        then []
        else record {
          key = codes "rtpmap";
          value =
              itoa s.dtmf_payload_type ++ (codes " telephone-event/" ++ itoa s.codec.sample_rate);
        }
          ∷ record { key = codes "fmtp"; value = itoa s.dtmf_payload_type ++ codes " 0-16" }
          ∷ [])

abbrev pub connection_at : Text → ConnectionInformation
connection_at ip = record { network_type = codes "IN"; address_type = codes "IP4"; address = ip }

-- `session_id` is the time in nanoseconds, `ip` the text of the address.
unfoldable pub generate_answer : ℕ → Text → ℕ → Stream → Answer
unfolding answer_formats answer_attributes
generate_answer session_id ip port s = record {
  version = 0;
  origin = record {
    username = codes "-";
    session_id = session_id;
    session_version = session_id;
    network_type = codes "IN";
    address_type = codes "IP4";
    unicast_address = ip;
  };
  session_name = codes "TelePortal Session";
  connection_information = connection_at ip;
  start_time = 0;
  stop_time = 0;
  media_descriptions =
      record {
        media = codes "audio";
        port = port;
        protos = codes "RTP" ∷ codes "AVP" ∷ [];
        formats = answer_formats s;
        connection_information = connection_at ip;
        attributes = answer_attributes s;
      }
      ∷ [];
}
