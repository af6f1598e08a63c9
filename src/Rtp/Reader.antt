-- ===== src/Rtp/Reader.antt =====
-- internal/rtp/rtp_handler.go: the reader of RTP packets. What the socket and the library pion/rtp
-- give in a round of the loop is a parameter; times are in nanoseconds.
pub mod Digits
pub mod Buffers
pub mod Sent
use tele_portal.Common.{
  Bool, List, [], false, if◌then◌else◌, ltb, not, suc, true, ℕ, ◌&&◌, ◌++◌, ◌+◌, ◌==◌, ◌∷◌,
}
use tele_portal.Common.Result.{err, ok}
use tele_portal.Common.Text.{Text}
use tele_portal.Rtp.Dtmf.{DtmfEvent, parse_dtmf_payload}

-- What `parsePacket` has of a packet that it accepts.
pub record RtpFrame : Type 0 where
  pub payload_type : ℕ
  pub timestamp : ℕ
  pub payload : List ℕ

-- A round: the context is done, the read times out or fails, or it gives no byte, a malformed packet
-- or a packet, at a time.
pub data ReadResult : Type 0 where
  cancelled failed no_bytes : ReadResult
  timeout malformed : ℕ → ReadResult
  received : ℕ → RtpFrame → ReadResult

-- A call of `OnDTMF`.
pub record DtmfReport : Type 0 where
  pub digit : Text
  pub duration : ℕ
  pub end : Bool

-- The events and the packets that were handed on, in their order, and the buffers of the pool. The
-- callbacks are set, as `StartRTPHandlers` sets them.
pub record Reader : Type 0 where
  pub last_packet_time : ℕ
  pub last_dtmf_timestamp : ℕ
  pub reported : List DtmfReport
  pub pushed : List RtpFrame
  pub timed_out : Bool
  pub stopped : Bool
  pub taken : ℕ
  pub returned : ℕ

abbrev pub new_reader : ℕ → Reader
new_reader now = record {
  last_packet_time = now;
  last_dtmf_timestamp = 0;
  reported = [];
  pushed = [];
  timed_out = false;
  stopped = false;
  taken = 0;
  returned = 0;
}

abbrev pub report : DtmfEvent → Reader → Reader
report e r = record r {
  reported = r.reported ++ record { digit = e.digit; duration = e.duration; end = e.end } ∷ [];
}

-- The end of a digit is reported once for each timestamp that follows another.
unfoldable pub on_dtmf_event : DtmfEvent → ℕ → Reader → Reader
on_dtmf_event e timestamp r =
    if not e.end
    then report e r
    else if timestamp == r.last_dtmf_timestamp
    then r
    else report e (record r { last_dtmf_timestamp = timestamp })

unfoldable pub on_packet : ℕ → RtpFrame → Reader → Reader
unfolding parse_dtmf_payload on_dtmf_event
on_packet dtmf_payload_type p r =
    if not (dtmf_payload_type == 0) && p.payload_type == dtmf_payload_type
    then elim (parse_dtmf_payload p.payload) [ ok e ↦ on_dtmf_event e p.timestamp r | err n ↦ r ]
    else r

abbrev pub give_back : Reader → Reader
give_back r = record r { returned = suc r.returned }

abbrev pub push_frame : RtpFrame → Reader → Reader
push_frame p r = record r { pushed = r.pushed ++ p ∷ [] }

-- A round of the loop.
unfoldable pub read_round : ℕ → ReadResult → Reader → Reader
unfolding on_packet
read_round dtmf cancelled r = record (give_back r) { stopped = true }
read_round dtmf failed r = record (give_back r) { stopped = true }
read_round dtmf no_bytes r = give_back r
read_round dtmf (timeout now) r =
    if ltb (r.last_packet_time + 10000000000) now
    then record (give_back r) { timed_out = true; stopped = true }
    else give_back r
read_round dtmf (malformed now) r = record (give_back r) { last_packet_time = now }
read_round dtmf (received now p) r =
    push_frame p (on_packet dtmf p (record r { last_packet_time = now }))

-- `StartReader`, with what the rounds give; each round takes a buffer.
unfoldable pub read_all : ℕ → List ReadResult → Reader → Reader
unfolding read_round
read_all dtmf [] r = r
read_all dtmf (x ∷ xs) r =
    let next = read_round dtmf x (record r { taken = suc r.taken }) in
    let rest = read_all dtmf xs next in if r.stopped then r else rest
