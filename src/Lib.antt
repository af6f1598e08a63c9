-- ===== src/Lib.antt =====
-- TelePortal: a bridge between SIP calls and WebSocket clients. An INVITE is answered with a codec
-- out of its offer (internal/sip), an RTP port is allocated (internal/rtp), audio is converted and
-- packetized (internal/audio), and one WebSocket client listens to each call (internal/call), after a
-- check of its token (internal/api). A call can be recorded (internal/audio).
--
-- The files and the code they are about:
--   Common: lists, words, text, maps and other helpers; no code of its own
--   Audio.G711: internal/audio/g711.go; samples are 16-bit words, the sign in the highest bit
--   Audio.Codec: internal/audio/codec.go and encoder.go; a nil slice is `none`
--   Audio.Packetizer: internal/audio/packetizer.go; one round of the loop of `Run` is a step on the
--     ring (Buffer) and the output channel, and Shaper holds the specification
--   Audio.Jitter: internal/audio/pion_jitter_buffer.go; a buffer is a number, and what the library
--     pion/jitterbuffer returns is a parameter of each round
--   Audio.Recorder, Audio.Wav: internal/audio/recorder.go and wav_fast.go; the events of the loop of
--     `run` are a list, Channels and Tapes hold the specification, Files the whole file
--   Audio.Ogg: internal/audio/ogg_writer.go; Reader holds a reader of pages, the specification
--   Audio.Pool: pkg/audio/pool.go; a pool is the list of the capacities it holds
--   Rtp.Dtmf: internal/rtp/dtmf.go and dtmf_generator.go
--   Rtp.Ports: internal/rtp/rtp_manager.go; `net.ListenPacket` is a parameter
--   Rtp.Writer: `StartWriter` of internal/rtp/rtp_handler.go; a round of the loop is a step
--   Rtp.Reader: `StartReader` of the same file; what the socket gives in a round is a parameter
--   Sip.Offer, Sip.Negotiation: `negotiateStream` and `getRemoteRTPAddr` of
--     internal/sip/sip_handler.go; the parsed offer of pion/sdp is a record
--   Sip.Sdp: internal/sdp/sdp.go; Reading is what the functions of Sip.Offer see of an answer
--   Sip.Server: the handlers of internal/sip/sip_handler.go with `StartRTPHandlers`, `EndCall` and
--     `Shutdown` of internal/call/active_call.go; a request is a step on the ports, the stored calls
--     and the live calls (Sessions), and what a library answers is a field of the request; Drain is
--     `Drain` of internal/app/app.go
--   Call.Manager: internal/call/call_manager.go, cut into its atomic parts
--   Call.Bridge: the client slot of internal/call/audio_bridge.go, with the steps that
--     `HandleUpgrade` of internal/api/http_handler.go takes
--   Call.Processor: `runAudioProcessor`, `broadcast` and the binary messages of `ReadPump` in
--     internal/call/audio_bridge.go, with the pushes of internal/audio/recorder.go; a packet or a
--     message is a step, and buffers are counted where they are taken and put back
--   Call.Pump, Call.Incoming: `writePump` and the reading of a binary message in `ReadPump` of
--     internal/call/audio_bridge.go
--   Api: internal/api/http_handler.go; the claims of a token are a parameter
--   Webrtc: internal/webrtc/manager.go and codec.go, and `HandleWebRTCConnect` of
--     internal/api/http_handler.go; what the library pion answers is a field of a record
--   Client: `SendDTMF` of pkg/client/client.go; Client.Session: the other operations and the pumps
--   Tests: the theorems at concrete inputs
--
-- Bounds and fuel: widths are written out as remainders (16, 32 and 64 bits). The loop of the DTMF
-- generator runs on fuel: one round more than there are samples is enough where it ends at all, and
-- the writer hands its fuel on to the generator. The segments of an Ogg packet run on its length, and
-- a reader of pages on their number. The search for a port runs once over the even
-- ports, as in the source.
--
-- Not modelled: the contents of pooled buffers (elsewhere than in Audio.Pool and Call.Incoming the
-- calls of the pool are counted, or buffers are numbers), goroutines and their timing (orders of
-- events are sequences of steps; a SIP request is one step, so that no two INVITEs overlap: in the
-- source the capacity check, the look at the stored calls and the storing of a call are apart), the
-- wrap of an `int` for packet times near 2^63, logging and metrics other than the counters
-- named above, and the SIP, SDP, RTP, JWT, WebRTC and WebSocket libraries. The construction of
-- a call, the text messages of the bridge and of the client library, the packets of a WebRTC track,
-- the configuration, the start of the application and the load test are left out.
pub mod Common
pub mod Audio
pub mod Rtp
pub mod Client
pub mod Sip
pub mod Call
pub mod Api
pub mod Webrtc
pub mod Tests
