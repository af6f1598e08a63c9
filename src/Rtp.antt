-- ===== src/Rtp.antt =====
-- internal/rtp: RTP ports, packets and DTMF.
pub mod Dtmf
pub mod Ports
pub mod Writer
pub mod Reader
