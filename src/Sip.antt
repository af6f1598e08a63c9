-- ===== src/Sip.antt =====
-- internal/sip: the SIP request handler.
pub mod Offer
pub mod Sdp
pub mod Negotiation
pub mod Server
