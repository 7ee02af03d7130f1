-- ===== src/Msg.antt =====
-- PTPWRd/dep/msg.c, one module for each group of messages. Every function takes the buffer last and
-- packing gives the buffer that it leaves; tracing is left out.
pub mod Header
pub mod Event
pub mod Peer
pub mod Announce
pub mod Signaling
pub mod RoundTrip
