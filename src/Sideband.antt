-- ===== src/Sideband.antt =====
-- plumbing/protocol/packp/sideband: channels multiplexed over packet lines.
pub mod Mux
pub mod Demux
pub mod RoundTrip
pub mod Limits
