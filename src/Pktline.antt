-- ===== src/Pktline.antt =====
-- plumbing/format/pktline: the length prefix, and the writer and the reader of packet lines.
pub mod Length
pub mod Write
pub mod Read
pub mod RoundTrip
pub mod Lines
pub mod Scanner
pub mod Frame
