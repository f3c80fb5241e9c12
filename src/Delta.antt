-- ===== src/Delta.antt =====
-- plumbing/format/packfile: deltas, which rebuild a target from a source by copies and inserts.
pub mod Size
pub mod Copy
pub mod Patch
pub mod Ops
pub mod Diff
pub mod Hash
pub mod Index
pub mod RoundTrip
pub mod CopyRoundTrip
