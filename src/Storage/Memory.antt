-- ===== src/Storage/Memory.antt =====
-- storage/memory/storage.go. A Go map is the list of its values, each under the key that the value has; the
-- order in which a map is walked is the list's, and no theorem rests on it.
pub mod References
pub mod Objects
pub mod Cells
pub mod Whole
