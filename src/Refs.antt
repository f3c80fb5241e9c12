-- ===== src/Refs.antt =====
-- plumbing/reference.go and plumbing/storer/reference.go: references, iterators over them, and the storers
-- that hold them.
pub mod Reference
pub mod Iter
pub mod Filter
pub mod Storer
pub mod ObjectStorer
pub mod CopyObjects
pub mod Cells
pub mod Resolve
