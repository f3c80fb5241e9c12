-- ===== src/History.antt =====
-- plumbing/object: the iterators that walk the history of a commit, and merge bases.
pub mod Graph
pub mod Worklist
pub mod Bfs
pub mod Parents
pub mod All
pub mod Post
pub mod Pre
pub mod Filtered
pub mod Ancestor
pub mod MergeBase
