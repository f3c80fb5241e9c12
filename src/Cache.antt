-- ===== src/Cache.antt =====
-- plumbing/cache: the caches of objects and of buffers, which evict the least recently used values.
pub mod Lru
pub mod Lists
pub mod Evict
pub mod Refine
