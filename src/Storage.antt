-- ===== src/Storage.antt =====
-- storage/memory and storage/transactional.
pub mod Storer
pub mod Memory
pub mod Transactional
