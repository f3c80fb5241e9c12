-- ===== src/Storage/Transactional.antt =====
-- storage/transactional: a storage over a base and a temporal one.
pub mod References
pub mod Objects
pub mod Cells
pub mod Whole
