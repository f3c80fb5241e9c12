-- ===== src/GitConfig.antt =====
-- plumbing/format/config: the options, sections and subsections of a configuration file.
pub mod Options
pub mod Laws
pub mod Sections
pub mod Config
pub mod Writes
