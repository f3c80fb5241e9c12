-- ===== src/RefSpec.antt =====
-- config/refspec.go: refspecs, which map the names of remote references to local ones.
pub mod Spec
pub mod Parts
pub mod Valid
pub mod Reverse
