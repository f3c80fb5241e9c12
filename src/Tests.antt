-- ===== src/Tests.antt =====
-- The theorems applied to concrete inputs, and runs of the definitions.
mod Wire
mod Deltas
mod Caches
mod Configs
mod Stores
mod References
mod Ignores
mod Capabilities
mod Histories
mod Modes
