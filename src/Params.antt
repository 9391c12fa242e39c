-- ===== src/Params.antt =====
-- params/config.go and params/ecponconfig.go: the chain configuration.
pub mod Config
pub mod Checkpoint
