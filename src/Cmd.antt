-- ===== src/Cmd.antt =====
-- cmd/utils/flags.go: the checks of the command line.
pub mod Flags
pub mod Config
