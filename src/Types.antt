-- ===== src/Types.antt =====
-- core/types/block.go: block nonces, headers and blocks.
pub mod Nonce
pub mod Header
pub mod Block
