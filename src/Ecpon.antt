-- ===== src/Ecpon.antt =====
-- consensus/ecpon: the consensus engine that asks an external consensus about seals.
pub mod Extra
pub mod Rpc
pub mod Engine
mod Witnesses
