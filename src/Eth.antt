-- ===== src/Eth.antt =====
-- eth: the peers of the node, and how it follows their chain.
pub mod Peer
pub mod Sync
pub mod TxSync
pub mod Filters
pub mod Handler
pub mod Backend
