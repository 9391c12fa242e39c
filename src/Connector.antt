-- ===== src/Connector.antt =====
-- ecconnector: the connector to the external consensus. `Rpc` is its REST client, `Batcher` builds
-- and stores blocks, `Api` and `Loop` are what the external consensus and the node call, and
-- `System` runs them together; `Service` is the RPC service of the node, and
-- `Stop` is the end of the batcher and of the connector.
pub mod Rpc
pub mod Batcher
pub mod Api
pub mod Loop
pub mod System
pub mod Service
pub mod Stop
