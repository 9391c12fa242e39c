-- ===== src/Connector/Service.antt =====
-- eth/api_ecconnector.go: the RPC service `PublicEcConnectorAPI`, which the node offers on every chain.
-- Its methods are those of the connector, which is `nil` on a chain without an external consensus.
use ecgeth.Base.{ℕ, Option, none, some, String, Hash}
use ecgeth.Base.Outcome.{Outcome, ok, panics}
use ecgeth.Params.Config.{ChainConfig}
use ecgeth.Ecpon.Extra.{BlockProof, ExtraCodec}
use ecgeth.Connector.Batcher.{Node}
use ecgeth.Connector.Batcher.Work.{Backend}
use ecgeth.Connector.Api.{
  EcConnector, ApiError, api_build_block, api_seal_block, get_last_block_num,
}

-- `HeartBeat` reads nothing of its receiver, which may be `nil`.
abbrev pub heart_beat : String
heart_beat = "EcConnector HeartBeat"

module _ {C Tx Receipt State TxSet Log : Type 0} (node : Node Tx Receipt State TxSet Log)
    (backend : Backend C Tx Receipt State Log) (config : ChainConfig) where
  abbrev Connector : Type 0
  Connector = EcConnector C Tx Receipt State Log

  unfoldable pub serve_build_block : Option Connector → ℕ → Outcome ApiError (Hash × Connector)
  serve_build_block none current = panics
  serve_build_block (some s) current = api_build_block node backend config current s

  unfoldable pub serve_last_block_num : Option Connector → Outcome ApiError ℕ
  serve_last_block_num none = panics
  serve_last_block_num (some s) = ok (get_last_block_num node backend config s)

  unfoldable pub serve_seal_block :
      ExtraCodec
      → (String → Hash)
      → Option Connector
      → String
      → Option BlockProof
      → Outcome ApiError Connector
  serve_seal_block codec hex_to_hash none bhash proof = panics
  serve_seal_block codec hex_to_hash (some s) bhash proof =
      api_seal_block node backend config codec hex_to_hash bhash proof s
