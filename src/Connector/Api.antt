-- ===== src/Connector/Api.antt =====
-- ecconnector/api.go: what the external consensus calls of the connector.
pub mod Seal
pub mod Candidate
mod Witnesses
use ecgeth.Base.{
  ℕ, ◌≡◌, Bool, true, false, not, Option, none, some, List, [], ◌∷◌, ◌++◌, String, Hash, ltb, ◌==◌,
  if◌then◌else◌,
}
use ecgeth.Base.Outcome.{Outcome, ok, err, panics}
use ecgeth.Params.Config.{ChainConfig}
use ecgeth.Types.Block.{Block, block_hash, number_u64}
use ecgeth.Ecpon.Extra.{BlockProof, ExtraCodec}
use ecgeth.Ecpon.Engine.{EngineError, seal_ecpon_bada}
use ecgeth.Connector.Rpc.{RpcError}
use ecgeth.Connector.Batcher.{Node}
use ecgeth.Connector.Batcher.Work.{EcBatcher, Backend, WorkError}
use ecgeth.Connector.Batcher.Build.{build_block, insert_block}

-- `EcConnector` as far as the API reads and writes it, with the chain and the blocks that
-- `BroadcastBlockToAll` was given.
pub record EcConnector (C Tx Receipt State Log : Type 0) : Type 0 where
  pub batcher : EcBatcher Tx Receipt State Log
  pub cblock : Option (Block Tx)
  pub chain : C
  pub sent : List (Block Tx)

pub data ApiError : Type 0 where
  behind_chain future_block : ℕ → ApiError
  not_built : WorkError → ApiError
  no_candidate no_such_block : ApiError
  not_sealed : EngineError RpcError → ApiError

module _ {C Tx Receipt State TxSet Log : Type 0} (node : Node Tx Receipt State TxSet Log)
    (backend : Backend C Tx Receipt State Log) (config : ChainConfig) where
  abbrev pub Connector : Type 0
  Connector = EcConnector C Tx Receipt State Log

  -- The end of `BuildBlock`; the text of the hash that it returns is that of `Hash.Hex`.
  unfoldable pub keep_candidate :
      Connector
      → Outcome WorkError (Block Tx × EcBatcher Tx Receipt State Log)
      → Outcome ApiError (Hash × Connector)
  keep_candidate s (ok (block, b)) =
      (let (hash, block') = block_hash node.hashing block in
        ok (hash, record s { batcher = b; cblock = some block' }))
  keep_candidate s (err e) = err (not_built e)
  keep_candidate s panics = panics

  unfoldable pub api_build_block : ℕ → Connector → Outcome ApiError (Hash × Connector)
  unfolding keep_candidate
  api_build_block current s =
      let number = number_u64 (backend.current_block s.chain) in
      let built = keep_candidate s (build_block node backend config current s.chain s.batcher) in
      if ltb current number
      then err (behind_chain number)
      else if ltb number current
      then err (future_block number)
      else built

  -- The rest of `SealBlock` behind `insertBlock`. Its failure returns `err`, which is `nil` there.
  unfoldable pub after_insert :
      Connector
      → Block Tx
      → Option WorkError × C × EcBatcher Tx Receipt State Log
      → Outcome ApiError Connector
  after_insert s sealed (none, c, b) =
      ok (record s { batcher = b; chain = c; sent = s.sent ++ sealed ∷ [] })
  after_insert s sealed (some e, c, b) = ok (record s { batcher = b; chain = c })

  pub get_last_block_num : Connector → ℕ
  get_last_block_num s = number_u64 (backend.current_block s.chain)

  unfoldable pub after_seal :
      Connector → Outcome (EngineError RpcError) (Block Tx) → Outcome ApiError Connector
  unfolding after_insert
  after_seal s (ok sealed) =
      after_insert s sealed (insert_block node backend config sealed s.chain s.batcher)
  after_seal s (err e) = err (not_sealed e)
  after_seal s panics = panics

  module _ (codec : ExtraCodec) (hex_to_hash : String → Hash) where
    unfoldable pub seal_candidate :
        String → Option BlockProof → Option (Block Tx) → Connector → Outcome ApiError Connector
    unfolding after_seal
    seal_candidate bhash proof none s = err no_candidate
    seal_candidate bhash proof (some block) s =
        let (hash, block') = block_hash node.hashing block in
        let rest =
          after_seal (record s { cblock = some block' })
            (seal_ecpon_bada codec block' proof none) in
        if not (hash == hex_to_hash bhash) then err no_such_block else rest

    -- `SealBlock`; the block number of the caller is only logged.
    unfoldable pub api_seal_block :
        String → Option BlockProof → Connector → Outcome ApiError Connector
    unfolding seal_candidate
    api_seal_block bhash proof s = seal_candidate bhash proof s.cblock s
