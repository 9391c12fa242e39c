-- ===== src/Connector/Api/Witnesses.antt =====
-- ecconnector/api.go: the theorems on the API, at a concrete connector.
use ecgeth.Base.{ℕ, ◌≡◌, refl, none, some, [], ◌∷◌, String, Hash}
use ecgeth.Base.Outcome.{ok}
use ecgeth.Types.Block.{Block, block_hash, get_header, with_seal}
use ecgeth.Ecpon.Extra.{BlockProof, ExtraCodec}
use ecgeth.Ecpon.Engine.{seal_ecpon_bada}
use ecgeth.Connector.Rpc.{RpcError}
use ecgeth.Connector.Batcher.Build.{insert_block, located}
use ecgeth.Connector.Batcher.Example.{node, config, backend, batcher, snapshot}
use ecgeth.Connector.Api.{EcConnector, api_seal_block}
use ecgeth.Connector.Api.Seal.{Ends, api_seal_block_ok, api_seal_block_unstored}

-- A codec that writes every extra data as one byte.
abbrev codec : ExtraCodec
codec = record { encode = λ x. some (9 ∷ []); decode = λ bytes. none }

abbrev to_hash : String → Hash
to_hash text = 1000

abbrev proof : BlockProof
proof = record { pub_keys = []; checksum = []; r = 1 ∷ []; s = [] }

abbrev no_task : EcConnector ℕ ℕ ℕ ℕ ℕ
no_task = record { batcher = batcher; cblock = some snapshot; chain = 0; sent = [] }

abbrev ready : EcConnector ℕ ℕ ℕ ℕ ℕ
ready = record no_task {
  batcher = record batcher {
    pending_task = some (record { receipts = 3 ∷ []; state = 1; block = snapshot });
  };
}

hash_matches : (block_hash node.hashing snapshot).0 ≡ to_hash "0x"
unfolding block_hash
hash_matches = refl

api_seal_block_unstored_example :
    (s' : EcConnector ℕ ℕ ℕ ℕ ℕ) × (api_seal_block node backend config codec to_hash "0x"
        (some proof)
        no_task
      ≡ ok s')
    × (s'.chain ≡ 0)
    × (s'.sent ≡ [])
api_seal_block_unstored_example =
    api_seal_block_unstored node backend config codec to_hash "0x" proof snapshot (9 ∷ []) no_task
      refl hash_matches refl refl

abbrev sealed : Block ℕ
sealed =
    with_seal (block_hash node.hashing snapshot).1
      (record (get_header (block_hash node.hashing snapshot).1) { extra = 9 ∷ [] })

-- The connector that has stored the block.
abbrev stored : EcConnector ℕ ℕ ℕ ℕ ℕ
stored = record {
  batcher = record ready.batcher {
    pending_task = some (record { receipts = 3 ∷ []; state = 1; block = snapshot });
  };
  cblock = some (block_hash node.hashing snapshot).1;
  chain = 1;
  sent = sealed ∷ [];
}

stores : api_seal_block node backend config codec to_hash "0x" (some proof) ready ≡ ok stored
unfolding api_seal_block block_hash seal_ecpon_bada insert_block located
stores = refl

api_seal_block_ok_example :
    (block : Block ℕ) × (some snapshot ≡ some block)
    × ((block_hash node.hashing block).0 ≡ to_hash "0x")
    × ((sealed' : Block ℕ) × (seal_ecpon_bada {E = RpcError} codec
            (block_hash node.hashing block).1
            (some proof)
            none
          ≡ ok sealed')
        × Ends node backend config sealed' ready stored
        × (stored.cblock ≡ some (block_hash node.hashing block).1))
api_seal_block_ok_example =
    api_seal_block_ok node backend config codec to_hash "0x" (some proof) ready stored stores
