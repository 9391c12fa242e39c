-- ===== src/Ecpon/Engine/Service.antt =====
-- consensus/ecpon/ecponbada.go: `EcPonBada` as the node holds it, with the methods that the interface
-- of a consensus engine asks for beside those of the parent module, and the seal hash.
use ecgeth.Base.{
  ℕ, ◌+◌, ◌≡◌, ◌<◌, inl, inr, ap, Bool, Option, none, some, Hash, Address, Bytes, u64_mod,
}
use ecgeth.Params.Config.{ExternalConsensusConfig}
use ecgeth.Types.Header.{Header}
use ecgeth.Types.Block.{Block, big_uint64, get_header, with_seal}
use ecgeth.Ecpon.Rpc.{EcRpcCall}
use ecgeth.Ecpon.Engine.{Externals, EngineError, verify_header, unused_difficulty}
use ecgeth.Ecpon.Engine.Verify.{IsAccepted, IsSealed, verify_header_iff}

-- `Db` is `ethdb.Database`; the handler is `nil` until it is registered.
pub record EcPonBada (Db S E : Type 0) : Type 0 where
  pub config : ExternalConsensusConfig
  pub db : Db
  pub ec_rpc_call : Option (EcRpcCall S E)

module _ {Db S E : Type 0} where
  -- `New`
  unfoldable pub new_ec_pon_bada : ExternalConsensusConfig → Db → EcPonBada Db S E
  new_ec_pon_bada config db = record { config = config; db = db; ec_rpc_call = none }

  unfoldable pub set_ec_rpc_handler : EcRpcCall S E → EcPonBada Db S E → EcPonBada Db S E
  set_ec_rpc_handler handler c = record c { ec_rpc_call = some handler }

  -- `VerifyHeader`, which does not look at its flag `seal`.
  unfoldable pub engine_verify_header :
      {Tx Receipt : Type 0}
      → Externals Tx Receipt
      → EcPonBada Db S E
      → Bool
      → ℕ
      → Header
      → S
      → Option (EngineError E) × S
  engine_verify_header x c seal now h s = verify_header x c.ec_rpc_call now h s

  -- `Seal` and `CalcDifficulty` are not implemented yet.
  unfoldable pub engine_seal : {Tx : Type 0} → EcPonBada Db S E → Block Tx → Option (EngineError E)
  engine_seal c b = none

  unfoldable pub calc_difficulty : EcPonBada Db S E → ℕ → Header → ℕ
  calc_difficulty c time parent = unused_difficulty

  unfoldable pub close : EcPonBada Db S E → Option (EngineError E)
  close c = none

-- The list that `SealHash` encodes: all fields of a header but the mix digest and the nonce.
pub record SealContent : Type 0 where
  pub parent_hash : Hash
  pub uncle_hash : Hash
  pub coinbase : Address
  pub root : Hash
  pub tx_hash : Hash
  pub receipt_hash : Hash
  pub bloom : ℕ
  pub difficulty : Option ℕ
  pub number : Option ℕ
  pub gas_limit : ℕ
  pub gas_used : ℕ
  pub time : ℕ
  pub extra : Bytes

unfoldable pub seal_content : Header → SealContent
seal_content h = record {
  parent_hash = h.parent_hash;
  uncle_hash = h.uncle_hash;
  coinbase = h.coinbase;
  root = h.root;
  tx_hash = h.tx_hash;
  receipt_hash = h.receipt_hash;
  bloom = h.bloom;
  difficulty = h.difficulty;
  number = h.number;
  gas_limit = h.gas_limit;
  gas_used = h.gas_used;
  time = h.time;
  extra = h.extra;
}

-- `keccak` is Keccak-256 of the RLP encoding.
unfoldable pub seal_hash : (SealContent → Hash) → Header → Hash
unfolding seal_content
seal_hash keccak h = keccak (seal_content h)

module _ {Db Tx Receipt S E : Type 0} (x : Externals Tx Receipt) where
  -- A new engine, whose handler is not yet registered, accepts no header but one of block 0 (modulo
  -- 2^64).
  new_ec_pon_bada-verify :
      (config : ExternalConsensusConfig) (db : Db) (seal : Bool) (now : ℕ) (h : Header) (s : S)
      → now + 2 < u64_mod
      → (engine_verify_header x (new_ec_pon_bada {E = E} config db) seal now h s).0 ≡ none
      → big_uint64 h.number ≡ 0
  unfolding engine_verify_header new_ec_pon_bada
  new_ec_pon_bada-verify config db seal now h s small e =
      elim (IsAccepted.sealed ((verify_header_iff x none now h s small).0 e)) [
        | inl zero_number ↦ zero_number
        | inr sealed ↦ cc (IsSealed.connected sealed)
      ]

-- Where the hash is injective, the seal hash of a block is not kept by the seal of this engine, unless
-- it writes the extra data that the block has.
seal_hash-with_seal :
    {Tx : Type 0} (keccak : SealContent → Hash) (b : Block Tx) (bytes : Bytes)
    → ((c d : SealContent) → keccak c ≡ keccak d → c ≡ d)
    → seal_hash keccak (with_seal b (record (get_header b) { extra = bytes })).header
      ≡ seal_hash keccak b.header
    → bytes ≡ b.header.extra
unfolding seal_hash with_seal
seal_hash-with_seal keccak b bytes injective e = ap SealContent.extra (injective _ _ e)
