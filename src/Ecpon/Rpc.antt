-- ===== src/Ecpon/Rpc.antt =====
-- consensus/ecpon/ecapi.go: the interface through which the engine asks the external consensus. The
-- implementation keeps a state of type `S` and answers `none` for success.
use ecgeth.Base.{ℕ, Option, Hash}
use ecgeth.Ecpon.Extra.{BlockProof}

pub record EcRpcCall (S E : Type 0) : Type 0 where
  pub send_verify_seal : ℕ → Hash → Option BlockProof → S → Option E × S
