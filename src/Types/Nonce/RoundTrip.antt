-- ===== src/Types/Nonce/RoundTrip.antt =====
-- core/types/block.go: `EncodeNonce` and `BlockNonce.Uint64` are inverse.
use ecgeth.Base.{ℕ, ◌<◌, ◌≡◌, arith, u64_mod}
use ecgeth.Types.Nonce.{BlockNonce, encode_nonce, uint64}

-- Every 64-bit number is read back from its nonce.
pub uint64-encode_nonce : (i : ℕ) → i < u64_mod → uint64 (encode_nonce i) ≡ i
unfolding uint64 encode_nonce
uint64-encode_nonce i h = omega arith

-- The parts of the nonce are bytes.
pub record IsBytes (n : BlockNonce) : Type 0 where
  pub lt0 : n.b0 < 256
  pub lt1 : n.b1 < 256
  pub lt2 : n.b2 < 256
  pub lt3 : n.b3 < 256
  pub lt4 : n.b4 < 256
  pub lt5 : n.b5 < 256
  pub lt6 : n.b6 < 256
  pub lt7 : n.b7 < 256

-- Every nonce of eight bytes is that of the number which is read from it.
pub encode_nonce-uint64 : (n : BlockNonce) → IsBytes n → encode_nonce (uint64 n) ≡ n
unfolding uint64 encode_nonce
encode_nonce-uint64 n h = ground arith
