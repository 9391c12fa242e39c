-- ===== src/Params/Checkpoint.antt =====
-- params/config.go: `TrustedCheckpoint`, which a light client or a fast sync starts from.
use ecgeth.Base.{ℕ, ◌==◌, Bool, ◌||◌, [], ◌∷◌, ◌++◌, Hash, Bytes, if◌then◌else◌}
use ecgeth.Types.Nonce.{BlockNonce, encode_nonce}

pub record TrustedCheckpoint : Type 0 where
  pub section_index : ℕ
  pub section_head : Hash
  pub cht_root : Hash
  pub bloom_root : Hash

-- `PutUint64` of `binary.BigEndian`, as for a nonce.
abbrev big_endian : BlockNonce → Bytes
big_endian n = n.b0 ∷ n.b1 ∷ n.b2 ∷ n.b3 ∷ n.b4 ∷ n.b5 ∷ n.b6 ∷ n.b7 ∷ []

unfoldable pub is_empty_checkpoint : TrustedCheckpoint → Bool
is_empty_checkpoint c = c.section_head == 0 || (c.cht_root == 0 || c.bloom_root == 0)

-- The hash function of the package sha3 and the 32 bytes of a hash.
module _ (keccak : Bytes → Hash) (bytes_of : Hash → Bytes) where
  unfoldable pub checkpoint_hash_of : TrustedCheckpoint → Hash
  checkpoint_hash_of c = keccak (
      big_endian (encode_nonce c.section_index)
      ++ bytes_of c.section_head
      ++ bytes_of c.cht_root
      ++ bytes_of c.bloom_root)

  unfoldable pub hash_equal : TrustedCheckpoint → Hash → Bool
  unfolding checkpoint_hash_of is_empty_checkpoint
  hash_equal c hash = if is_empty_checkpoint c then hash == 0 else checkpoint_hash_of c == hash
