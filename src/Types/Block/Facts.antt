-- ===== src/Types/Block/Facts.antt =====
-- core/types/block.go: the cached hash of a block.
use ecgeth.Base.{◌≡◌, refl, none, some, arith, ◌⊎◌, inl, inr, Option-cases}
use ecgeth.Types.Block.{Hashing, Block, block_hash, header_hash}

module _ {Tx Receipt : Type 0} (k : Hashing Tx Receipt) where
  -- A block that holds its hash, if any, holds the hash of its header.
  abbrev pub IsCoherent : Block Tx → Type 0
  IsCoherent b = (b.hash_cache ≡ none) ⊎ (b.hash_cache ≡ some (header_hash k b.header))

  -- A block that holds the hash of its header, or none, gives that hash, keeps its header, and gives
  -- the same hash from then on.
  pub block_hash-IsCoherent :
      (b : Block Tx)
      → IsCoherent b
      → ((block_hash k b).0 ≡ header_hash k b.header)
        × IsCoherent (block_hash k b).1
        × ((block_hash k b).1.header ≡ b.header)
        × ((block_hash k (block_hash k b).1).0 ≡ (block_hash k b).0)
  unfolding block_hash
  block_hash-IsCoherent b h = ground arith

  -- `Hash` writes to the cache alone.
  pub block_hash-keeps :
      (b : Block Tx)
      → ((block_hash k b).1.header ≡ b.header) × ((block_hash k b).1.transactions ≡ b.transactions)
  unfolding block_hash
  block_hash-keeps b = elim (Option-cases b.hash_cache) [
    | inl empty ↦ rw empty (refl, refl)
    | inr (h, full) ↦ rw full (refl, refl)
  ]

  pub block_hash-again : (b : Block Tx) → (block_hash k (block_hash k b).1).0 ≡ (block_hash k b).0
  unfolding block_hash
  block_hash-again b = elim (Option-cases b.hash_cache) [
    | inl empty ↦ rw empty refl
    | inr (h, full) ↦ rw full refl
  ]
