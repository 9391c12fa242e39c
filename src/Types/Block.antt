-- ===== src/Types/Block.antt =====
-- core/types/block.go: `Body`, `Block` and its methods, over the hash functions of the packages rlp,
-- trie and core/types that block.go calls. The cache of the block's size and the two fields for the
-- relay between peers, `ReceivedAt` and `ReceivedFrom`, are left out: no operation here reads them.
pub mod Facts
use ecgeth.Base.{
  ℕ, ◌%◌, ◌==◌, ◌≡◌, Bool, ◌&&◌, Option, none, some, List, [], ◌∷◌, map, Hash, if◌then◌else◌,
  u64_mod,
}
use ecgeth.Types.Nonce
use ecgeth.Types.Header.{Header, copy_header}

-- What block.go calls and does not define: `rlpHash` at a header and at a list of headers,
-- `DeriveSha`, `CreateBloom`, `Transaction.Hash`, and the constant `EmptyRootHash`.
pub record Hashing (Tx Receipt : Type 0) : Type 0 where
  pub rlp_hash : Header → Hash
  pub rlp_hash_list : List Header → Hash
  pub derive_sha_txs : List Tx → Hash
  pub derive_sha_receipts : List Receipt → Hash
  pub create_bloom : List Receipt → ℕ
  pub transaction_hash : Tx → Hash
  pub empty_root_hash : Hash

pub record Body (Tx : Type 0) : Type 0 where
  pub transactions : List Tx
  pub uncles : List Header

pub record Block (Tx : Type 0) : Type 0 where
  pub header : Header
  pub uncles : List Header
  pub transactions : List Tx
  pub hash_cache : Option Hash
  pub td : Option ℕ

-- `Number.Uint64()`, the low 64 bits. Go panics where the number is `nil`, which no block has whose
-- header comes from `CopyHeader`.
abbrev pub big_uint64 : Option ℕ → ℕ
big_uint64 none = 0
big_uint64 (some n) = n % u64_mod

module _ {Tx : Type 0} where
  unfoldable pub number_u64 : Block Tx → ℕ
  number_u64 b = big_uint64 b.header.number

  unfoldable pub get_header : Block Tx → Header
  get_header b = copy_header b.header

  unfoldable pub body : Block Tx → Body Tx
  body b = record { transactions = b.transactions; uncles = b.uncles }

  unfoldable pub new_block_with_header : Header → Block Tx
  new_block_with_header h = record {
    header = copy_header h;
    uncles = [];
    transactions = [];
    hash_cache = none;
    td = none;
  }

  unfoldable pub with_seal : Block Tx → Header → Block Tx
  with_seal b h = record {
    header = h;
    uncles = b.uncles;
    transactions = b.transactions;
    hash_cache = none;
    td = none;
  }

  unfoldable pub with_body : Block Tx → List Tx → List Header → Block Tx
  with_body b txs uncles = record {
    header = copy_header b.header;
    uncles = map copy_header uncles;
    transactions = txs;
    hash_cache = none;
    td = none;
  }

module _ {Tx Receipt : Type 0} (k : Hashing Tx Receipt) where
  unfoldable pub header_hash : Header → Hash
  header_hash h = k.rlp_hash h

  unfoldable pub hash_for_ecpon : Header → Hash
  hash_for_ecpon h = k.rlp_hash (record (copy_header h) { extra = [] })

  pub empty_uncle_hash : Hash
  empty_uncle_hash = k.rlp_hash_list []

  unfoldable pub calc_uncle_hash : List Header → Hash
  unfolding empty_uncle_hash
  calc_uncle_hash [] = empty_uncle_hash
  calc_uncle_hash (u ∷ us) = k.rlp_hash_list (u ∷ us)

  unfoldable pub empty_body : Header → Bool
  unfolding empty_uncle_hash
  empty_body h = h.tx_hash == k.empty_root_hash && h.uncle_hash == empty_uncle_hash

  unfoldable pub empty_receipts : Header → Bool
  empty_receipts h = h.receipt_hash == k.empty_root_hash

  -- The root of the transactions in `NewBlock`.
  abbrev pub txs_root : List Tx → Hash
  txs_root [] = k.empty_root_hash
  txs_root (t ∷ ts) = k.derive_sha_txs (t ∷ ts)

  abbrev receipts_root : List Receipt → Hash
  receipts_root [] = k.empty_root_hash
  receipts_root (r ∷ rs) = k.derive_sha_receipts (r ∷ rs)

  -- With no receipt the bloom of the given header stays.
  abbrev receipts_bloom : Header → List Receipt → ℕ
  receipts_bloom h [] = h.bloom
  receipts_bloom h (r ∷ rs) = k.create_bloom (r ∷ rs)

  unfoldable pub new_block : Header → List Tx → List Header → List Receipt → Block Tx
  unfolding calc_uncle_hash
  new_block h txs uncles receipts = record {
    header = record (copy_header h) {
      tx_hash = txs_root txs;
      receipt_hash = receipts_root receipts;
      bloom = receipts_bloom h receipts;
      uncle_hash = calc_uncle_hash uncles;
    };
    uncles = map copy_header uncles;
    transactions = txs;
    hash_cache = none;
    td = some 0;
  }

  unfoldable pub transaction : Hash → List Tx → Option Tx
  transaction h [] = none
  transaction h (t ∷ ts) = if k.transaction_hash t == h then some t else transaction h ts

  -- `Hash` returns the hash and leaves it in the cache.
  unfoldable pub block_hash : Block Tx → Hash × Block Tx
  unfolding header_hash
  block_hash b = elim b.hash_cache [
    | some h ↦ (h, b)
    | none ↦ (header_hash b.header, record b { hash_cache = some (header_hash b.header) })
  ]
