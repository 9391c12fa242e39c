-- ===== src/Eth/Peer.antt =====
-- eth/protocols/eth/peer.go: what the node remembers of a peer's knowledge, and the queues of blocks
-- for it. A send over the network is left out; the set is that of the package mapset.
pub mod Known
pub mod Transactions
pub mod Requests
pub mod Example
mod Witnesses
use ecgeth.Base.{
  ℕ, zero, suc, ◌+◌, ◌-◌, ◌≡◌, ◌≤◌, Bool, true, false, List, [], ◌∷◌, ◌++◌, Hash, length, drop, ltb,
  if◌then◌else◌,
}
use ecgeth.Types.Block.{Hashing, Block, block_hash}

-- `mapset.Set` at hashes, with a state of type `S`. `Pop` takes some element away.
pub record MapSet (S : Type 0) : Type 0 where
  pub empty : S
  pub cardinality : S → ℕ
  pub contains : Hash → S → Bool
  pub add : Hash → S → S
  pub pop : S → S

-- What mapset documents of it.
pub record SetLaws {S : Type 0} (set : MapSet S) : Type 0 where
  pub empty_cardinality : set.cardinality set.empty ≡ 0
  pub add_at_most : (h : Hash) (s : S) → set.cardinality (set.add h s) ≤ set.cardinality s + 1
  pub pop_one : (s : S) → set.cardinality (set.pop s) ≡ set.cardinality s - 1
  pub contains_added : (h : Hash) (s : S) → set.contains h (set.add h s) ≡ true
  pub keeps_others :
      (h j : Hash) (s : S) → set.contains j s ≡ true → set.contains j (set.add h s) ≡ true

abbrev pub max_known_txs : ℕ
max_known_txs = 32768

abbrev pub max_known_blocks : ℕ
max_known_blocks = 1024

abbrev pub max_queued_blocks : ℕ
max_queued_blocks = 10

abbrev pub max_queued_block_anns : ℕ
max_queued_block_anns = 10

module _ {S : Type 0} (set : MapSet S) where
  -- `for Cardinality() > bound { Pop() }`
  unfoldable pub evict : ℕ → ℕ → S → S
  evict zero bound s = s
  evict (suc fuel) bound s =
      let rest = evict fuel bound (set.pop s) in if ltb bound (set.cardinality s) then rest else s

  -- Each round takes an element away, so that there are at most as many rounds as elements.
  unfoldable pub evict_to : ℕ → S → S
  evict_to bound s = evict (set.cardinality s) bound s

  unfoldable pub add_all : List Hash → S → S
  add_all [] s = s
  add_all (h ∷ hs) s = add_all hs (set.add h s)

  -- The marking of several hashes, as in `SendTransactions`. `max(0, limit-len)` is the subtraction
  -- of natural numbers.
  unfoldable pub mark_all : ℕ → List Hash → S → S
  unfolding evict_to
  mark_all limit hashes s = add_all hashes (evict_to (limit - length hashes) s)

  -- The marking of one hash, as in `markBlock`: `>= limit` is `> limit - 1`, as no limit is 0.
  unfoldable pub mark_one : ℕ → Hash → S → S
  unfolding evict_to
  mark_one limit h s = set.add h (evict_to (limit - 1) s)

  -- A transaction's hash that arrives.
  unfoldable pub mark_transaction : Hash → S → S
  unfolding mark_one
  mark_transaction = mark_one max_known_txs

  unfoldable pub mark_block : Hash → S → S
  unfolding mark_one
  mark_block = mark_one max_known_blocks

-- What happens to a peer, as far as blocks go: the calls of the node, and a broadcaster that takes the
-- first block of a queue.
pub data PeerOp (Tx : Type 0) : Type 0 where
  marked : Hash → PeerOp Tx
  announced_hashes : List Hash → PeerOp Tx
  queued : Block Tx → ℕ → PeerOp Tx
  announced sent : Block Tx → PeerOp Tx
  took_block took_ann : PeerOp Tx

-- The part of `Peer` that the operations on blocks touch; a channel is the list of what it holds.
pub record Peer (Tx S : Type 0) : Type 0 where
  pub known_blocks : S
  pub queued_blocks : List (Block Tx × ℕ)
  pub queued_block_anns : List (Block Tx)

module _ {Tx Receipt S : Type 0} (k : Hashing Tx Receipt) (set : MapSet S) where
  unfoldable pub new_peer : Peer Tx S
  new_peer = record { known_blocks = set.empty; queued_blocks = []; queued_block_anns = [] }

  -- A full channel drops the block, which is not marked then.
  unfoldable pub async_send_new_block : Block Tx → ℕ → Peer Tx S → Peer Tx S
  unfolding mark_block
  async_send_new_block b td p =
      let queued = record p {
        queued_blocks = p.queued_blocks ++ (b, td) ∷ [];
        known_blocks = mark_block set (block_hash k b).0 p.known_blocks;
      } in
      if ltb (length p.queued_blocks) max_queued_blocks then queued else p

  unfoldable pub async_send_new_block_hash : Block Tx → Peer Tx S → Peer Tx S
  unfolding mark_block
  async_send_new_block_hash b p =
      let queued = record p {
        queued_block_anns = p.queued_block_anns ++ b ∷ [];
        known_blocks = mark_block set (block_hash k b).0 p.known_blocks;
      } in
      if ltb (length p.queued_block_anns) max_queued_block_anns then queued else p

  unfoldable pub send_new_block : Block Tx → Peer Tx S → Peer Tx S
  unfolding mark_block
  send_new_block b p = record p { known_blocks = mark_block set (block_hash k b).0 p.known_blocks }

  -- The marking by `SendNewBlockHashes`, which comes before the rest of it.
  unfoldable pub mark_announced : List Hash → Peer Tx S → Peer Tx S
  unfolding mark_all
  mark_announced hashes p = record p {
    known_blocks = mark_all set max_known_blocks hashes p.known_blocks;
  }

  unfoldable pub peer_step : PeerOp Tx → Peer Tx S → Peer Tx S
  unfolding async_send_new_block async_send_new_block_hash send_new_block mark_announced
  peer_step (marked h) p = record p { known_blocks = mark_block set h p.known_blocks }
  peer_step (announced_hashes hs) p = mark_announced hs p
  peer_step (queued b td) p = async_send_new_block b td p
  peer_step (announced b) p = async_send_new_block_hash b p
  peer_step (sent b) p = send_new_block b p
  peer_step took_block p = record p { queued_blocks = drop 1 p.queued_blocks }
  peer_step took_ann p = record p { queued_block_anns = drop 1 p.queued_block_anns }

  -- A peer after some operations, the latest first.
  unfoldable pub after_ops : List (PeerOp Tx) → Peer Tx S
  unfolding new_peer
  after_ops [] = new_peer
  after_ops (op ∷ ops) = peer_step op (after_ops ops)
