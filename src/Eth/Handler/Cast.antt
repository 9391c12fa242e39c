-- ===== src/Eth/Handler/Cast.antt =====
-- eth/handler.go: the broadcast of blocks and transactions. The peer set, of a file that is not here,
-- lists the peers to send to; the chain and the square root of a float come from outside too.
pub mod Listing
pub mod Mined
pub mod Transactions
use ecgeth.Base.{
  ℕ, zero, suc, ◌+◌, ◌-◌, ◌%◌, ◌==◌, Bool, true, false, Option, none, some, List, [], ◌∷◌, ◌++◌,
  Hash, take, drop, length, if◌then◌else◌, u64_mod,
}
use ecgeth.Types.Block.{Hashing, Block, block_hash, number_u64}
use ecgeth.Eth.Peer.{MapSet, Peer, async_send_new_block, async_send_new_block_hash}

-- The peers by their ids. A registered peer is one of the peer set.
abbrev pub Peers : Type 0 → Type 0 → Type 0
Peers Tx S = ℕ → Peer Tx S

-- `peersWithoutBlock` and `peersWithoutTransaction`, in the order of the slice; `GetBlock` at the
-- parent with `GetTd`, where `none` is a block that the chain does not have; `HasBlock`; and
-- `int(math.Sqrt(float64(n)))`.
pub record Surroundings (Tx S : Type 0) : Type 0 where
  pub peers_without_block : Hash → Peers Tx S → List ℕ
  pub peers_without_transaction : Hash → List ℕ
  pub td_of : Hash → ℕ → Option ℕ
  pub has_block : Hash → ℕ → Bool
  pub sqrt : ℕ → ℕ

-- `Difficulty`, which no block of the chain is without.
abbrev difficulty_of : Option ℕ → ℕ
difficulty_of none = 0
difficulty_of (some d) = d

module _ {Tx S : Type 0} where
  abbrev pub change_peer : (Peer Tx S → Peer Tx S) → ℕ → Peers Tx S → Peers Tx S
  change_peer f i ps j = if i == j then f (ps j) else ps j

  -- A loop over the peers of a list.
  unfoldable pub for_peers : (Peer Tx S → Peer Tx S) → List ℕ → Peers Tx S → Peers Tx S
  for_peers f [] ps = ps
  for_peers f (i ∷ is) ps = for_peers f is (change_peer f i ps)

module _ {Tx Receipt S : Type 0} (k : Hashing Tx Receipt) (set : MapSet S)
    (env : Surroundings Tx S) where
  -- The total difficulty with that of the parent, which has the number before on 64 bits.
  unfoldable pub propagated_td : Block Tx → Option ℕ
  unfolding number_u64
  propagated_td b = elim (env.td_of b.header.parent_hash ((number_u64 b + u64_mod - 1) % u64_mod)) [
    | none ↦ none
    | some td ↦ some (difficulty_of b.header.difficulty + td)
  ]

  abbrev pub send_to : Option ℕ → Block Tx → List ℕ → Peers Tx S → Peers Tx S
  send_to none b is ps = ps
  send_to (some td) b is ps = for_peers (async_send_new_block k set b td) is ps

  unfoldable pub broadcast_block_to_all : Block Tx → Peers Tx S → Peers Tx S
  unfolding propagated_td for_peers
  broadcast_block_to_all b ps =
      send_to (propagated_td b) b (env.peers_without_block (block_hash k b).0 ps) ps

  unfoldable pub broadcast_block : Block Tx → Bool → Peers Tx S → Peers Tx S
  unfolding propagated_td for_peers
  broadcast_block b true ps =
      let peers = env.peers_without_block (block_hash k b).0 ps in
      send_to (propagated_td b) b (take (env.sqrt (length peers)) peers) ps
  broadcast_block b false ps =
      let peers = env.peers_without_block (block_hash k b).0 ps in
      if env.has_block (block_hash k b).0 (number_u64 b)
      then for_peers (async_send_new_block_hash k set b) peers ps
      else ps

  -- The body of `minedBroadcastLoop`: the block first, then its announcement to the rest.
  unfoldable pub mined_broadcast : Block Tx → Peers Tx S → Peers Tx S
  unfolding broadcast_block
  mined_broadcast b ps = broadcast_block b false (broadcast_block b true ps)

  -- The hashes for each peer, `txset` or `annos`.
  abbrev pub Packs : Type 0
  Packs = ℕ → List Hash

  abbrev pub add_hash : Hash → List ℕ → Packs → Packs
  add_hash h [] packs = packs
  add_hash h (i ∷ is) packs = add_hash h is (λ j. if i == j then packs j ++ (h ∷ []) else packs j)

  -- The loop of `BroadcastTransactions` over the transactions: what is sent directly, and what is
  -- announced. No peer is told in the meantime.
  unfoldable pub sort_transactions : List Tx → Packs → Packs → Packs × Packs
  sort_transactions [] txset annos = (txset, annos)
  sort_transactions (tx ∷ txs) txset annos =
      let hash = k.transaction_hash tx in
      let peers = env.peers_without_transaction hash in
      let direct = env.sqrt (length peers) in
      sort_transactions txs (add_hash hash (take direct peers) txset)
        (add_hash hash (drop direct peers) annos)

  unfoldable pub broadcast_transactions : List Tx → Packs × Packs
  unfolding sort_transactions
  broadcast_transactions txs = sort_transactions txs (λ i. []) (λ i. [])
