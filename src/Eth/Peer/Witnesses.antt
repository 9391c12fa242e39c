-- ===== src/Eth/Peer/Witnesses.antt =====
-- eth/protocols/eth/peer.go: the theorems on the known hashes, with lists for sets.
use ecgeth.Base.{Hash, true, false, ◌≡◌, ℕ, ◌≤◌, max, List, [], ◌∷◌, All}
use ecgeth.Connector.Batcher.Example.{node, snapshot}
use ecgeth.Eth.Peer.{
  max_known_txs, PeerOp, marked, queued, announced, took_block, announced_hashes, after_ops,
}
use ecgeth.Eth.Peer.Example.{lists, lists-SetLaws}
use ecgeth.Eth.Peer.Transactions.{TxPeer, TxPeerOp, queues, transactions_msg, tx_peer_step}
use ecgeth.Eth.Peer.Transactions.Marked.{tx_peer_step-Contains}
use ecgeth.Eth.Peer.Known.{Contains, IsBounded, known_limit, after_ops-IsBounded}

-- A peer that was sent a transaction, whose hash it is; the queue takes two more.
abbrev told : TxPeer ℕ ℕ (List Hash)
told = record {
  known_txs = 9 ∷ [];
  known_blocks = [];
  messages = transactions_msg (9 ∷ []) ∷ [];
  tx_broadcast = [];
  tx_announce = [];
}

abbrev queueing : TxPeerOp ℕ ℕ
queueing = queues true (4 ∷ 5 ∷ [])

tx_peer_step-Contains_example :
    (true ≡ true
      → All
          (λ h.
            Contains lists lists-SetLaws
              (tx_peer_step node.hashing lists queueing told).known_txs
              h)
          (4 ∷ 5 ∷ [])
        × (lists.cardinality (tx_peer_step node.hashing lists queueing told).known_txs
            ≤ max max_known_txs 2))
    × (true ≡ false → tx_peer_step node.hashing lists queueing told ≡ told)
tx_peer_step-Contains_example = tx_peer_step-Contains node.hashing lists lists-SetLaws queueing told

abbrev some_ops : List (PeerOp ℕ)
some_ops =
    took_block
    ∷ announced snapshot
    ∷ queued snapshot 3
    ∷ marked 8
    ∷ announced_hashes (4 ∷ 5 ∷ [])
    ∷ []

after_ops-IsBounded_example :
    IsBounded lists lists-SetLaws node.hashing
      (known_limit lists lists-SetLaws node.hashing some_ops)
      (after_ops node.hashing lists some_ops)
after_ops-IsBounded_example = after_ops-IsBounded lists lists-SetLaws node.hashing some_ops
