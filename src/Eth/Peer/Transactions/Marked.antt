-- ===== src/Eth/Peer/Transactions/Marked.antt =====
-- eth/protocols/eth/peer.go: what a send to a peer marks as known by it.
use ecgeth.Base.{◌≤◌, ◌≡◌, max, refl, Bool, true, false, List, map, Hash, length, All}
use ecgeth.Types.Block.{Hashing}
use ecgeth.Eth.Peer.{MapSet, SetLaws, max_known_txs}
use ecgeth.Eth.Peer.Known.{Contains, mark_all-Contains}
use ecgeth.Eth.Peer.Transactions.{
  mark_txs, TxPeer, TxPeerOp, sends, queues, announces, sends_hashes, sends_rlp, replies_rlp,
  tx_peer_step, send_transactions, async_send_transactions, send_pooled_transaction_hashes,
  async_send_pooled_transaction_hashes, send_pooled_transactions_rlp, reply_pooled_transactions_rlp,
}

module _ {Tx Receipt Raw S : Type 0} (k : Hashing Tx Receipt) (set : MapSet S)
    (laws : SetLaws set) where
  abbrev pub hashes_of : TxPeerOp Tx Raw → List Hash
  hashes_of (sends txs) = map k.transaction_hash txs
  hashes_of (queues taken hashes) = hashes
  hashes_of (announces taken hashes) = hashes
  hashes_of (sends_hashes hashes) = hashes
  hashes_of (sends_rlp hashes txs) = hashes
  hashes_of (replies_rlp id hashes txs) = hashes

  -- A queue may refuse the hashes, as the peer ends.
  abbrev pub goes_out : TxPeerOp Tx Raw → Bool
  goes_out (queues taken hashes) = taken
  goes_out (announces taken hashes) = taken
  goes_out _ = true

  -- Each way of sending transactions or their hashes to a peer, at once, through a queue or as a reply,
  -- leaves all that goes out marked as known by the peer, in a set of at most 32768 hashes, or as many
  -- as were sent if these are more. What a queue refuses changes nothing.
  pub tx_peer_step-Contains :
      (op : TxPeerOp Tx Raw) (p : TxPeer Tx Raw S)
      → (goes_out op ≡ true
          → All (λ h. Contains set laws (tx_peer_step k set op p).known_txs h) (hashes_of op)
            × (set.cardinality (tx_peer_step k set op p).known_txs
                ≤ max max_known_txs (length (hashes_of op))))
        × (goes_out op ≡ false → tx_peer_step k set op p ≡ p)
  unfolding mark_txs tx_peer_step send_transactions async_send_transactions
      send_pooled_transaction_hashes async_send_pooled_transaction_hashes
      send_pooled_transactions_rlp reply_pooled_transactions_rlp
  tx_peer_step-Contains (sends txs) p = (
    (λ e. mark_all-Contains set laws max_known_txs (map k.transaction_hash txs) p.known_txs),
    (λ e. absurd (cc e)),
  )
  tx_peer_step-Contains (queues true hashes) p =
      ((λ e. mark_all-Contains set laws max_known_txs hashes p.known_txs), (λ e. absurd (cc e)))
  tx_peer_step-Contains (queues false hashes) p = ((λ e. absurd (cc e)), (λ e. refl))
  tx_peer_step-Contains (announces true hashes) p =
      ((λ e. mark_all-Contains set laws max_known_txs hashes p.known_txs), (λ e. absurd (cc e)))
  tx_peer_step-Contains (announces false hashes) p = ((λ e. absurd (cc e)), (λ e. refl))
  tx_peer_step-Contains (sends_hashes hashes) p =
      ((λ e. mark_all-Contains set laws max_known_txs hashes p.known_txs), (λ e. absurd (cc e)))
  tx_peer_step-Contains (sends_rlp hashes txs) p =
      ((λ e. mark_all-Contains set laws max_known_txs hashes p.known_txs), (λ e. absurd (cc e)))
  tx_peer_step-Contains (replies_rlp id hashes txs) p =
      ((λ e. mark_all-Contains set laws max_known_txs hashes p.known_txs), (λ e. absurd (cc e)))
