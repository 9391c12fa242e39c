-- ===== src/Eth/Peer/Transactions.antt =====
-- eth/protocols/eth/peer.go: the sends of transactions and of hashes, which mark what they send.
pub mod Marked
use ecgeth.Base.{
  ℕ, ◌-◌, Bool, true, false, List, [], ◌∷◌, ◌++◌, map, Hash, Bytes, length, if◌then◌else◌,
}
use ecgeth.Base.Outcome.{Outcome, ok, panics, ◌>>=◌}
use ecgeth.Types.Block.{Hashing}
use ecgeth.Eth.Peer.{MapSet, mark_all, max_known_txs, max_known_blocks}

-- What goes over the connection; `Raw` is the RLP of a transaction.
pub data PeerMessage (Tx Raw : Type 0) : Type 0 where
  transactions_msg : List Tx → PeerMessage Tx Raw
  new_pooled_transaction_hashes_msg : List Hash → PeerMessage Tx Raw
  pooled_transactions_msg : List Raw → PeerMessage Tx Raw
  pooled_transactions_reply : ℕ → List Raw → PeerMessage Tx Raw
  new_block_hashes_msg : List (Hash × ℕ) → PeerMessage Tx Raw

-- The part of `Peer` that these touch: both sets, the messages so far, and what the two queues of
-- transactions were given.
pub record TxPeer (Tx Raw S : Type 0) : Type 0 where
  pub known_txs : S
  pub known_blocks : S
  pub messages : List (PeerMessage Tx Raw)
  pub tx_broadcast : List (List Hash)
  pub tx_announce : List (List Hash)

-- The entries of `NewBlockHashesPacket`; where a number is missing the index panics.
abbrev pub numbered_hashes : List Hash → List ℕ → Outcome ⊥ (List (Hash × ℕ))
numbered_hashes [] numbers = ok []
numbered_hashes (h ∷ hs) [] = panics
numbered_hashes (h ∷ hs) (n ∷ numbers) = numbered_hashes hs numbers >>= λ rest. ok ((h, n) ∷ rest)

unfoldable pub mark_txs : {S : Type 0} → MapSet S → List Hash → S → S
unfolding mark_all
mark_txs set hashes s = mark_all set max_known_txs hashes s

module _ {Tx Receipt Raw S : Type 0} (k : Hashing Tx Receipt) (set : MapSet S) where
  abbrev deliver : PeerMessage Tx Raw → TxPeer Tx Raw S → TxPeer Tx Raw S
  deliver msg p = record p { messages = p.messages ++ (msg ∷ []) }

  unfoldable pub send_transactions : List Tx → TxPeer Tx Raw S → TxPeer Tx Raw S
  unfolding mark_txs
  send_transactions txs p =
      deliver (transactions_msg txs)
        (record p { known_txs = mark_txs set (map k.transaction_hash txs) p.known_txs })

  -- `taken` is whether the queue takes the hashes before the peer ends.
  unfoldable pub async_send_transactions : Bool → List Hash → TxPeer Tx Raw S → TxPeer Tx Raw S
  unfolding mark_txs
  async_send_transactions taken hashes p =
      let queued = record p {
        tx_broadcast = p.tx_broadcast ++ (hashes ∷ []);
        known_txs = mark_txs set hashes p.known_txs;
      } in
      if taken then queued else p

  unfoldable pub send_pooled_transaction_hashes : List Hash → TxPeer Tx Raw S → TxPeer Tx Raw S
  unfolding mark_txs
  send_pooled_transaction_hashes hashes p =
      deliver (new_pooled_transaction_hashes_msg hashes)
        (record p { known_txs = mark_txs set hashes p.known_txs })

  unfoldable pub async_send_pooled_transaction_hashes :
      Bool → List Hash → TxPeer Tx Raw S → TxPeer Tx Raw S
  unfolding mark_txs
  async_send_pooled_transaction_hashes taken hashes p =
      let queued = record p {
        tx_announce = p.tx_announce ++ (hashes ∷ []);
        known_txs = mark_txs set hashes p.known_txs;
      } in
      if taken then queued else p

  unfoldable pub send_pooled_transactions_rlp :
      List Hash → List Raw → TxPeer Tx Raw S → TxPeer Tx Raw S
  unfolding mark_txs
  send_pooled_transactions_rlp hashes txs p =
      deliver (pooled_transactions_msg txs)
        (record p { known_txs = mark_txs set hashes p.known_txs })

  unfoldable pub reply_pooled_transactions_rlp :
      ℕ → List Hash → List Raw → TxPeer Tx Raw S → TxPeer Tx Raw S
  unfolding mark_txs
  reply_pooled_transactions_rlp id hashes txs p =
      deliver (pooled_transactions_reply id txs)
        (record p { known_txs = mark_txs set hashes p.known_txs })

  unfoldable pub send_new_block_hashes :
      List Hash → List ℕ → TxPeer Tx Raw S → Outcome ⊥ (TxPeer Tx Raw S)
  unfolding mark_all
  send_new_block_hashes hashes numbers p =
      let marked = record p {
        known_blocks = mark_all set max_known_blocks hashes p.known_blocks;
      } in
      numbered_hashes hashes numbers >>= λ request.
      ok (deliver (new_block_hashes_msg request) marked)

-- The operations on the known transactions.
pub data TxPeerOp (Tx Raw : Type 0) : Type 0 where
  sends : List Tx → TxPeerOp Tx Raw
  queues announces : Bool → List Hash → TxPeerOp Tx Raw
  sends_hashes : List Hash → TxPeerOp Tx Raw
  sends_rlp : List Hash → List Raw → TxPeerOp Tx Raw
  replies_rlp : ℕ → List Hash → List Raw → TxPeerOp Tx Raw

module _ {Tx Receipt Raw S : Type 0} (k : Hashing Tx Receipt) (set : MapSet S) where
  unfoldable pub tx_peer_step : TxPeerOp Tx Raw → TxPeer Tx Raw S → TxPeer Tx Raw S
  unfolding send_transactions async_send_transactions send_pooled_transaction_hashes
      async_send_pooled_transaction_hashes send_pooled_transactions_rlp
      reply_pooled_transactions_rlp
  tx_peer_step (sends txs) p = send_transactions k set txs p
  tx_peer_step (queues taken hashes) p = async_send_transactions k set taken hashes p
  tx_peer_step (announces taken hashes) p =
      async_send_pooled_transaction_hashes k set taken hashes p
  tx_peer_step (sends_hashes hashes) p = send_pooled_transaction_hashes k set hashes p
  tx_peer_step (sends_rlp hashes txs) p = send_pooled_transactions_rlp k set hashes txs p
  tx_peer_step (replies_rlp id hashes txs) p = reply_pooled_transactions_rlp k set id hashes txs p
