-- ===== src/Eth/TxSync/Run.antt =====
-- eth/sync.go: the runs of `txsyncLoop64`, which send all that was queued for a peer, in order.
pub mod Sends
pub mod Kept
pub mod Delivered
use ecgeth.Base.{
  ℕ, ◌≡◌, Bool, true, false, Option, none, some, List, [], ◌∷◌, ◌++◌, Hash, if◌then◌else◌,
}
use ecgeth.Base.Outcome.{ok}
use ecgeth.Eth.TxSync.{
  TxSync, hands_over, TxSyncLoop, set_at, sync_transactions, send, arrive, pack_done, new_loop,
}

-- The loop, with what was queued last for each peer, what has been sent of it, in order, and whether
-- a send to the peer has failed since. These three are not in the program.
pub record Run (Tx : Type 0) : Type 0 where
  pub loop : TxSyncLoop Tx
  pub queued : ℕ → List Tx
  pub sent : ℕ → List Tx
  pub failed : ℕ → Bool

abbrev pub start : {Tx : Type 0} → Run Tx
start = record { loop = new_loop; queued = λ i. []; sent = λ i. []; failed = λ i. false }

module _ {Tx : Type 0} (hash_of : Tx → Hash) (size_of : Tx → ℕ) where
  -- The failure of the pack that is on its way.
  abbrev pub noted : Bool → Run Tx → ℕ → Bool
  noted fails s = if fails then set_at s.loop.pack_peer true s.failed else s.failed

  -- The loop is idle and sends at once, or it is busy; a pack is done, and another sync is picked, at
  -- random, or there is none.
  pub data TxSyncStep (s u : Run Tx) : Type 0 where
    arrives_idle :
        (i version : ℕ) (txs : List Tx) (x : TxSync Tx) (loop : TxSyncLoop Tx)
        → s.loop.sending ≡ false
        → sync_transactions hash_of size_of version txs ≡ hands_over x
        → arrive hash_of size_of i x s.loop ≡ ok loop
        → u ≡ record {
          loop = loop;
          queued = set_at i txs s.queued;
          sent = set_at i loop.pack_txs s.sent;
          failed = set_at i false s.failed;
        }
        → TxSyncStep s u
    arrives_busy :
        (i version : ℕ) (txs : List Tx) (x : TxSync Tx) (loop : TxSyncLoop Tx)
        → s.loop.sending ≡ true
        → sync_transactions hash_of size_of version txs ≡ hands_over x
        → arrive hash_of size_of i x s.loop ≡ ok loop
        → u ≡ record {
          loop = loop;
          queued = set_at i txs s.queued;
          sent = set_at i [] s.sent;
          failed = set_at i false s.failed;
        }
        → TxSyncStep s u
    picks :
        (fails : Bool) (i : ℕ) (x : TxSync Tx) (loop : TxSyncLoop Tx)
        → s.loop.sending ≡ true
        → (pack_done hash_of size_of fails s.loop).pending i ≡ some x
        → send hash_of size_of i x (pack_done hash_of size_of fails s.loop) ≡ ok loop
        → u ≡ record {
          loop = loop;
          queued = s.queued;
          sent = set_at i (s.sent i ++ loop.pack_txs) s.sent;
          failed = noted fails s;
        }
        → TxSyncStep s u
    rests :
        (fails : Bool)
        → s.loop.sending ≡ true
        → ((i : ℕ) → (pack_done hash_of size_of fails s.loop).pending i ≡ none)
        → u ≡ record s { loop = pack_done hash_of size_of fails s.loop; failed = noted fails s }
        → TxSyncStep s u

  pub data TxSyncReach : Run Tx → Type 0 where
    here : TxSyncReach start
    next : {s u : Run Tx} → TxSyncReach s → TxSyncStep s u → TxSyncReach u
