-- ===== src/Eth/TxSync/Witnesses.antt =====
-- eth/sync.go: the theorem on the loop that syncs transactions, at a run of two packs.
use ecgeth.Base.{ℕ, ◌*◌, ◌≡◌, ◌≢◌, refl, true, false, none, some, [], ◌∷◌, ◌++◌}
use ecgeth.Base.Outcome.{ok, panics}
use ecgeth.Eth.TxSync.{TxSync, TxSyncLoop, set_at, sync_transactions, hands_over, send, arrive}
use ecgeth.Eth.TxSync.Run.{Run, start, TxSyncReach, here, next, arrives_idle}
use ecgeth.Eth.TxSync.Run.Sends.{rest_of}
use ecgeth.Eth.TxSync.Run.Delivered.{TxSyncReach-Delivered}

-- A transaction is its hash, and each fills a pack. Peer 7 speaks an old version.
abbrev sync : TxSync ℕ
sync = record { version = 64; txs = 3 ∷ 4 ∷ [] }

abbrev rest : TxSync ℕ
rest = record { version = 64; txs = 4 ∷ [] }

abbrev first_pack : TxSyncLoop ℕ
first_pack = record {
  pending = set_at 7 (some rest) (set_at 7 (some sync) (λ i. none));
  sending = true;
  pack_peer = 7;
  pack_txs = 3 ∷ [];
}

abbrev one_sent : Run ℕ
one_sent = record {
  loop = first_pack;
  queued = set_at 7 (3 ∷ 4 ∷ []) (λ i. []);
  sent = set_at 7 (3 ∷ []) (λ i. []);
  failed = set_at 7 false (λ i. false);
}

abbrev size : ℕ → ℕ
size tx = 200 * 1024

handed : sync_transactions (λ h. h) size 64 (3 ∷ 4 ∷ []) ≡ hands_over sync
unfolding sync_transactions
handed = refl

arrived : arrive (λ h. h) size 7 sync (start {Tx = ℕ}).loop ≡ ok first_pack
unfolding arrive
arrived = refl

run : TxSyncReach (λ h. h) size one_sent
run = next here (arrives_idle 7 64 (3 ∷ 4 ∷ []) sync first_pack refl handed arrived refl)

TxSyncReach-Delivered_example :
    ((i : ℕ)
      → one_sent.failed i ≡ false
      → one_sent.sent i ++ rest_of (λ h. h) size (first_pack.pending i) ≡ one_sent.queued i)
    × (true ≡ false → (i : ℕ) → one_sent.failed i ≡ false → one_sent.sent i ≡ one_sent.queued i)
    × ((i : ℕ) (x : TxSync ℕ)
        → first_pack.pending i ≡ some x
        → send (λ h. h) size i x first_pack ≢ panics)
TxSyncReach-Delivered_example = TxSyncReach-Delivered (λ h. h) size one_sent run
