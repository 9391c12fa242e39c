-- ===== src/Eth/TxSync/Run/Delivered.antt =====
-- eth/sync.go: what holds in all runs of `txsyncLoop64`.
use ecgeth.Base.{
  if_true, if_false, ℕ, ◌≡◌, ◌≢◌, refl, sym, ap, ◌∙◌, subst, ==_refl, true, false, some, [], ◌++◌,
  append-nil, Hash,
}
use ecgeth.Base.Outcome.{ok, panics}
use ecgeth.Eth.TxSync.{TxSync, TxSyncLoop, set_at, send, arrive, pack_done}
use ecgeth.Eth.TxSync.Run.{
  Run, noted, TxSyncStep, arrives_idle, arrives_busy, picks, rests, TxSyncReach, here, next,
}
use ecgeth.Eth.TxSync.Run.Sends.{rest_of, sync_transactions-old, send-Sent, loop_in}
use ecgeth.Eth.TxSync.Run.Kept.{
  IsKept, young_enough, at_hit, at_miss, send-IsKept, pack_done-Kept, pack_done-old, queue-IsKept,
}

module _ {Tx : Type 0} (hash_of : Tx → Hash) (size_of : Tx → ℕ) where
  arrive-idle :
      (i : ℕ) (x : TxSync Tx) (l loop : TxSyncLoop Tx)
      → l.sending ≡ false
      → arrive hash_of size_of i x l ≡ ok loop
      → send hash_of size_of i x (record l { pending = set_at i (some x) l.pending }) ≡ ok loop
  unfolding arrive
  arrive-idle i x l loop idle e = sym (if_false _ _ l.sending idle) ∙ e

  arrive-busy :
      (i : ℕ) (x : TxSync Tx) (l loop : TxSyncLoop Tx)
      → l.sending ≡ true
      → arrive hash_of size_of i x l ≡ ok loop
      → record l { pending = set_at i (some x) l.pending } ≡ loop
  unfolding arrive
  arrive-busy i x l loop busy e =
      ap (loop_in hash_of size_of l) (sym (if_true _ _ l.sending busy) ∙ e)

  TxSyncStep-IsKept :
      (s u : Run Tx)
      → IsKept hash_of size_of s
      → TxSyncStep hash_of size_of s u
      → IsKept hash_of size_of u
  TxSyncStep-IsKept s u k (arrives_idle i version txs x loop is_idle handed arrived e) =
      let old = sync_transactions-old hash_of size_of version txs x handed in
      subst (IsKept hash_of size_of) (sym e) (
        send-IsKept hash_of size_of i x
          (record s.loop { pending = set_at i (some x) s.loop.pending }) loop []
          (set_at i txs s.queued) s.sent (set_at i false s.failed)
          (send-Sent hash_of size_of i x _ loop (arrive-idle i x s.loop loop is_idle arrived)) old.0
          (λ j y miss p. k.old_version j y (sym (at_miss i j (some x) s.loop.pending miss) ∙ p))
          (λ f. old.1 ∙ sym (at_hit i i txs s.queued (==_refl i)))
          (λ j miss. rw miss (k.complete j)))
  TxSyncStep-IsKept s u k (arrives_busy i version txs x loop is_busy handed arrived e) =
      let old = sync_transactions-old hash_of size_of version txs x handed in
      subst (IsKept hash_of size_of)
        (sym (
          e
          ∙ ap
              (λ l. record {
                loop = l;
                queued = set_at i txs s.queued;
                sent = set_at i [] s.sent;
                failed = set_at i false s.failed;
              })
              (sym (arrive-busy i x s.loop loop is_busy arrived))
          ∙ ap
              (λ t. record {
                loop = record s.loop { pending = set_at i (some x) s.loop.pending };
                queued = set_at i t s.queued;
                sent = set_at i [] s.sent;
                failed = set_at i false s.failed;
              })
              (sym old.1)))
        (queue-IsKept hash_of size_of i x s old.0 k is_busy)
  TxSyncStep-IsKept s u k (picks fails i x loop busy found sends e) =
      let l = pack_done hash_of size_of fails s.loop in
      let kept_at = λ (j : ℕ). pack_done-Kept hash_of size_of fails s j k in
      subst (IsKept hash_of size_of) (sym e) (
        send-IsKept hash_of size_of i x l loop (s.sent i) s.queued s.sent
          (noted hash_of size_of fails s) (send-Sent hash_of size_of i x l loop sends)
          (pack_done-old hash_of size_of fails s i x k found)
          (λ j y miss p. pack_done-old hash_of size_of fails s j y k p)
          (λ f. sym (ap (λ o. s.sent i ++ rest_of hash_of size_of o) found) ∙ kept_at i f)
          (λ j miss. kept_at j))
  TxSyncStep-IsKept s u k (rests fails busy nothing e) =
      subst (IsKept hash_of size_of) (sym e) (record {
        old_version = λ j y p. pack_done-old hash_of size_of fails s j y k p;
        idle = λ idle. nothing;
        complete = λ j. pack_done-Kept hash_of size_of fails s j k;
      })

  TxSyncReach-IsKept : (r : Run Tx) → TxSyncReach hash_of size_of r → IsKept hash_of size_of r
  TxSyncReach-IsKept r here = record {
    old_version = λ i x e. absurd (cc e);
    idle = λ e i. refl;
    complete = λ i f. refl;
  }
  TxSyncReach-IsKept r (next {s} run step) = TxSyncStep-IsKept s r (TxSyncReach-IsKept s run) step

  -- In every run of the loop: what has been sent to a peer since its transactions were queued last,
  -- pack after pack, is with what is still pending for it exactly what was queued, in order, unless a
  -- send to it failed since; while no send is active nothing is pending for any peer, so that all has
  -- been sent by then; and no sync that is pending makes `send` panic.
  pub TxSyncReach-Delivered :
      (r : Run Tx)
      → TxSyncReach hash_of size_of r
      → ((i : ℕ)
          → r.failed i ≡ false
          → r.sent i ++ rest_of hash_of size_of (r.loop.pending i) ≡ r.queued i)
        × (r.loop.sending ≡ false → (i : ℕ) → r.failed i ≡ false → r.sent i ≡ r.queued i)
        × ((i : ℕ) (x : TxSync Tx)
            → r.loop.pending i ≡ some x
            → send hash_of size_of i x r.loop ≢ panics)
  unfolding send
  TxSyncReach-Delivered r run =
      let k = TxSyncReach-IsKept r run in
      (
        k.complete,
        (λ is_idle i f.
            sym (append-nil (r.sent i))
            ∙ sym (ap (λ o. r.sent i ++ rest_of hash_of size_of o) (k.idle is_idle i))
            ∙ k.complete i f),
        (λ i x e p. absurd (cc (rw (young_enough x.version (k.old_version i x e)) at p))),
      )
