-- ===== src/Eth/Sync/Loop/Safe.antt =====
-- eth/sync.go: what holds in all states of the loop.
use ecgeth.Base.{
  ℕ, ◌≡◌, ◌≢◌, ◌≤◌, ◌⊎◌, refl, sym, ap, ◌∙◌, Bool, true, false, none, some, arith, inl, inr,
}
use ecgeth.Eth.Sync.{
  SyncMode, full_sync, fast_sync, snap_sync, SyncOp, SyncView, SyncFlags, SyncResult, with_snap,
  fix_limit, prepare_limit, mode_and_local_head, peer_to_sync_op, do_sync,
}
use ecgeth.Eth.Sync.Choice.{IsDue, next_sync_op_iff}
use ecgeth.Eth.Sync.Loop.{
  SyncLoop, SyncStep, starts, needs_none, peer_changed, completes, force_fires, quits, synced,
  imported, SyncReach, here, next, start_sync,
}

-- The flag for the snap protocol comes with that for the fast sync.
abbrev pub SnapIsFast : SyncFlags → Type 0
SnapIsFast f = f.snap_sync ≡ true → f.fast_sync ≡ true

-- An operation in progress that goes via the snap protocol does so with both flags set, until it is
-- finished; only an operation in progress is finished.
pub record IsConsistent (s : SyncLoop) : Type 0 where
  pub snap_is_fast : SnapIsFast s.flags
  pub snap_runs :
      (op : SyncOp)
      → s.sync ≡ some op
      → s.finished ≡ false
      → op.mode ≡ snap_sync
      → (s.flags.snap_sync ≡ true) × (s.flags.fast_sync ≡ true)
  pub finishes : s.finished ≡ true → s.sync ≢ none

prepare_limit-flags :
    (m : SyncMode) (f : SyncFlags)
    → ((prepare_limit m f).fast_sync ≡ f.fast_sync) × ((prepare_limit m f).snap_sync ≡ f.snap_sync)
unfolding prepare_limit fix_limit
prepare_limit-flags full_sync f = (refl, refl)
prepare_limit-flags fast_sync f = ground arith
prepare_limit-flags snap_sync f = ground arith

do_sync-SnapIsFast :
    (checkpoint : ℕ) (op : SyncOp) (r : SyncResult) (f : SyncFlags)
    → SnapIsFast f
    → SnapIsFast (do_sync checkpoint op r f).0
unfolding do_sync
do_sync-SnapIsFast checkpoint op r f h = ground (arith, prepare_limit-flags op.mode f)

mode-snap :
    (f : SyncFlags) (v : SyncView)
    → with_snap (mode_and_local_head f v).0 f.snap_sync ≡ snap_sync
    → f.snap_sync ≡ true
unfolding mode_and_local_head with_snap
mode-snap f v e = ground arith

IsDue-snap :
    {running forced : Bool} {max_peers : ℕ} {f : SyncFlags} {v : SyncView} (op : SyncOp)
    → IsDue running forced max_peers f v op
    → op.mode ≡ snap_sync
    → f.snap_sync ≡ true
unfolding peer_to_sync_op
IsDue-snap {f} {v} op d m = mode-snap f v (sym (ap (λ o. o.mode) d.chosen) ∙ m)

prepare_limit-accept :
    (m : SyncMode) (f : SyncFlags) → (prepare_limit m f).accept_txs ≡ f.accept_txs
unfolding prepare_limit fix_limit
prepare_limit-accept full_sync f = refl
prepare_limit-accept fast_sync f = ground arith
prepare_limit-accept snap_sync f = ground arith

do_sync-accept :
    (checkpoint : ℕ) (op : SyncOp) (r : SyncResult) (f : SyncFlags)
    → (do_sync checkpoint op r f).0.accept_txs ≡ true
    → (f.accept_txs ≡ true)
      ⊎ ((r.succeeds ≡ true) × (checkpoint ≤ r.head_number) × (r.month_ago ≤ r.head_time))
unfolding do_sync
do_sync-accept checkpoint op r f e = ground (arith, prepare_limit-accept op.mode f)

module _ {max_peers checkpoint : ℕ} where
  SyncStep-IsConsistent :
      {s u : SyncLoop} → SyncStep max_peers checkpoint s u → IsConsistent s → IsConsistent u
  SyncStep-IsConsistent {s} (starts v op at e eq) c =
      let due = (next_sync_op_iff _ _ _ _ v op).0 e in
      rw eq (record {
        snap_is_fast = c.snap_is_fast;
        snap_runs = λ o same fin m.
            let eq' : op ≡ o = cc in
            let on = IsDue-snap op due (ap (λ o. o.mode) eq' ∙ m) in (on, c.snap_is_fast on);
        finishes = λ fin. cc;
      })
  SyncStep-IsConsistent (needs_none v at e eq) c =
      rw eq
        (record { snap_is_fast = c.snap_is_fast; snap_runs = c.snap_runs; finishes = c.finishes })
  SyncStep-IsConsistent (peer_changed at eq) c =
      rw eq
        (record { snap_is_fast = c.snap_is_fast; snap_runs = c.snap_runs; finishes = c.finishes })
  SyncStep-IsConsistent (completes at fin eq) c =
      rw eq
        (record { snap_is_fast = c.snap_is_fast; snap_runs = λ o same f m. cc; finishes = λ f. cc })
  SyncStep-IsConsistent (force_fires at eq) c =
      rw eq
        (record { snap_is_fast = c.snap_is_fast; snap_runs = c.snap_runs; finishes = c.finishes })
  SyncStep-IsConsistent (quits at eq) c =
      rw eq
        (record { snap_is_fast = c.snap_is_fast; snap_runs = c.snap_runs; finishes = c.finishes })
  SyncStep-IsConsistent {s} (synced op r doing fin eq) c = rw eq (record {
    snap_is_fast = do_sync-SnapIsFast checkpoint op r s.flags c.snap_is_fast;
    snap_runs = λ o same f m. cc;
    finishes = λ f. λ e. cc;
  })
  SyncStep-IsConsistent (imported number answer good passed slow eq) c =
      rw eq
        (record { snap_is_fast = c.snap_is_fast; snap_runs = c.snap_runs; finishes = c.finishes })

  -- In every state that the loop reaches from flags as `newHandler` sets them, the flag for the snap
  -- protocol comes with that for the fast sync, a sync in progress via the snap protocol still has
  -- both flags set, and a result waits only for an operation in progress.
  pub SyncReach-IsConsistent :
      {f : SyncFlags} {s : SyncLoop}
      → SnapIsFast f
      → SyncReach max_peers checkpoint (start_sync f) s
      → IsConsistent s
  SyncReach-IsConsistent h here = record {
    snap_is_fast = h;
    snap_runs = λ op e. cc;
    finishes = λ e. cc;
  }
  SyncReach-IsConsistent h (next r st) = SyncStep-IsConsistent st (SyncReach-IsConsistent h r)

  -- The step lets the node pass the checkpoint: a sync that succeeds, to a head that is not below it
  -- and not older than a month, or an import by the fetcher without an error,
  -- outside a fast sync.
  abbrev pub StepPasses : {s u : SyncLoop} → SyncStep max_peers checkpoint s u → Type 0
  StepPasses (synced op r doing fin eq) =
      (r.succeeds ≡ true) × (checkpoint ≤ r.head_number) × (r.month_ago ≤ r.head_time)
  StepPasses {s} (imported number answer good passed slow eq) =
      (answer.succeeds ≡ true) × (checkpoint ≤ number) × (s.flags.fast_sync ≡ false)
  StepPasses _ = ⊥

  abbrev pub Passed : {s u : SyncLoop} → SyncReach max_peers checkpoint s u → Type 0
  Passed here = ⊥
  Passed (next r st) = Passed r ⊎ StepPasses st

  accept-step :
      {s u : SyncLoop} (st : SyncStep max_peers checkpoint s u)
      → u.flags.accept_txs ≡ true
      → (s.flags.accept_txs ≡ true) ⊎ StepPasses st
  accept-step (starts v op at e eq) on = inl (rw eq at on)
  accept-step (needs_none v at e eq) on = inl (rw eq at on)
  accept-step (peer_changed at eq) on = inl (rw eq at on)
  accept-step (completes at fin eq) on = inl (rw eq at on)
  accept-step (force_fires at eq) on = inl (rw eq at on)
  accept-step (quits at eq) on = inl (rw eq at on)
  accept-step {s} (synced op r doing fin eq) on =
      do_sync-accept checkpoint op r s.flags (rw eq at on)
  accept-step (imported number answer good passed slow eq) on = inr (good, passed, slow)

  -- If the node accepts transactions in a state that the loop reaches, and did not at first, then a
  -- step on the way has passed the checkpoint: by a sync that succeeded, to a head that is neither
  -- below the checkpoint nor older than a month, or by blocks that the fetcher imported without an
  -- error outside a fast sync, on a head not below the checkpoint.
  pub SyncReach-Passed :
      {f : SyncFlags} {s : SyncLoop} (r : SyncReach max_peers checkpoint (start_sync f) s)
      → f.accept_txs ≡ false
      → s.flags.accept_txs ≡ true
      → Passed r
  SyncReach-Passed here off on = cc
  SyncReach-Passed (next r st) off on = elim (accept-step st on) [
    | inl before ↦ inl (SyncReach-Passed r off before)
    | inr now ↦ inr now
  ]
