-- ===== src/Eth/Handler/Start.antt =====
-- eth/handler.go: a new handler and the fetcher's `inserter`, for the loop of eth/sync.go.
use ecgeth.Base.{
  ltb→lt, ◌<◌, ℕ, ◌≡◌, ◌⊎◌, ◌≤◌, ltb, true, false, inl, inr, refl, ap, choose, not_ltb→le,
}
use ecgeth.Eth.Sync.{SyncMode, full_sync, fast_sync, snap_sync, SyncFlags}
use ecgeth.Eth.Sync.Loop.{Inserted, SyncLoop, SyncStep, imported, SyncReach, start_sync}
use ecgeth.Eth.Sync.Loop.Safe.{SnapIsFast, IsConsistent, SyncReach-IsConsistent}
use ecgeth.Eth.Handler.{HandlerConfig, sync_flags, new_handler, inserter}

sync_flags-snap :
    (mode : SyncMode) (current fast : ℕ)
    → (sync_flags mode current fast).1 ≡ true
    → (sync_flags mode current fast).0 ≡ true
unfolding sync_flags
sync_flags-snap full_sync current fast e = absurd (cc e)
sync_flags-snap fast_sync current fast e = absurd (cc e)
sync_flags-snap snap_sync current fast e = e

new_handler-SnapIsFast :
    (cht_frequency : ℕ) (config : HandlerConfig)
    → SnapIsFast (new_handler cht_frequency config).flags
unfolding new_handler
new_handler-SnapIsFast cht_frequency config e =
    sync_flags-snap config.sync config.current_number config.fast_number e

-- In every state that the sync loop of a new handler reaches, an operation via the snap protocol that
-- runs has both flags set, the flag for the snap protocol comes with that for the fast sync, and only
-- an operation in progress is finished; whatever the configuration is.
pub new_handler-IsConsistent :
    (cht_frequency max_peers : ℕ) (config : HandlerConfig) (u : SyncLoop)
    → SyncReach max_peers
        (new_handler cht_frequency config).checkpoint_number
        (start_sync (new_handler cht_frequency config).flags)
        u
    → IsConsistent u
new_handler-IsConsistent cht_frequency max_peers config u run =
    SyncReach-IsConsistent (new_handler-SnapIsFast cht_frequency config) run

-- The conditions under which the inserter leaves the flags alone.
abbrev pub Refuses : ℕ → ℕ → Inserted → SyncFlags → Type 0
Refuses checkpoint current answer f =
    (current < checkpoint) ⊎ ((f.fast_sync ≡ true) ⊎ (answer.succeeds ≡ false))

-- The others, of which each contradicts one of those.
abbrev pub Imports : ℕ → ℕ → Inserted → SyncFlags → Type 0
Imports checkpoint current answer f =
    (checkpoint ≤ current) × (f.fast_sync ≡ false) × (answer.succeeds ≡ true)

abbrev Allows : ℕ → ℕ → Inserted → SyncFlags → Inserted × SyncFlags → Type 0
Allows checkpoint current answer f r =
    (Refuses checkpoint current answer f × (r.1 ≡ f))
    ⊎ (Imports checkpoint current answer f × (r ≡ (answer, record f { accept_txs = true })))

inserter-Allows :
    (checkpoint current : ℕ) (answer : Inserted) (f : SyncFlags)
    → Allows checkpoint current answer f (inserter checkpoint current answer f)
unfolding inserter
inserter-Allows checkpoint current answer f =
    let P = Allows checkpoint current answer f in
    choose P (ltb current checkpoint) _ _
      (λ below. inl (inl (ltb→lt current checkpoint below), refl))
      (λ reached.
        choose P f.fast_sync _ _ (λ fast. inl (inr (inl fast), refl))
          (λ slow.
            choose P answer.succeeds _ _
              (λ good. inr ((not_ltb→le current checkpoint reached, slow, good), refl))
              (λ bad. inl (inr (inr bad), refl))))

-- The fetcher's inserter, called in any state of the sync loop, leaves the flags alone where the head
-- is below the checkpoint, a fast sync is on, or the chain answers with an error. Else, where none of
-- the three holds, it returns the chain's answer, the node accepts transactions, and this is the
-- step of the loop's relation for an import.
pub inserter-SyncStep :
    (max_peers checkpoint current : ℕ) (answer : Inserted) (s : SyncLoop)
    → (Refuses checkpoint current answer s.flags
        × ((inserter checkpoint current answer s.flags).1 ≡ s.flags))
      ⊎ (Imports checkpoint current answer s.flags
          × ((inserter checkpoint current answer s.flags).0 ≡ answer)
          × ((inserter checkpoint current answer s.flags).1.accept_txs ≡ true)
          × SyncStep max_peers checkpoint s
              (record s { flags = (inserter checkpoint current answer s.flags).1 }))
inserter-SyncStep max_peers checkpoint current answer s =
    elim (inserter-Allows checkpoint current answer s.flags) [
      | inl left_alone ↦ inl left_alone
      | inr ((reached, slow, good), e) ↦ inr (
        (reached, slow, good),
        ap (λ r. r.0) e,
        ap (λ r. r.1.accept_txs) e,
        imported current answer good reached slow (ap (λ r. record s { flags = r.1 }) e),
      )
    ]
