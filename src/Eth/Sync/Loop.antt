-- ===== src/Eth/Sync/Loop.antt =====
-- eth/sync.go: the loop of `chainSyncer` and the goroutine of `doSync`, as a relation between states:
-- the scheduler, the peers and the timer choose the step. The fetcher's `inserter` of eth/handler.go,
-- which shares the flag for transactions, is a step too.
pub mod Safe
use ecgeth.Base.{ℕ, ◌≡◌, ◌≤◌, Bool, true, false, is_nil, not, Option, none, some}
use ecgeth.Eth.Sync.{SyncMode, SyncOp, SyncView, SyncFlags, SyncResult, next_sync_op, do_sync}

-- The loop is at its top, or waits in the `select`, or has returned.
pub data LoopAt : Type 0 where
  at_top at_select returned : LoopAt

-- `sync` is the operation in progress, whose result is to be read from `doneCh`; `finished` is whether
-- the goroutine has sent it.
pub record SyncLoop : Type 0 where
  pub at : LoopAt
  pub forced : Bool
  pub sync : Option SyncOp
  pub finished : Bool
  pub flags : SyncFlags

-- What `InsertChain` answers to the inserter: how many blocks went in, and whether without an error.
pub record Inserted : Type 0 where
  pub count : ℕ
  pub succeeds : Bool

module _ (max_peers checkpoint : ℕ) where
  -- One step of the loop, of the goroutine, or of the fetcher.
  pub data SyncStep (s u : SyncLoop) : Type 0 where
    -- `startSync`
    starts :
        (v : SyncView) (op : SyncOp)
        → s.at ≡ at_top
        → next_sync_op (not (is_nil s.sync)) s.forced max_peers s.flags v ≡ some op
        → u ≡ record s { at = at_select; sync = some op; finished = false }
        → SyncStep s u
    needs_none :
        (v : SyncView)
        → s.at ≡ at_top
        → next_sync_op (not (is_nil s.sync)) s.forced max_peers s.flags v ≡ none
        → u ≡ record s { at = at_select }
        → SyncStep s u
    peer_changed : s.at ≡ at_select → u ≡ record s { at = at_top } → SyncStep s u
    -- `<-cs.doneCh`, and the reset of the timer
    completes :
        s.at ≡ at_select
        → s.finished ≡ true
        → u ≡ record s { at = at_top; sync = none; finished = false; forced = false }
        → SyncStep s u
    force_fires : s.at ≡ at_select → u ≡ record s { at = at_top; forced = true } → SyncStep s u
    quits : s.at ≡ at_select → u ≡ record s { at = returned } → SyncStep s u
    -- The goroutine ends.
    synced :
        (op : SyncOp) (r : SyncResult)
        → s.sync ≡ some op
        → s.finished ≡ false
        → u ≡ record s { finished = true; flags = (do_sync checkpoint op r s.flags).0 }
        → SyncStep s u
    -- The `inserter` past its two tests, with blocks that the chain takes without an error
    imported :
        (number : ℕ) (answer : Inserted)
        → answer.succeeds ≡ true
        → checkpoint ≤ number
        → s.flags.fast_sync ≡ false
        → u ≡ record s { flags = record s.flags { accept_txs = true } }
        → SyncStep s u

  pub data SyncReach (s : SyncLoop) : SyncLoop → Type 0 where
    here : SyncReach s s
    next : {t u : SyncLoop} → SyncReach s t → SyncStep t u → SyncReach s u

-- The loop as it starts, with the flags that `newHandler` sets.
abbrev pub start_sync : SyncFlags → SyncLoop
start_sync f = record { at = at_top; forced = false; sync = none; finished = false; flags = f }
