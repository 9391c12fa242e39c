-- ===== src/Connector/Batcher/WorkLoop.antt =====
-- ecconnector/batcher.go: `newWorkLoop`, which asks for new work and interrupts the work before. The
-- loop is modelled until the batcher is stopped, and a time is the Unix time at an event.
pub mod Interrupts
pub mod Tasks
use ecgeth.Base.{ℕ, Bool, true, false, not, List, [], ◌∷◌, ◌==◌, if◌then◌else◌}
use ecgeth.Connector.Batcher.{
  commit_interrupt_none, commit_interrupt_new_head, commit_interrupt_resubmit,
}
use ecgeth.Connector.Batcher.Work.{EcBatcher, clear_pending}

-- `newWorkReq`; its interrupt is that of the same place in `interrupts`.
pub record NewWorkReq : Type 0 where
  pub noempty : Bool
  pub timestamp : ℕ

-- The batcher, and the variables of the loop. `interrupts` has the values of all interrupts that were
-- made, the latest first, which is the variable `interrupt`; `requests` has the requests for them.
pub record WorkLoop (Tx Receipt State Log : Type 0) : Type 0 where
  pub batcher : EcBatcher Tx Receipt State Log
  pub interrupts : List ℕ
  pub requests : List NewWorkReq
  pub timestamp : ℕ
  pub timer_set : Bool

pub data WorkEvent : Type 0 where
  started chain_head : ℕ → WorkEvent
  timer_fired : WorkEvent

-- `atomic.StoreInt32(interrupt, s)`, if there is an interrupt
abbrev pub interrupt_latest : ℕ → List ℕ → List ℕ
interrupt_latest s [] = []
interrupt_latest s (i ∷ is) = s ∷ is

module _ {Tx Receipt State Log : Type 0} where
  -- The closure `commit`.
  unfoldable pub request_work :
      Bool → ℕ → WorkLoop Tx Receipt State Log → WorkLoop Tx Receipt State Log
  request_work noempty s w = record w {
    interrupts = commit_interrupt_none ∷ interrupt_latest s w.interrupts;
    requests = record { noempty = noempty; timestamp = w.timestamp } ∷ w.requests;
    timer_set = true;
    batcher = record w.batcher { new_txs = 0 };
  }

  -- `clearPending`, the new timestamp, and `commit`.
  unfoldable pub restart_work : ℕ → WorkLoop Tx Receipt State Log → WorkLoop Tx Receipt State Log
  unfolding request_work
  restart_work now w =
      request_work false commit_interrupt_new_head
        (record w { batcher = clear_pending w.batcher; timestamp = now })

  unfoldable pub work_step :
      WorkEvent → WorkLoop Tx Receipt State Log → WorkLoop Tx Receipt State Log
  unfolding restart_work
  work_step (started now) w =
      let next = restart_work now w in if w.batcher.is_build_block_processing then w else next
  work_step (chain_head now) w = restart_work now w
  work_step timer_fired w =
      let fired = record w { timer_set = false } in
      let resubmitted = request_work true commit_interrupt_resubmit fired in
      if not w.batcher.running then fired else if w.batcher.new_txs == 0 then w else resubmitted

  -- The loop after some events, the latest first.
  unfoldable pub after_work_events :
      WorkLoop Tx Receipt State Log → List WorkEvent → WorkLoop Tx Receipt State Log
  after_work_events start [] = start
  after_work_events start (e ∷ es) = work_step e (after_work_events start es)

  -- The loop as it starts.
  unfoldable pub start_loop : EcBatcher Tx Receipt State Log → WorkLoop Tx Receipt State Log
  start_loop b = record {
    batcher = b;
    interrupts = [];
    requests = [];
    timestamp = 0;
    timer_set = false;
  }
