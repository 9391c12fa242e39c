-- ===== src/Connector/Batcher/WorkLoop/Tasks.antt =====
-- ecconnector/batcher.go: what a round of `newWorkLoop` leaves of the batcher.
use ecgeth.Base.{Bool, true, false, ℕ, ◌≡◌, some, choose, not, ◌==◌}
use ecgeth.Params.Config.{ChainConfig}
use ecgeth.Connector.Batcher.{Node}
use ecgeth.Connector.Batcher.Work.{EcBatcher, Task, Backend, clear_pending}
use ecgeth.Connector.Batcher.WorkLoop.{
  WorkLoop, WorkEvent, started, chain_head, timer_fired, request_work, restart_work, work_step,
}
use ecgeth.Connector.Batcher.Sound.{IsSound, clear_pending-IsSound}

module _ {C Tx Receipt State TxSet Log : Type 0} (node : Node Tx Receipt State TxSet Log)
    (backend : Backend C Tx Receipt State Log) (config : ChainConfig) where
  abbrev Batcher : Type 0
  Batcher = EcBatcher Tx Receipt State Log

  -- A new-work round keeps the batcher sound, and makes no pending task.
  pub record Keeps (b b' : Batcher) : Type 0 where
    pub sound : IsSound node backend config b → IsSound node backend config b'
    pub no_new_task :
        (task : Task Tx Receipt State) → b'.pending_task ≡ some task → b.pending_task ≡ some task

  request_work-Keeps :
      (noempty : Bool) (signal : ℕ) (w : WorkLoop Tx Receipt State Log)
      → Keeps w.batcher (request_work noempty signal w).batcher
  unfolding request_work
  request_work-Keeps noempty signal w = record {
    sound = λ s. record {
      env_counted = s.env_counted;
      snapshot_number = s.snapshot_number;
      task_sound = s.task_sound;
    };
    no_new_task = λ task e. e;
  }

  restart_work-Keeps :
      (now : ℕ) (w : WorkLoop Tx Receipt State Log) → Keeps w.batcher (restart_work now w).batcher
  unfolding restart_work clear_pending
  restart_work-Keeps now w =
      let kept =
        request_work-Keeps false 1
          (record w { batcher = clear_pending w.batcher; timestamp = now }) in
      record {
        sound = λ s. kept.sound (clear_pending-IsSound node backend config w.batcher s);
        no_new_task = λ task e. absurd (cc (kept.no_new_task task e));
      }

  abbrev KeepsFrom : WorkLoop Tx Receipt State Log → WorkLoop Tx Receipt State Log → Type 0
  KeepsFrom w x = Keeps w.batcher x.batcher

  same-Keeps : (b : Batcher) → Keeps b b
  same-Keeps b = record { sound = λ s. s; no_new_task = λ task e. e }

  pub work_step-Keeps :
      (e : WorkEvent) (w : WorkLoop Tx Receipt State Log) → Keeps w.batcher (work_step e w).batcher
  unfolding work_step
  work_step-Keeps (started now) w =
      choose (KeepsFrom w) w.batcher.is_build_block_processing _ _ (λ busy. same-Keeps w.batcher)
        (λ idle. restart_work-Keeps now w)
  work_step-Keeps (chain_head now) w = restart_work-Keeps now w
  work_step-Keeps timer_fired w =
      choose (KeepsFrom w) (not w.batcher.running) _ _ (λ off. same-Keeps w.batcher)
        (λ on.
          choose (KeepsFrom w) (w.batcher.new_txs == 0) _ _ (λ none'. same-Keeps w.batcher)
            (λ some'. request_work-Keeps true 2 (record w { timer_set = false })))
