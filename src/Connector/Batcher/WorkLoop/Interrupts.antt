-- ===== src/Connector/Batcher/WorkLoop/Interrupts.antt =====
-- ecconnector/batcher.go: which work `newWorkLoop` has interrupted.
use ecgeth.Base.{
  choose, ℕ, suc, ◌≡◌, refl, sym, ◌∙◌, ap, true, not, List, [], ◌∷◌, ◌==◌, length, All,
}
use ecgeth.Connector.Batcher.{commit_interrupt_none, commit_interrupt_new_head}
use ecgeth.Connector.Batcher.Work.{EcBatcher}
use ecgeth.Connector.Batcher.WorkLoop.{
  WorkLoop, WorkEvent, started, chain_head, timer_fired, interrupt_latest, request_work,
  restart_work, work_step, after_work_events, start_loop,
}

abbrev pub WasNewHead : ℕ → Type 0
WasNewHead i = i ≡ commit_interrupt_new_head

-- The latest interrupt is not set, and each one before was set by a new head or a start.
abbrev pub OnlyLatestRuns : List ℕ → Type 0
OnlyLatestRuns [] = Unit
OnlyLatestRuns (i ∷ is) = (i ≡ commit_interrupt_none) × All WasNewHead is

interrupted-OnlyLatestRuns :
    (is : List ℕ)
    → OnlyLatestRuns is
    → All WasNewHead (interrupt_latest commit_interrupt_new_head is)
interrupted-OnlyLatestRuns [] o = o
interrupted-OnlyLatestRuns (i ∷ is) o = (refl, o.1)

length-interrupt_latest : (s : ℕ) (is : List ℕ) → length (interrupt_latest s is) ≡ length is
length-interrupt_latest s [] = refl
length-interrupt_latest s (i ∷ is) = refl

module _ {Tx Receipt State Log : Type 0} where
  record IsOrdered (w : WorkLoop Tx Receipt State Log) : Type 0 where
    pub runs : OnlyLatestRuns w.interrupts
    pub answered : length w.requests ≡ length w.interrupts
    pub no_new_txs : w.batcher.new_txs ≡ 0

  restart_work-IsOrdered :
      (now : ℕ) (w : WorkLoop Tx Receipt State Log) → IsOrdered w → IsOrdered (restart_work now w)
  unfolding restart_work request_work
  restart_work-IsOrdered now w o = record {
    runs = (refl, interrupted-OnlyLatestRuns w.interrupts o.runs);
    answered = ap suc (o.answered ∙ sym (length-interrupt_latest _ w.interrupts));
    no_new_txs = refl;
  }

  start_loop-IsOrdered :
      (b : EcBatcher Tx Receipt State Log) → b.new_txs ≡ 0 → IsOrdered (start_loop b)
  unfolding start_loop
  start_loop-IsOrdered b none' = record { runs = tt; answered = refl; no_new_txs = none' }

  -- Nothing counts a new transaction, so that the timer asks for no work.
  timer-IsOrdered :
      (w : WorkLoop Tx Receipt State Log) → IsOrdered w → IsOrdered (work_step timer_fired w)
  unfolding work_step
  timer-IsOrdered w o =
      let same : (w.batcher.new_txs == 0) ≡ true = rw o.no_new_txs refl in
      choose IsOrdered (not w.batcher.running) _ _
        (λ off. record { runs = o.runs; answered = o.answered; no_new_txs = o.no_new_txs })
        (λ on. choose IsOrdered (w.batcher.new_txs == 0) _ _ (λ e. o) (λ e. cc))

  work_step-IsOrdered :
      (e : WorkEvent) (w : WorkLoop Tx Receipt State Log) → IsOrdered w → IsOrdered (work_step e w)
  unfolding work_step
  work_step-IsOrdered (started now) w o =
      choose IsOrdered w.batcher.is_build_block_processing _ _ (λ busy. o)
        (λ idle. restart_work-IsOrdered now w o)
  work_step-IsOrdered (chain_head now) w o = restart_work-IsOrdered now w o
  work_step-IsOrdered timer_fired w o = timer-IsOrdered w o

  after_work_events-IsOrdered :
      (b : EcBatcher Tx Receipt State Log) (es : List WorkEvent)
      → b.new_txs ≡ 0
      → IsOrdered (after_work_events (start_loop b) es)
  unfolding after_work_events
  after_work_events-IsOrdered b [] none' = start_loop-IsOrdered b none'
  after_work_events-IsOrdered b (e ∷ es) none' =
      work_step-IsOrdered e (after_work_events (start_loop b) es)
        (after_work_events-IsOrdered b es none')

  -- After any events from the start, with no new transactions counted, each request for new work has
  -- its interrupt. That of the latest is not set; each one before was set to that of a new head, and
  -- none to a resubmission. No new transaction is counted.
  pub after_work_events-OnlyLatestRuns :
      (b : EcBatcher Tx Receipt State Log) (es : List WorkEvent)
      → b.new_txs ≡ 0
      → OnlyLatestRuns (after_work_events (start_loop b) es).interrupts
        × (length (after_work_events (start_loop b) es).requests
            ≡ length (after_work_events (start_loop b) es).interrupts)
        × ((after_work_events (start_loop b) es).batcher.new_txs ≡ 0)
  after_work_events-OnlyLatestRuns b es none' =
      let o = after_work_events-IsOrdered b es none' in (o.runs, o.answered, o.no_new_txs)
