-- ===== src/Connector/Stop.antt =====
-- ecconnector: the end of the batcher and of the connector, `Stop` of ecconnector/batcher.go and of
-- ecconnector/ecconnector.go, and the methods on their status.
use ecgeth.Base.{◌≡◌, refl, Bool, true, false, Option, none, some, List, arith}
use ecgeth.Base.Outcome.{Outcome, ok, panics, ◌>>=◌}
use ecgeth.Types.Block.{Hashing, Block}
use ecgeth.Ecpon.Extra.{ExtraCodec}
use ecgeth.Connector.Rpc.{Net}
use ecgeth.Connector.Batcher.{Environment}
use ecgeth.Connector.Batcher.Work.{EcBatcher, stop_batching}
use ecgeth.Connector.Loop.{LoopState, Event, quits, handle_event, loop_step, after_events}

-- `close` of a channel, which panics where it is closed already.
unfoldable pub close_channel : {Err : Type 0} → Bool → Outcome Err Bool
close_channel true = panics
close_channel false = ok true

-- `StopPrefetcher` of the state that the batcher executes on, if there is one.
unfoldable pub stop_prefetcher :
    {Tx Receipt State : Type 0}
    → (State → State)
    → Option (Environment Tx Receipt State)
    → Option (Environment Tx Receipt State)
stop_prefetcher stop none = none
stop_prefetcher stop (some env) = some (record env { state = stop env.state })

module _ {Tx Receipt State Log : Type 0} where
  unfoldable pub is_running : EcBatcher Tx Receipt State Log → Bool
  is_running b = b.running

  unfoldable pub pending_block : EcBatcher Tx Receipt State Log → Option (Block Tx)
  pending_block b = b.snapshot_block

module _ {Tx Receipt State Log Err : Type 0} where
  -- `Stop` of the batcher; the Boolean is whether its channel `stopCh` is closed.
  unfoldable pub stop_batcher :
      (State → State)
      → Bool × EcBatcher Tx Receipt State Log
      → Outcome Err (Bool × EcBatcher Tx Receipt State Log)
  unfolding close_channel stop_prefetcher stop_batching
  stop_batcher stop (closed, b) = close_channel closed >>= λ closed'.
      ok (closed', stop_batching (record b { currentenv = stop_prefetcher stop b.currentenv }))

  -- A stopped batcher does not run, keeps its pending task and its snapshot, and panics at a second
  -- stop.
  stop_batcher_ok :
      (stop : State → State) (closed : Bool) (b : EcBatcher Tx Receipt State Log)
      {r : Bool × EcBatcher Tx Receipt State Log}
      → stop_batcher stop (closed, b) ≡ ok r
      → (is_running r.1 ≡ false)
        × (r.1.pending_task ≡ b.pending_task)
        × (pending_block r.1 ≡ pending_block b)
        × (stop_batcher stop r ≡ panics)
  unfolding stop_batcher close_channel stop_batching is_running pending_block
  stop_batcher_ok stop true b h = cc h
  stop_batcher_ok stop false b {r} h = (cc, cc, cc, cc)

-- `Mining`, which asks the batcher.
unfoldable pub mining : {Tx : Type 0} → LoopState Tx → Bool
mining s = s.running

loop_step-quits :
    {Tx Receipt : Type 0} (E : Type 0) (k : Hashing Tx Receipt) (codec : ExtraCodec) (net : Net)
    (s : LoopState Tx)
    → (loop_step {E = E} k codec net quits s).runs ≡ false
unfolding loop_step handle_event
loop_step-quits E k codec net s = ground arith

module _ {Tx Receipt E Err : Type 0} (k : Hashing Tx Receipt) (codec : ExtraCodec) (net : Net) where
  -- `Stop` of the connector, which waits for the end of the loop. The events are those that the loop
  -- still handles, the latest first: its `select` is free to take them before the closed channel.
  unfoldable pub stop_connector :
      List (Event Tx E) → Bool × LoopState Tx → Outcome Err (Bool × LoopState Tx)
  unfolding close_channel
  stop_connector events (closed, s) = close_channel closed >>= λ closed'.
      ok (closed', loop_step {E = E} k codec net quits (after_events k codec net s events))

  -- The stop of a connector whose channel is open does not fail, and its loop has then returned.
  stop_connector_ends :
      (events : List (Event Tx E)) (s : LoopState Tx)
      → (s' : LoopState Tx) × (stop_connector events (false, s) ≡ ok (true, s')) × (s'.runs ≡ false)
  unfolding stop_connector close_channel
  stop_connector_ends events s = (
    loop_step {E = E} k codec net quits (after_events k codec net s events),
    refl,
    loop_step-quits E k codec net _,
  )
