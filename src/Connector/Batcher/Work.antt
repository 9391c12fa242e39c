-- ===== src/Connector/Batcher/Work.antt =====
-- ecconnector/batcher.go: `EcBatcher`, from a new unit of work to the block that is written. The
-- steps are those of the goroutines `newWorkLoop` and `mainLoop` and of the calls of the connector,
-- each taken as a whole. Log lines, the prefetcher and the statistics of time are left out.
pub mod NewWork
use ecgeth.Base.{
  ℕ, zero, suc, ◌+◌, ◌≡◌, Bool, true, false, not, ◌&&◌, Option, none, some, List, [], ◌∷◌, ◌++◌,
  Hash, Address, Bytes, ◌==◌, if◌then◌else◌, leb, is_empty,
}
use ecgeth.Base.Outcome.{Outcome, ok, err, panics, ◌>>=◌}
use ecgeth.Params.Config.{ChainConfig}
use ecgeth.Types.Nonce.{zero_nonce}
use ecgeth.Types.Header.{Header}
use ecgeth.Types.Block.{Block, block_hash, new_block, number_u64}
use ecgeth.Ecpon.Engine.{prepare, finalize_and_assemble}
use ecgeth.Connector.Batcher.{Node, Environment, commit_interrupt_new_head, gas_ceil}
use ecgeth.Connector.Batcher.Pool.{split_locals}
use ecgeth.Connector.Batcher.Loops.{
  LoopEnd, interrupted, finished, commit_transactions, update_transactions,
}

-- `task`, without the time of its creation.
pub record Task (Tx Receipt State : Type 0) : Type 0 where
  pub receipts : List Receipt
  pub state : State
  pub block : Block Tx

-- `running` is whether the status is 1; `feed` is what `pendingLogsFeed` has been sent. The channels
-- and the locks are those of the goroutines, whose steps follow.
pub record EcBatcher (Tx Receipt State Log : Type 0) : Type 0 where
  pub currentenv : Option (Environment Tx Receipt State)
  pub pending_task : Option (Task Tx Receipt State)
  pub feed : List (List Log)
  pub coinbase : Address
  pub snapshot_block : Option (Block Tx)
  pub snapshot_state : Option State
  pub running : Bool
  pub new_txs : ℕ
  pub is_build_block_processing : Bool

-- What the batcher asks of the chain and of the transaction pool, whose state is a `C`. `pending` is
-- the pool's map from accounts to their transactions, or an error. `write_block` is
-- `WriteBlockWithState`.
pub record Backend (C Tx Receipt State Log : Type 0) : Type 0 where
  pub current_block : C → Block Tx
  pub state_at : Hash → C → Option State
  pub pending : C → Option (List (Address × List Tx))
  pub locals : C → List Address
  pub write_block : Block Tx → List Receipt → List Log → State → C → Option C
  -- A copy of a receipt with `BlockHash`, `BlockNumber` and `TransactionIndex` set, and with
  -- `BlockHash` set in its logs.
  pub locate : Hash → Option ℕ → ℕ → Receipt → Receipt

-- `out_of_fuel` is of the model and no error of the code.
pub data WorkError : Type 0 where
  not_ready no_pending_task write_failed out_of_fuel : WorkError
  old_pending_block : ℕ → WorkError

-- `"EcGeth Extra"`
abbrev dummy_extra : Bytes
dummy_extra = 69 ∷ 99 ∷ 71 ∷ 101 ∷ 116 ∷ 104 ∷ 32 ∷ 69 ∷ 120 ∷ 116 ∷ 114 ∷ 97 ∷ []

unfoldable pub from_fuel : {A : Type 0} → Option A → Outcome WorkError A
from_fuel none = err out_of_fuel
from_fuel (some a) = ok a

module _ {Tx Receipt State Log : Type 0} where
  unfoldable pub clear_pending : EcBatcher Tx Receipt State Log → EcBatcher Tx Receipt State Log
  clear_pending b = record b { pending_task = none; snapshot_block = none; snapshot_state = none }

  -- `startBatching` up to its message to the new-work loop.
  unfoldable pub start_batching : EcBatcher Tx Receipt State Log → EcBatcher Tx Receipt State Log
  start_batching b = record b { running = true }

  unfoldable pub stop_batching : EcBatcher Tx Receipt State Log → EcBatcher Tx Receipt State Log
  stop_batching b = record b { running = false }

  -- `setEtherbase` of the batcher.
  unfoldable pub set_batcher_etherbase :
      Address → EcBatcher Tx Receipt State Log → EcBatcher Tx Receipt State Log
  set_batcher_etherbase addr b = record b { coinbase = addr }

module _ {C Tx Receipt State TxSet Log : Type 0} (node : Node Tx Receipt State TxSet Log)
    (backend : Backend C Tx Receipt State Log) (config : ChainConfig) where
  abbrev pub Env : Type 0
  Env = Environment Tx Receipt State

  abbrev pub Batcher : Type 0
  Batcher = EcBatcher Tx Receipt State Log

  -- `NewEcBatcher`, before its goroutines run.
  unfoldable pub new_ec_batcher : Batcher
  new_ec_batcher = record {
    currentenv = none;
    pending_task = none;
    feed = [];
    coinbase = 0;
    snapshot_block = none;
    snapshot_state = none;
    running = false;
    new_txs = 0;
    is_build_block_processing = false;
  }

  unfoldable pub snapshot_of : Env → Block Tx
  snapshot_of env = new_block node.hashing env.header env.txs [] env.receipts

  unfoldable pub update_snapshot : Batcher → Outcome WorkError Batcher
  unfolding snapshot_of
  update_snapshot b = elim b.currentenv [
    | none ↦ panics
    | some env ↦
        ok (record b { snapshot_block = some (snapshot_of env); snapshot_state = some env.state })
  ]

  pub pending : Batcher → Option (Block Tx) × Option State
  pending b = elim b.snapshot_state [
    | none ↦ (none, none)
    | some state ↦ (b.snapshot_block, some state)
  ]

  -- The header of a new unit of work, before `Prepare`. No later field is set by the source.
  unfoldable pub new_header : Block Tx → ℕ → ℕ → Address → Header
  new_header parent number timestamp coinbase = record {
    parent_hash = (block_hash node.hashing parent).0;
    uncle_hash = 0;
    coinbase = coinbase;
    root = 0;
    tx_hash = 0;
    receipt_hash = 0;
    bloom = 0;
    difficulty = none;
    number = some (number + 1);
    gas_limit = gas_ceil;
    gas_used = 0;
    time = if leb timestamp parent.header.time then parent.header.time else timestamp;
    extra = dummy_extra;
    mix_digest = 0;
    nonce = zero_nonce;
  }

  -- `makeCurrent`, where the state of the parent is there.
  unfoldable pub make_current : Header → State → Env
  make_current header state = record {
    state = state;
    tcount = 0;
    gas_pool = none;
    header = header;
    txs = [];
    receipts = [];
    processed_txs = [];
    f_tcount_s = 0;
    f_tcount_c = 0;
    p_tcount_s = 0;
    p_tcount_n = 0;
    err_gas_lcnt = 0;
    err_nonce_lcnt = 0;
    err_nonce_hcnt = 0;
    err_not_supported_cnt = 0;
    err_default_cnt = 0;
  }

  -- The rest of `commitTransactions` behind its loop, and its result.
  unfoldable pub end_commit : Batcher → LoopEnd Env Log → Bool × Batcher
  end_commit b (interrupted signal env) =
      (signal == commit_interrupt_new_head, record b { currentenv = some env })
  end_commit b (finished env logs) = (
    false,
    record b {
      currentenv = some env;
      feed = if not b.running && not (is_empty logs) then b.feed ++ logs ∷ [] else b.feed;
    },
  )

  -- `if len(txs) > 0`, with the set that is made of them, and `commitTransactions`. The set is made
  -- with the signer of the environment, whose absence is a panic.
  unfoldable pub commit_group :
      (ℕ → ℕ) → Address → List (Address × List Tx) → Batcher → Outcome WorkError (Bool × Batcher)
  unfolding from_fuel end_commit
  commit_group signal coinbase [] b = ok (false, b)
  commit_group signal coinbase (g ∷ gs) b = elim b.currentenv [
    | none ↦ panics
    | some env ↦
        from_fuel
          (commit_transactions node config coinbase signal env (node.by_price_and_nonce (g ∷ gs)))
        >>= λ end. ok (end_commit b end)
  ]

  -- The two passes of `commitNewWork`; `signal` is the interrupt in the first, `later` in the second.
  unfoldable pub commit_both :
      (ℕ → ℕ)
      → (ℕ → ℕ)
      → Address
      → List (Address × List Tx) × List (Address × List Tx)
      → Batcher
      → Outcome WorkError Batcher
  commit_both signal later coinbase (local_txs, remote_txs) b =
      commit_group signal coinbase local_txs b >>= λ (stop, b').
      if stop then ok b' else (commit_group later coinbase remote_txs b' >>= λ (stop', b''). ok b'')

  -- `commitNewWork` from the pool on. An empty pool gives an empty block.
  unfoldable pub commit_pool :
      (ℕ → ℕ)
      → (ℕ → ℕ)
      → Address
      → List Address
      → Option (List (Address × List Tx))
      → Batcher
      → Outcome WorkError Batcher
  unfolding commit_both
  commit_pool signal later coinbase accounts none b = ok b
  commit_pool signal later coinbase accounts (some []) b = ok b
  commit_pool signal later coinbase accounts (some (g ∷ gs)) b =
      commit_both signal later coinbase (split_locals accounts ([], g ∷ gs)) b

  -- `commitNewWork` on the parent, its number and its state. The number is set, as the parent is a
  -- block of the chain; `Set` panics at a `nil`. With no state the work before is kept.
  unfoldable pub work_on :
      (ℕ → ℕ)
      → (ℕ → ℕ)
      → ℕ
      → C
      → Block Tx
      → Option ℕ
      → Option State
      → Batcher
      → Outcome WorkError Batcher
  unfolding commit_pool
  work_on signal later timestamp c parent none state b = panics
  work_on signal later timestamp c parent (some number) none b = ok b
  work_on signal later timestamp c parent (some number) (some state) b =
      let header = prepare (new_header parent number timestamp b.coinbase) in
      commit_pool signal later b.coinbase (backend.locals c) (backend.pending c)
        (record b { currentenv = some (make_current header state) })

  unfoldable pub commit_new_work : (ℕ → ℕ) → (ℕ → ℕ) → ℕ → C → Batcher → Outcome WorkError Batcher
  unfolding work_on
  commit_new_work signal later timestamp c b =
      let parent = backend.current_block c in
      work_on signal later timestamp c parent parent.header.number
        (backend.state_at parent.header.root c) b

  -- The case of `mainLoop` for a request of new work.
  unfoldable pub main_new_work : (ℕ → ℕ) → (ℕ → ℕ) → ℕ → C → Batcher → Outcome WorkError Batcher
  unfolding commit_new_work update_snapshot
  main_new_work signal later timestamp c b = commit_new_work signal later timestamp c b >>= λ b'.
      elim b'.currentenv [
        | none ↦ panics
        | some env ↦
            update_snapshot
              (record b' { currentenv = some (record env { f_tcount_c = env.tcount }) })
      ]
