-- ===== src/Connector/Batcher/Build.antt =====
-- ecconnector/batcher.go: `updateNewWork`, `commit`, `buildBlock` and `insertBlock`, by which the
-- connector finishes a block and stores it.
pub mod Candidate
pub mod Cycle
use ecgeth.Base.{
  ℕ, zero, suc, ◌+◌, ◌≡◌, Bool, true, false, not, ◌&&◌, Option, none, some, List, [], ◌∷◌, ◌++◌,
  Hash, Address, Bytes, ◌==◌, if◌then◌else◌, leb, is_empty,
}
use ecgeth.Base.Outcome.{Outcome, ok, err, panics, ◌>>=◌}
use ecgeth.Params.Config.{ChainConfig}
use ecgeth.Types.Nonce.{zero_nonce}
use ecgeth.Types.Header.{Header}
use ecgeth.Types.Block.{Block, block_hash, new_block, number_u64}
use ecgeth.Ecpon.Engine.{prepare, finalize_and_assemble}
use ecgeth.Connector.Batcher.{Node, Environment, commit_interrupt_new_head, gas_ceil}
use ecgeth.Connector.Batcher.Loops.{
  LoopEnd, interrupted, finished, commit_transactions, update_transactions,
}
use ecgeth.Connector.Batcher.Pool.{split_locals}
use ecgeth.Connector.Batcher.Work.{
  EcBatcher, Task, Backend, WorkError, not_ready, no_pending_task, write_failed, old_pending_block,
  from_fuel, update_snapshot,
}

module _ {C Tx Receipt State TxSet Log : Type 0} (node : Node Tx Receipt State TxSet Log)
    (backend : Backend C Tx Receipt State Log) (config : ChainConfig) where
  unfoldable pub update_group :
      List (Address × List Tx)
      → EcBatcher Tx Receipt State Log
      → Outcome WorkError (EcBatcher Tx Receipt State Log)
  unfolding from_fuel
  update_group [] b = ok b
  update_group (g ∷ gs) b = elim b.currentenv [
    | none ↦ panics
    | some env ↦
        from_fuel
          (update_transactions node config b.coinbase env (node.by_price_and_nonce (g ∷ gs)))
        >>= λ env'. ok (record b { currentenv = some env' })
  ]

  unfoldable pub update_new_work :
      C → EcBatcher Tx Receipt State Log → Outcome WorkError (EcBatcher Tx Receipt State Log)
  update_new_work c b = elim (backend.pending c) [
    | none ↦ ok b
    | some txs ↦
        let (local_txs, remote_txs) = split_locals (backend.locals c) ([], txs) in
        update_group local_txs b >>= update_group remote_txs
  ]

  -- `commit`, with the engine of consensus/ecpon, whose `FinalizeAndAssemble` returns no error and
  -- writes to the header of the environment. The state is a copy.
  unfoldable pub commit :
      EcBatcher Tx Receipt State Log → Outcome WorkError (Block Tx × EcBatcher Tx Receipt State Log)
  unfolding update_snapshot
  commit b = elim b.currentenv [
    | none ↦ panics
    | some env ↦
        let (block, header, state) =
          finalize_and_assemble node.hashing config node.intermediate_root env.header env.state
            env.txs env.receipts in
        let task : Task Tx Receipt State = record {
          receipts = env.receipts;
          state = state;
          block = block;
        } in
        update_snapshot node backend config (record b {
          currentenv = some (record env { header = header });
          pending_task = some task;
        })
        >>= λ b'. ok (block, b')
  ]

  -- `buildBlock` behind its two tests. `isBuildBlockProcessing` is set meanwhile.
  unfoldable pub build_on :
      C
      → EcBatcher Tx Receipt State Log
      → Outcome WorkError (Block Tx × EcBatcher Tx Receipt State Log)
  unfolding update_new_work commit
  build_on c b = update_new_work c (record b { is_build_block_processing = true }) >>= λ b'.
      (commit b' >>= λ (block, b''). ok (block, record b'' { is_build_block_processing = false }))

  unfoldable pub build_at :
      ℕ
      → C
      → Option (Block Tx)
      → EcBatcher Tx Receipt State Log
      → Outcome WorkError (Block Tx × EcBatcher Tx Receipt State Log)
  build_at current c none b = err not_ready
  build_at current c (some pending_block) b =
      let built = build_on c b in
      if leb (number_u64 pending_block) current
      then err (old_pending_block (number_u64 pending_block))
      else built

  unfoldable pub build_block :
      ℕ
      → C
      → EcBatcher Tx Receipt State Log
      → Outcome WorkError (Block Tx × EcBatcher Tx Receipt State Log)
  unfolding build_at
  build_block current c b = build_at current c b.snapshot_block b

  -- The loop of `insertBlock` over the receipts, from number `i` on.
  unfoldable pub located : Hash → Option ℕ → ℕ → List Receipt → List Receipt
  located hash number i [] = []
  located hash number i (r ∷ rs) = backend.locate hash number i r ∷ located hash number (suc i) rs

  unfoldable pub logs_of : List Receipt → List Log
  logs_of [] = []
  logs_of (r ∷ rs) = node.receipt_logs r ++ logs_of rs

  -- The end of `insertBlock` behind `WriteBlockWithState`: its error, the chain and the batcher. The
  -- receipts of the task are pointers, so that the task has the located ones too, whether or not they
  -- were written.
  -- The receipts of the environment are others, but share the logs, whose block hash changes
  -- too; no operation here reads it, and the environment is left as it is.
  unfoldable pub keep_written :
      C
      → EcBatcher Tx Receipt State Log
      → Task Tx Receipt State
      → List Receipt
      → Option C
      → Option WorkError × C × EcBatcher Tx Receipt State Log
  keep_written c b task receipts none =
      (some write_failed, c, record b { pending_task = some (record task { receipts = receipts }) })
  keep_written c b task receipts (some c') =
      (none, c', record b { pending_task = some (record task { receipts = receipts }) })

  unfoldable pub insert_with :
      Block Tx
      → C
      → EcBatcher Tx Receipt State Log
      → Option (Task Tx Receipt State)
      → Option WorkError × C × EcBatcher Tx Receipt State Log
  unfolding keep_written
  insert_with block c b none = (some no_pending_task, c, b)
  insert_with block c b (some task) =
      let receipts =
        located (block_hash node.hashing block).0 block.header.number 0 task.receipts in
      keep_written c b task receipts
        (backend.write_block block receipts (logs_of receipts) task.state c)

  -- `insertBlock`.
  unfoldable pub insert_block :
      Block Tx
      → C
      → EcBatcher Tx Receipt State Log
      → Option WorkError × C × EcBatcher Tx Receipt State Log
  unfolding insert_with
  insert_block block c b = insert_with block c b b.pending_task
