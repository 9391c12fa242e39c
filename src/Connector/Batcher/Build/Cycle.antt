-- ===== src/Connector/Batcher/Build/Cycle.antt =====
-- ecconnector/batcher.go: a block from a new unit of work on to its candidate.
use ecgeth.Base.{ℕ, ◌+◌, ◌%◌, ◌≡◌, ◌≤◌, ◌<◌, sym, ◌∙◌, ap, some, arith, u64_mod, length}
use ecgeth.Base.Outcome.{ok}
use ecgeth.Params.Config.{ChainConfig}
use ecgeth.Types.Block.{Block, number_u64, big_uint64}
use ecgeth.Connector.Batcher.{Node, Shrinks, max_ready_txs}
use ecgeth.Connector.Batcher.Work.{EcBatcher, Task, Backend, main_new_work}
use ecgeth.Connector.Batcher.Work.NewWork.{main_new_work_ok}
use ecgeth.Connector.Batcher.Build.{build_block}
use ecgeth.Connector.Batcher.Build.Candidate.{build_block_ok}

module _ {C Tx Receipt State TxSet Log : Type 0} (node : Node Tx Receipt State TxSet Log)
    (backend : Backend C Tx Receipt State Log) (config : ChainConfig) (shrinks : Shrinks node) where
  number_u64-some : (b : Block Tx) (n : ℕ) → b.header.number ≡ some n → number_u64 b ≡ n % u64_mod
  unfolding number_u64
  number_u64-some b n e = ap big_uint64 e

  -- After a new unit of work on the head with number `n`, whose state is there, `buildBlock` at `n`
  -- returns a block with the number `n + 1` and at most 20480 transactions, whatever the pool holds
  -- at either time and whenever the work is interrupted. It is the block of the pending task, which
  -- has one receipt for each transaction.
  pub main_new_work-build_block :
      (signal later : ℕ → ℕ) (timestamp n : ℕ) (c c' : C) (b : EcBatcher Tx Receipt State Log)
      (state : State)
      → (backend.current_block c).header.number ≡ some n
      → backend.state_at (backend.current_block c).header.root c ≡ some state
      → n + 1 < u64_mod
      → (b1 : EcBatcher Tx Receipt State Log) × (blk : Block Tx) × (b2 : EcBatcher Tx Receipt State
          Log)
        × (main_new_work node backend config signal later timestamp c b ≡ ok b1)
        × (build_block node backend config n c' b1 ≡ ok (blk, b2))
        × (number_u64 blk ≡ n + 1)
        × (length blk.transactions ≤ max_ready_txs)
        × ((task : Task Tx Receipt State) × (b2.pending_task ≡ some task)
            × (task.block ≡ blk)
            × (length task.receipts ≡ length blk.transactions))
  main_new_work-build_block signal later timestamp n c c' b state number has_state small =
      let (
        b1, env, snapshot, works, here, counted, env_number, snap, same_txs, snap_number, parent,
        coinbase,
      ) =
        main_new_work_ok node backend config shrinks signal later timestamp n c b state number
          has_state in
      let is_next : number_u64 snapshot ≡ n + 1 =
        number_u64-some snapshot (n + 1) snap_number ∙ omega (arith, small) in
      let agrees : number_u64 snapshot ≡ big_uint64 env.header.number =
        number_u64-some snapshot (n + 1) snap_number ∙ sym (ap big_uint64 env_number) in
      let (blk, b2, builds, num, few, kept, task) =
        build_block_ok node backend config shrinks n c' b1 env snapshot here snap agrees counted
          (omega (arith, is_next)) in
      (b1, blk, b2, works, builds, num ∙ is_next, few, task)
