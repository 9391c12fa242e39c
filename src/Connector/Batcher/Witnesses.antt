-- ===== src/Connector/Batcher/Witnesses.antt =====
-- ecconnector/batcher.go: the theorems on the batcher, at a concrete node.
use ecgeth.Base.{
  ℕ, ◌≡◌, ◌≤◌, refl, some, List, [], ◌∷◌, ◌++◌, length, All, if◌then◌else◌, Address, arith,
}
use ecgeth.Base.Outcome.{ok}
use ecgeth.Connector.Batcher.{Environment}
use ecgeth.Connector.Batcher.Loops.{LoopEnd, end_env, commit_transactions, update_transactions}
use ecgeth.Connector.Batcher.Loops.Counts.{
  IsCounted, IsFirst, commit_transactions-IsFirst, update_transactions-IsCounted,
}
use ecgeth.Connector.Batcher.Loops.Fresh.{
  Fresh, AllTaken, commit_transactions-AllTaken, update_transactions-Fresh,
}
use ecgeth.Types.Block.{Block, block_hash, number_u64, big_uint64}
use ecgeth.Connector.Batcher.{max_ready_txs}
use ecgeth.Connector.Batcher.Pool.{txs_of, split_locals}
use ecgeth.Connector.Batcher.Pool.Split.{is_local, split_locals-txs_of}
use ecgeth.Connector.Batcher.Work.{EcBatcher, Task, main_new_work}
use ecgeth.Connector.Batcher.Work.NewWork.{main_new_work_ok}
use ecgeth.Connector.Batcher.Build.{build_block}
use ecgeth.Connector.Batcher.Build.Candidate.{build_block_ok}
use ecgeth.Connector.Batcher.Build.Cycle.{main_new_work-build_block}
use ecgeth.Connector.Batcher.WorkLoop.{
  WorkEvent, started, chain_head, timer_fired, start_loop, after_work_events,
}
use ecgeth.Connector.Batcher.WorkLoop.Interrupts.{OnlyLatestRuns, after_work_events-OnlyLatestRuns}
use ecgeth.Connector.Batcher.Example.{
  node, node-Shrinks, config, start, under_way, pool, quiet, parent, backend, snapshot, batcher,
}

start-IsFirst : IsFirst start
start-IsFirst = record {
  counted = record {
    txs_counted = refl;
    receipts_counted = refl;
    suggested_first = omega arith;
    limited = omega arith;
  };
  first = refl;
}

under_way-IsCounted : IsCounted under_way
under_way-IsCounted = record {
  txs_counted = refl;
  receipts_counted = refl;
  suggested_first = omega arith;
  limited = omega arith;
}

commit_transactions-IsFirst_example :
    (end : LoopEnd (Environment ℕ ℕ ℕ) ℕ) × (commit_transactions node config 0 quiet start pool
      ≡ some end)
    × IsFirst (end_env end)
commit_transactions-IsFirst_example =
    commit_transactions-IsFirst node config 0 node-Shrinks quiet start pool start-IsFirst

update_transactions-IsCounted_example :
    (env' : Environment ℕ ℕ ℕ) × (update_transactions node config 0 under_way pool ≡ some env')
    × IsCounted env'
update_transactions-IsCounted_example =
    update_transactions-IsCounted node config 0 node-Shrinks under_way pool under_way-IsCounted

commit_transactions-AllTaken_example :
    (end : LoopEnd (Environment ℕ ℕ ℕ) ℕ) × (commit_transactions node config 0 quiet start pool
      ≡ some end)
    × AllTaken node (end_env end)
commit_transactions-AllTaken_example =
    commit_transactions-AllTaken node config 0 node-Shrinks quiet start pool tt

update_transactions-Fresh_example :
    (env' : Environment ℕ ℕ ℕ) × (update_transactions node config 0 under_way pool ≡ some env')
    × ((new : List ℕ) × (env'.txs ≡ under_way.txs ++ new)
        × All (Fresh node under_way.processed_txs) new)
    × (env'.processed_txs ≡ under_way.processed_txs)
update_transactions-Fresh_example =
    update_transactions-Fresh node config 0 node-Shrinks under_way pool

abbrev pool_map : List (Address × List ℕ)
pool_map = (1, 3 ∷ 4 ∷ []) ∷ (2, 5 ∷ []) ∷ []

split_locals-txs_of_example :
    (txs_of 2 (split_locals (1 ∷ 9 ∷ []) ([], pool_map)).0
      ≡ (if is_local 2 (1 ∷ 9 ∷ []) then txs_of 2 pool_map else []))
    × (txs_of 2 (split_locals (1 ∷ 9 ∷ []) ([], pool_map)).1
        ≡ (if is_local 2 (1 ∷ 9 ∷ []) then [] else txs_of 2 pool_map))
split_locals-txs_of_example = split_locals-txs_of 2 (1 ∷ 9 ∷ []) pool_map

main_new_work_ok_example :
    (b' : EcBatcher ℕ ℕ ℕ ℕ) × (env : Environment ℕ ℕ ℕ) × (blk : Block ℕ) × (main_new_work node
        backend config quiet quiet 1000 0 batcher
      ≡ ok b')
    × (b'.currentenv ≡ some env)
    × IsCounted env
    × (env.header.number ≡ some 5)
    × (b'.snapshot_block ≡ some blk)
    × (blk.transactions ≡ env.txs)
    × (blk.header.number ≡ some 5)
    × (blk.header.parent_hash ≡ (block_hash node.hashing parent).0)
    × (blk.header.coinbase ≡ 0)
main_new_work_ok_example =
    main_new_work_ok node backend config node-Shrinks quiet quiet 1000 4 0 batcher 6 refl refl

numbers_agree : number_u64 snapshot ≡ big_uint64 under_way.header.number
unfolding number_u64
numbers_agree = refl

build_block_ok_example :
    (blk : Block ℕ) × (b' : EcBatcher ℕ ℕ ℕ ℕ) × (build_block node backend config 4 0 batcher
      ≡ ok (blk, b'))
    × (number_u64 blk ≡ number_u64 snapshot)
    × (length blk.transactions ≤ max_ready_txs)
    × (b'.snapshot_block ≡ some blk)
    × ((task : Task ℕ ℕ ℕ) × (b'.pending_task ≡ some task)
        × (task.block ≡ blk)
        × (length task.receipts ≡ length blk.transactions))
build_block_ok_example =
    build_block_ok node backend config node-Shrinks 4 0 batcher under_way snapshot refl refl
      numbers_agree under_way-IsCounted (rw numbers_agree (omega arith))

abbrev heads : List WorkEvent
heads = timer_fired ∷ chain_head 1010 ∷ chain_head 1005 ∷ started 1000 ∷ []

after_work_events-OnlyLatestRuns_example :
    OnlyLatestRuns (after_work_events (start_loop batcher) heads).interrupts
    × (length (after_work_events (start_loop batcher) heads).requests
        ≡ length (after_work_events (start_loop batcher) heads).interrupts)
    × ((after_work_events (start_loop batcher) heads).batcher.new_txs ≡ 0)
after_work_events-OnlyLatestRuns_example = after_work_events-OnlyLatestRuns batcher heads refl

main_new_work-build_block_example :
    (b1 : EcBatcher ℕ ℕ ℕ ℕ) × (blk : Block ℕ) × (b2 : EcBatcher ℕ ℕ ℕ ℕ) × (main_new_work node
        backend config quiet quiet 1000 0 batcher
      ≡ ok b1)
    × (build_block node backend config 4 0 b1 ≡ ok (blk, b2))
    × (number_u64 blk ≡ 5)
    × (length blk.transactions ≤ max_ready_txs)
    × ((task : Task ℕ ℕ ℕ) × (b2.pending_task ≡ some task)
        × (task.block ≡ blk)
        × (length task.receipts ≡ length blk.transactions))
main_new_work-build_block_example =
    main_new_work-build_block node backend config node-Shrinks quiet quiet 1000 4 0 0 batcher 6 refl
      refl (omega arith)
