-- ===== src/Connector/Batcher/Build/Candidate.antt =====
-- ecconnector/batcher.go: the candidate block that `buildBlock` returns.
use ecgeth.Base.{
  ℕ, ◌≡◌, ◌≤◌, ◌<◌, refl, sym, ◌∙◌, ap, true, false, Option, some, List, [], ◌∷◌, Address, arith,
  leb, length, Option-cases, inl, inr,
}
use ecgeth.Base.Outcome.{Outcome, ok, then_ok}
use ecgeth.Params.Config.{ChainConfig}
use ecgeth.Types.Header.{copy_header}
use ecgeth.Types.Block.{Block, big_uint64, number_u64, new_block, txs_root}
use ecgeth.Ecpon.Engine.Seal.{big_uint64-copy_big}
use ecgeth.Ecpon.Engine.{finalize, finalize_and_assemble}
use ecgeth.Connector.Batcher.{Node, Shrinks, Environment, max_ready_txs}
use ecgeth.Connector.Batcher.Execute.{with_gas_pool}
use ecgeth.Connector.Batcher.Execute.Effects.{execute-KeepsRest}
use ecgeth.Connector.Batcher.Loops.{seen, counted_new, update_transactions}
use ecgeth.Connector.Batcher.Loops.Invariants.{LeavesEnv, update_transactions-Leaves}
use ecgeth.Connector.Batcher.Loops.Counts.{IsCounted, update_transactions-IsCounted}
use ecgeth.Connector.Batcher.Pool.{split_locals}
use ecgeth.Connector.Batcher.Work.{
  EcBatcher, Task, Backend, WorkError, from_fuel, update_snapshot, snapshot_of,
}
use ecgeth.Connector.Batcher.Build.{
  update_group, update_new_work, commit, build_on, build_at, build_block,
}

module _ {Tx Receipt State : Type 0} where
  record NumberIs (number : Option ℕ) (env : Environment Tx Receipt State) : Type 0 where
    pub same : env.header.number ≡ number

  with_gas_pool-number :
      (env : Environment Tx Receipt State) → (with_gas_pool env).header.number ≡ env.header.number
  unfolding with_gas_pool
  with_gas_pool-number env = ground arith

module _ {C Tx Receipt State TxSet Log : Type 0} (node : Node Tx Receipt State TxSet Log)
    (backend : Backend C Tx Receipt State Log) (config : ChainConfig) where
  abbrev Env : Type 0
  Env = Environment Tx Receipt State

  abbrev Batcher : Type 0
  Batcher = EcBatcher Tx Receipt State Log

  update_transactions-NumberIs :
      (coinbase : Address) (env : Env) (txs : TxSet)
      → LeavesEnv (NumberIs env.header.number) (update_transactions node config coinbase env txs)
  update_transactions-NumberIs coinbase env txs =
      update_transactions-Leaves node config coinbase (NumberIs env.header.number)
        (λ e p. record { same = p.same }) (λ e p. record { same = p.same })
        (λ e tx ts p few fresh. record {
          same =
              (execute-KeepsRest node tx coinbase
                (counted_new node config coinbase (seen node config coinbase e)) ts).same_number
              ∙ p.same;
        })
        env txs (record { same = with_gas_pool-number env })

  module _ (shrinks : Shrinks node) where
    -- A step that leaves an environment as well counted, with the same block number.
    record Follows (env : Env) (b : Batcher) (o : Outcome WorkError Batcher) : Type 0 where
      pub env' : Env
      pub gives : o ≡ ok (record b { currentenv = some env' })
      pub counted : IsCounted env'
      pub same_number : env'.header.number ≡ env.header.number

    update_group-Follows :
        (gs : List (Address × List Tx)) (env : Env) (b : Batcher)
        → IsCounted env
        → Follows env b (update_group node backend config gs (record b { currentenv = some env }))
    unfolding update_group from_fuel
    update_group-Follows [] env b c = record {
      env' = env;
      gives = refl;
      counted = c;
      same_number = refl;
    }
    update_group-Follows (g ∷ gs) env b c =
        let txs = node.by_price_and_nonce (g ∷ gs) in
        let (env', e, c') =
          update_transactions-IsCounted node config b.coinbase shrinks env txs c in
        record {
          env' = env';
          gives = rw e refl;
          counted = c';
          same_number = ((update_transactions-NumberIs b.coinbase env txs).at env' e).same;
        }

    update_new_work-Follows :
        (c : C) (env : Env) (b : Batcher)
        → IsCounted env
        → Follows env b (update_new_work node backend config c (record b { currentenv = some env }))
    unfolding update_new_work
    update_new_work-Follows c env b counted = elim (Option-cases (backend.pending c)) [
      | inl no_pool ↦
          rw (no_pool, update_new_work)
            (record { env' = env; gives = refl; counted = counted; same_number = refl })
      | inr (txs, e) ↦
          let split = split_locals (backend.locals c) ([], txs) in
          let first = update_group-Follows split.0 env b counted in
          let second = update_group-Follows split.1 first.env' b first.counted in
          rw (e, update_new_work, first.gives)
            (record {
              env' = second.env';
              gives = second.gives;
              counted = second.counted;
              same_number = second.same_number ∙ first.same_number;
            })
    ]

    -- The environment that `commit` leaves.
    abbrev committed : Env → Env
    committed env =
        let header =
          (finalize_and_assemble node.hashing config node.intermediate_root env.header env.state
            env.txs env.receipts).1 in
        record env { header = header }

    committed-IsCounted : (env : Env) → IsCounted env → IsCounted (committed env)
    committed-IsCounted env c = record {
      txs_counted = c.txs_counted;
      receipts_counted = c.receipts_counted;
      suggested_first = c.suggested_first;
      limited = c.limited;
    }

    committed-number : (env : Env) → (committed env).header.number ≡ env.header.number
    unfolding finalize_and_assemble finalize
    committed-number env = refl

    commit_ok :
        (env : Env) (b : Batcher)
        → (blk : Block Tx) × (b' : Batcher) × (commit node backend config
              (record b { currentenv = some env })
            ≡ ok (blk, b'))
          × (number_u64 blk ≡ big_uint64 env.header.number)
          × (blk.transactions ≡ env.txs)
          × (blk.header.tx_hash ≡ txs_root node.hashing env.txs)
          × (b'.currentenv ≡ some (committed env))
          × (b'.snapshot_block ≡ some blk)
          × ((task : Task Tx Receipt State) × (b'.pending_task ≡ some task)
              × (task.block ≡ blk)
              × (task.receipts ≡ env.receipts))
    unfolding commit update_snapshot snapshot_of finalize_and_assemble finalize number_u64 new_block
        copy_header
    commit_ok env b = (
      _,
      _,
      refl,
      big_uint64-copy_big env.header.number,
      refl,
      refl,
      refl,
      refl,
      (_, refl, refl, refl),
    )

    -- What a batcher holds of a block that it returns.
    pub record Built (env : Env) (blk : Block Tx) (b : Batcher) : Type 0 where
      pub number : number_u64 blk ≡ big_uint64 env.header.number
      pub limited : length blk.transactions ≤ max_ready_txs
      pub root : blk.header.tx_hash ≡ txs_root node.hashing blk.transactions
      pub left : Env
      pub here : b.currentenv ≡ some left
      pub left_counted : IsCounted left
      pub left_number : left.header.number ≡ env.header.number
      pub snapshot : b.snapshot_block ≡ some blk
      pub task : Task Tx Receipt State
      pub pending : b.pending_task ≡ some task
      pub same : task.block ≡ blk
      pub receipts : length task.receipts ≡ length blk.transactions

    pub build_on-Built :
        (c : C) (b : Batcher) (env : Env)
        → IsCounted env
        → (blk : Block Tx) × (b' : Batcher) × (build_on node backend config c
              (record b { currentenv = some env })
            ≡ ok (blk, b'))
          × Built env blk b'
    unfolding build_on
    build_on-Built c b env counted =
        let processing = record b { is_build_block_processing = true } in
        let updated = update_new_work-Follows c env processing counted in
        let (blk, b', gives, num, txs, root, here, snap, (task, pending, same, receipts)) =
          commit_ok updated.env' processing in
        let enough = updated.counted in
        let finish : Block Tx × Batcher → Outcome WorkError (Block Tx × Batcher) =
          λ x. ok (x.0, record x.1 { is_build_block_processing = false }) in
        (
          blk,
          record b' { is_build_block_processing = false },
          then_ok _ updated.gives (then_ok finish gives refl),
          record {
            number = num ∙ ap big_uint64 updated.same_number;
            limited = rw txs (omega (arith, enough.txs_counted, enough.limited));
            root = root ∙ ap (txs_root node.hashing) (sym txs);
            left = committed updated.env';
            here = here;
            left_counted = committed-IsCounted updated.env' updated.counted;
            left_number = committed-number updated.env' ∙ updated.same_number;
            snapshot = snap;
            task = task;
            pending = pending;
            same = same;
            receipts =
                ap length receipts
                ∙ enough.receipts_counted
                ∙ sym enough.txs_counted
                ∙ ap length (sym txs);
          },
        )

    build_at_above :
        (current : ℕ) (c : C) (pending_block : Block Tx) (b : Batcher)
        → current < number_u64 pending_block
        → build_at node backend config current c (some pending_block) b
          ≡ build_on node backend config c b
    unfolding build_at
    build_at_above current c pending_block b above =
        let low : leb (number_u64 pending_block) current ≡ false = ground arith in rw low refl

    -- Whatever the pool holds, `buildBlock` above a snapshot of the current environment, whose
    -- transactions are counted and are at most 20480, returns a block with the number of the
    -- snapshot, which is above `current`, and with at most 20480 transactions. This block is the new
    -- snapshot and that of the pending task, which has one receipt for each transaction.
    pub build_block_ok :
        (current : ℕ) (c : C) (b : Batcher) (env : Env) (pending_block : Block Tx)
        → b.currentenv ≡ some env
        → b.snapshot_block ≡ some pending_block
        → number_u64 pending_block ≡ big_uint64 env.header.number
        → IsCounted env
        → current < number_u64 pending_block
        → (blk : Block Tx) × (b' : Batcher) × (build_block node backend config current c b
            ≡ ok (blk, b'))
          × (number_u64 blk ≡ number_u64 pending_block)
          × (length blk.transactions ≤ max_ready_txs)
          × (b'.snapshot_block ≡ some blk)
          × ((task : Task Tx Receipt State) × (b'.pending_task ≡ some task)
              × (task.block ≡ blk)
              × (length task.receipts ≡ length blk.transactions))
    unfolding build_block
    build_block_ok current c b env pending_block here snapshot number counted above =
        let again : b ≡ record b { currentenv = some env } =
          ap {B = Batcher} (λ e. record b { currentenv = e }) here in
        let (blk, b', gives, built) = build_on-Built c b env counted in
        (
          blk,
          b',
          ap (λ o. build_at node backend config current c o b) snapshot
              ∙ build_at_above current c pending_block b above
              ∙ ap (build_on node backend config c) again
              ∙ gives,
          built.number ∙ sym number,
          built.limited,
          built.snapshot,
          (built.task, built.pending, built.same, built.receipts),
        )
