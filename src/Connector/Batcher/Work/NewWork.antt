-- ===== src/Connector/Batcher/Work/NewWork.antt =====
-- ecconnector/batcher.go: the snapshot that a new unit of work leaves.
use ecgeth.Base.{
  ℕ, ◌+◌, ◌≡◌, refl, ◌∙◌, ap, Bool, false, Option, none, some, List, [], ◌∷◌, Address, arith,
  Bool-cases, inl, inr,
}
use ecgeth.Base.Outcome.{ok, then_ok}
use ecgeth.Params.Config.{ChainConfig}
use ecgeth.Types.Header.{Header, copy_header, copy_big}
use ecgeth.Types.Block.{Block, block_hash, new_block}
use ecgeth.Ecpon.Engine.{prepare}
use ecgeth.Connector.Batcher.{Node, Shrinks, Environment}
use ecgeth.Connector.Batcher.Execute.{with_gas_pool}
use ecgeth.Connector.Batcher.Execute.Effects.{execute-KeepsRest}
use ecgeth.Connector.Batcher.Loops.{
  LoopEnd, interrupted, finished, end_env, suggested, commit_transactions,
}
use ecgeth.Connector.Batcher.Loops.Invariants.{Leaves, commit_transactions-Leaves}
use ecgeth.Connector.Batcher.Loops.Counts.{IsCounted, IsFirst, commit_transactions-IsFirst}
use ecgeth.Connector.Batcher.Pool.{split_locals}
use ecgeth.Connector.Batcher.Work.{
  EcBatcher, Task, Backend, from_fuel, end_commit, commit_group, commit_both, commit_pool, work_on,
  commit_new_work, main_new_work, update_snapshot, snapshot_of, new_header, make_current,
}

module _ {Tx Receipt State : Type 0} where
  -- The environment is one for the block of the header `h`.
  pub record IsFor (h : Header) (env : Environment Tx Receipt State) : Type 0 where
    pub number : env.header.number ≡ h.number
    pub parent : env.header.parent_hash ≡ h.parent_hash
    pub coinbase : env.header.coinbase ≡ h.coinbase

  with_gas_pool-IsFor :
      (h : Header) (env : Environment Tx Receipt State) → IsFor h env → IsFor h (with_gas_pool env)
  unfolding with_gas_pool
  with_gas_pool-IsFor h env i = ground arith

module _ {C Tx Receipt State TxSet Log : Type 0} (node : Node Tx Receipt State TxSet Log)
    (backend : Backend C Tx Receipt State Log) (config : ChainConfig) where
  abbrev Env : Type 0
  Env = Environment Tx Receipt State

  abbrev Batcher : Type 0
  Batcher = EcBatcher Tx Receipt State Log

  commit_transactions-IsFor :
      (coinbase : Address) (h : Header) (signal : ℕ → ℕ) (env : Env) (txs : TxSet)
      → IsFor h env
      → Leaves (IsFor h) (commit_transactions node config coinbase signal env txs)
  commit_transactions-IsFor coinbase h signal env txs i =
      commit_transactions-Leaves node config coinbase (IsFor h)
        (λ e tx p. record { number = p.number; parent = p.parent; coinbase = p.coinbase })
        (λ e tx ts p few.
          let rest = execute-KeepsRest node tx coinbase (suggested node config coinbase e tx) ts in
          record {
            number = rest.same_number ∙ p.number;
            parent = rest.same_parent ∙ p.parent;
            coinbase = rest.same_coinbase ∙ p.coinbase;
          })
        signal env txs (with_gas_pool-IsFor h env i)

  end_commit-currentenv :
      (b : Batcher) (end : LoopEnd Env Log)
      → (end_commit node backend config b end).1.currentenv ≡ some (end_env end)
  unfolding end_commit
  end_commit-currentenv b (interrupted signal env) = refl
  end_commit-currentenv b (finished env logs) = refl

  end_commit-pending_task :
      (b : Batcher) (end : LoopEnd Env Log)
      → (end_commit node backend config b end).1.pending_task ≡ b.pending_task
  unfolding end_commit
  end_commit-pending_task b (interrupted signal env) = refl
  end_commit-pending_task b (finished env logs) = refl

  -- The batcher works on a counted environment for the block of `h`, and has the pending task `task`.
  pub record IsWorking (task : Option (Task Tx Receipt State)) (h : Header) (b : Batcher)
      : Type 0 where
    pub same_task : b.pending_task ≡ task
    pub env : Env
    pub here : b.currentenv ≡ some env
    pub first : IsFirst env
    pub is_for : IsFor h env

  module _ (shrinks : Shrinks node) (task : Option (Task Tx Receipt State)) (h : Header)
      (coinbase : Address) where
    commit_group-IsWorking :
        (signal : ℕ → ℕ) (gs : List (Address × List Tx)) (b : Batcher)
        → IsWorking task h b
        → (stop : Bool) × (b' : Batcher) × (commit_group node backend config signal coinbase gs b
            ≡ ok (stop, b'))
          × IsWorking task h b'
    unfolding commit_group from_fuel
    commit_group-IsWorking signal [] b w = (false, b, refl, w)
    commit_group-IsWorking signal (g ∷ gs) b w =
        let txs = node.by_price_and_nonce (g ∷ gs) in
        let (end, e, first) =
          commit_transactions-IsFirst node config coinbase shrinks signal w.env txs w.first in
        let kept = (commit_transactions-IsFor coinbase h signal w.env txs w.is_for).at end e in
        let (stop, b') = end_commit node backend config b end in
        (
          stop,
          b',
          rw (w.here, commit_group, e, from_fuel) refl,
          record {
            env = end_env end;
            here = end_commit-currentenv b end;
            same_task = end_commit-pending_task b end ∙ w.same_task;
            first = first;
            is_for = kept;
          },
        )

    commit_both-IsWorking :
        (signal later : ℕ → ℕ) (local_txs remote_txs : List (Address × List Tx)) (b : Batcher)
        → IsWorking task h b
        → (b' : Batcher) × (commit_both node backend config signal later coinbase
              (local_txs, remote_txs)
              b
            ≡ ok b')
          × IsWorking task h b'
    unfolding commit_both
    commit_both-IsWorking signal later local_txs remote_txs b w =
        let (stop, b1, e1, w1) = commit_group-IsWorking signal local_txs b w in
        let (stop2, b2, e2, w2) = commit_group-IsWorking later remote_txs b1 w1 in
        elim (Bool-cases stop) [
          | inl yes' ↦ (b1, then_ok _ e1 (rw yes' refl), w1)
          | inr no' ↦ (b2, then_ok _ e1 (rw no' (then_ok _ e2 refl)), w2)
        ]

    commit_pool-IsWorking :
        (signal later : ℕ → ℕ) (accounts : List Address) (pool : Option (List (Address × List Tx)))
        (b : Batcher)
        → IsWorking task h b
        → (b' : Batcher) × (commit_pool node backend config signal later coinbase accounts pool b
            ≡ ok b')
          × IsWorking task h b'
    unfolding commit_pool
    commit_pool-IsWorking signal later accounts none b w = (b, refl, w)
    commit_pool-IsWorking signal later accounts (some []) b w = (b, refl, w)
    commit_pool-IsWorking signal later accounts (some (g ∷ gs)) b w =
        let split = split_locals accounts ([], g ∷ gs) in
        commit_both-IsWorking signal later split.0 split.1 b w

  module _ (shrinks : Shrinks node) where
    make_current-IsFirst :
        (h : Header) (state : State) → IsFirst (make_current node backend config h state)
    unfolding make_current
    make_current-IsFirst h state = record {
      counted = record {
        txs_counted = refl;
        receipts_counted = refl;
        suggested_first = omega arith;
        limited = omega arith;
      };
      first = refl;
    }

    make_current-IsFor :
        (h : Header) (state : State) → IsFor h (make_current node backend config h state)
    unfolding make_current
    make_current-IsFor h state = record { number = refl; parent = refl; coinbase = refl }

    -- The header of the new block, prepared by the engine.
    abbrev pub prepared : Block Tx → ℕ → ℕ → Address → Header
    prepared parent n timestamp coinbase =
        prepare (new_header node backend config parent n timestamp coinbase)

    pub commit_new_work-IsWorking :
        (signal later : ℕ → ℕ) (timestamp n : ℕ) (c : C) (b : Batcher) (state : State)
        → (backend.current_block c).header.number ≡ some n
        → backend.state_at (backend.current_block c).header.root c ≡ some state
        → (b' : Batcher) × (commit_new_work node backend config signal later timestamp c b ≡ ok b')
          × IsWorking b.pending_task (prepared (backend.current_block c) n timestamp b.coinbase) b'
    unfolding commit_new_work work_on
    commit_new_work-IsWorking signal later timestamp n c b state number has_state =
        let h = prepared (backend.current_block c) n timestamp b.coinbase in
        let env = make_current node backend config h state in
        let (b', e, w) =
          commit_pool-IsWorking shrinks b.pending_task h b.coinbase signal later (backend.locals c)
            (backend.pending c) (record b { currentenv = some env })
            (record {
              env = env;
              here = refl;
              same_task = refl;
              first = make_current-IsFirst h state;
              is_for = make_current-IsFor h state;
            }) in
        let run = work_on node backend config signal later timestamp c (backend.current_block c) in
        (
          b',
          ap (λ o. run o (backend.state_at (backend.current_block c).header.root c) b) number
              ∙ ap (λ o. run (some n) o b) has_state
              ∙ e,
          w,
        )

    -- Where the state of the parent is there, `mainLoop` ends the new unit of work, whatever the pool
    -- holds and whenever it is interrupted. The environment is counted and for the number after the
    -- parent's. The snapshot is its block: the transactions are the same, it is the block after the
    -- parent, and its coinbase is 0, whichever one was set.
    pub main_new_work_ok :
        (signal later : ℕ → ℕ) (timestamp n : ℕ) (c : C) (b : Batcher) (state : State)
        → (backend.current_block c).header.number ≡ some n
        → backend.state_at (backend.current_block c).header.root c ≡ some state
        → (b' : Batcher) × (env : Env) × (blk : Block Tx) × (main_new_work node backend config
              signal later timestamp c b
            ≡ ok b')
          × (b'.currentenv ≡ some env)
          × IsCounted env
          × (env.header.number ≡ some (n + 1))
          × (b'.snapshot_block ≡ some blk)
          × (blk.transactions ≡ env.txs)
          × (blk.header.number ≡ some (n + 1))
          × (blk.header.parent_hash ≡ (block_hash node.hashing (backend.current_block c)).0)
          × (blk.header.coinbase ≡ 0)
    unfolding main_new_work update_snapshot snapshot_of new_block copy_header prepare new_header
    main_new_work_ok signal later timestamp n c b state number has_state =
        let (b1, e, w) =
          commit_new_work-IsWorking signal later timestamp n c b state number has_state in
        let env = record w.env { f_tcount_c = w.env.tcount } in
        let snapshot = snapshot_of node backend config env in
        (
          record b1 {
            currentenv = some env;
            snapshot_block = some snapshot;
            snapshot_state = some env.state;
          },
          env,
          snapshot,
          then_ok _ e (rw w.here refl),
          refl,
          record {
            txs_counted = w.first.counted.txs_counted;
            receipts_counted = w.first.counted.receipts_counted;
            suggested_first = w.first.counted.suggested_first;
            limited = w.first.counted.limited;
          },
          w.is_for.number,
          refl,
          refl,
          ap copy_big w.is_for.number,
          w.is_for.parent,
          w.is_for.coinbase,
        )
