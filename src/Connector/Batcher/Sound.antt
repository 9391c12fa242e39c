-- ===== src/Connector/Batcher/Sound.antt =====
-- ecconnector/batcher.go: what holds of the batcher between two steps of its goroutines.
pub mod Builds
use ecgeth.Base.{
  ℕ, ◌≡◌, ◌≤◌, ◌<◌, refl, sym, ◌∙◌, ap, subst, true, false, Option, none, some, List, [], Hash,
  arith, length, leb, inl, inr, Option-cases, Bool-cases,
}
use ecgeth.Base.Outcome.{Outcome, ok, err, panics, ok_steps}
use ecgeth.Params.Config.{ChainConfig}
use ecgeth.Types.Header.{copy_header, copy_big}
use ecgeth.Types.Block.{Block, number_u64, big_uint64, txs_root, new_block}
use ecgeth.Ecpon.Engine.Seal.{big_uint64-copy_big}
use ecgeth.Connector.Batcher.{Node, Shrinks, Environment, max_ready_txs}
use ecgeth.Connector.Batcher.Loops.Counts.{IsCounted}
use ecgeth.Connector.Batcher.Work.{
  EcBatcher, Task, Backend, WorkError, clear_pending, work_on, commit_new_work, main_new_work,
  update_snapshot, snapshot_of,
}
use ecgeth.Connector.Batcher.Work.NewWork.{commit_new_work-IsWorking}
use ecgeth.Connector.Batcher.Build.{build_on, build_at, build_block}
use ecgeth.Connector.Batcher.Build.Candidate.{Built, build_on-Built}

module _ {C Tx Receipt State TxSet Log : Type 0} (node : Node Tx Receipt State TxSet Log)
    (backend : Backend C Tx Receipt State Log) (config : ChainConfig) where
  abbrev Env : Type 0
  Env = Environment Tx Receipt State

  abbrev Batcher : Type 0
  Batcher = EcBatcher Tx Receipt State Log

  -- The block of a task is within the limit, has the root of its transactions, and has one receipt
  -- for each of them.
  pub record IsTask (task : Task Tx Receipt State) : Type 0 where
    pub receipts : length task.receipts ≡ length task.block.transactions
    pub limited : length task.block.transactions ≤ max_ready_txs
    pub root : task.block.header.tx_hash ≡ txs_root node.hashing task.block.transactions

  -- The environment is counted, the snapshot has its number, and the pending task is as above.
  pub record IsSound (b : Batcher) : Type 0 where
    pub env_counted : (env : Env) → b.currentenv ≡ some env → IsCounted env
    pub snapshot_number :
        (pending_block : Block Tx)
        → b.snapshot_block ≡ some pending_block
        → (env : Env) × (b.currentenv ≡ some env)
          × (number_u64 pending_block ≡ big_uint64 env.header.number)
    pub task_sound : (task : Task Tx Receipt State) → b.pending_task ≡ some task → IsTask task

  pub clear_pending-IsSound : (b : Batcher) → IsSound b → IsSound (clear_pending b)
  unfolding clear_pending
  clear_pending-IsSound b s = record {
    env_counted = s.env_counted;
    snapshot_number = λ pending_block gone. absurd (cc gone);
    task_sound = λ task gone. absurd (cc gone);
  }

  snapshot_of-number :
      (env : Env) → number_u64 (snapshot_of node backend config env) ≡ big_uint64 env.header.number
  unfolding snapshot_of new_block number_u64 copy_header
  snapshot_of-number env = big_uint64-copy_big env.header.number

  module _ (shrinks : Shrinks node) where
    -- A step of new work leaves the pending task, and a counted environment.
    record Works (b b' : Batcher) : Type 0 where
      pub same_task : b'.pending_task ≡ b.pending_task
      pub env_counted : (env : Env) → b'.currentenv ≡ some env → IsCounted env

    work_on-Works :
        (signal later : ℕ → ℕ) (timestamp : ℕ) (c : C) (b b' : Batcher) (number : Option ℕ)
        (state : Option State)
        → (backend.current_block c).header.number ≡ number
        → backend.state_at (backend.current_block c).header.root c ≡ state
        → IsSound b
        → work_on node backend config signal later timestamp c
            (backend.current_block c)
            number
            state
            b
          ≡ ok b'
        → Works b b'
    unfolding work_on commit_new_work
    work_on-Works signal later timestamp c b b' none state n h s e = absurd (cc e)
    work_on-Works signal later timestamp c b b' (some number) none n h s e =
        let same : b ≡ b' = cc e in
        subst (Works b) same (record { same_task = refl; env_counted = s.env_counted })
    work_on-Works signal later timestamp c b b' (some number) (some state) n h s e =
        let (b1, e1, w) =
          commit_new_work-IsWorking node backend config shrinks signal later timestamp number c b
            state n h in
        let run = work_on node backend config signal later timestamp c (backend.current_block c) in
        let found : commit_new_work node backend config signal later timestamp c b ≡ ok b' =
          ap (λ o. run o (backend.state_at (backend.current_block c).header.root c) b) n
          ∙ ap (λ o. run (some number) o b) h
          ∙ e in
        let same : b1 ≡ b' = cc (e1, found) in
        subst (Works b) same (record {
          same_task = w.same_task;
          env_counted = λ env here. subst IsCounted (ground (arith, w.here, here)) w.first.counted;
        })

    commit_new_work-Works :
        (signal later : ℕ → ℕ) (timestamp : ℕ) (c : C) (b b' : Batcher)
        → IsSound b
        → commit_new_work node backend config signal later timestamp c b ≡ ok b'
        → Works b b'
    unfolding commit_new_work
    commit_new_work-Works signal later timestamp c b b' s e =
        work_on-Works signal later timestamp c b b' _ _ refl refl s e

    -- What `mainLoop` does behind `commitNewWork`.
    abbrev after_work : Batcher → Option Env → Outcome WorkError Batcher
    after_work b none = panics
    after_work b (some env) =
        update_snapshot node backend config
          (record b { currentenv = some (record env { f_tcount_c = env.tcount }) })

    after_work-IsSound :
        (b b1 b' : Batcher) (o : Option Env)
        → b1.currentenv ≡ o
        → IsSound b
        → Works b b1
        → after_work b1 o ≡ ok b'
        → IsSound b' × (b'.pending_task ≡ b.pending_task)
    unfolding update_snapshot
    after_work-IsSound b b1 b' none here s w e = absurd (cc e)
    after_work-IsSound b b1 b' (some env) here s w e =
        let env' = record env { f_tcount_c = env.tcount } in
        let left : Batcher = record b1 {
          currentenv = some env';
          snapshot_block = some (snapshot_of node backend config env');
          snapshot_state = some env'.state;
        } in
        let same : left ≡ b' = cc e in
        let counted = w.env_counted env here in
        let counted' : IsCounted env' = record {
          txs_counted = counted.txs_counted;
          receipts_counted = counted.receipts_counted;
          suggested_first = counted.suggested_first;
          limited = counted.limited;
        } in
        subst (λ x. IsSound x × (x.pending_task ≡ b.pending_task)) same
          (
            record {
              env_counted = λ e' here'.
                  let same_env : env' ≡ e' = cc here' in subst IsCounted same_env counted';
              snapshot_number = λ blk snap'.
                  let same_blk : snapshot_of node backend config env' ≡ blk = cc snap' in
                  (
                    env',
                    refl,
                    subst (λ x. number_u64 x ≡ big_uint64 env'.header.number) same_blk
                        (snapshot_of-number env'),
                  );
              task_sound = λ task pending. s.task_sound task (sym w.same_task ∙ pending);
            },
            w.same_task,
          )

    -- A new unit of work keeps the batcher as above, and the pending task with it, also where the
    -- state of the parent is gone.
    pub main_new_work-IsSound :
        (signal later : ℕ → ℕ) (timestamp : ℕ) (c : C) (b b' : Batcher)
        → IsSound b
        → main_new_work node backend config signal later timestamp c b ≡ ok b'
        → IsSound b' × (b'.pending_task ≡ b.pending_task)
    unfolding main_new_work
    main_new_work-IsSound signal later timestamp c b b' s e =
        let (b1, e1, e2) = ok_steps _ _ b' e in
        let w = commit_new_work-Works signal later timestamp c b b1 s e1 in
        elim (Option-cases b1.currentenv) [
          | inl gone ↦ absurd (ground (arith, rw gone at e2))
          | inr (env, here) ↦ after_work-IsSound b b1 b' (some env) here s w (rw here at e2)
        ]
