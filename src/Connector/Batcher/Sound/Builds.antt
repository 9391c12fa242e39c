-- ===== src/Connector/Batcher/Sound/Builds.antt =====
-- ecconnector/batcher.go: what holds of the batcher behind `buildBlock`.
use ecgeth.Base.{
  ℕ, ◌≡◌, ◌≤◌, ◌<◌, refl, sym, ◌∙◌, ap, subst, Option, none, some, arith, length, leb, inl, inr,
  Bool-cases,
}
use ecgeth.Base.Outcome.{Outcome, ok}
use ecgeth.Params.Config.{ChainConfig}
use ecgeth.Types.Block.{Block, number_u64, big_uint64, txs_root}
use ecgeth.Connector.Batcher.{Node, Shrinks, Environment, max_ready_txs}
use ecgeth.Connector.Batcher.Loops.Counts.{IsCounted}
use ecgeth.Connector.Batcher.Work.{EcBatcher, Task, Backend, WorkError}
use ecgeth.Connector.Batcher.Build.{build_on, build_at, build_block}
use ecgeth.Connector.Batcher.Build.Candidate.{Built, build_on-Built}
use ecgeth.Connector.Batcher.Sound.{IsTask, IsSound}

module _ {C Tx Receipt State TxSet Log : Type 0} (node : Node Tx Receipt State TxSet Log)
    (backend : Backend C Tx Receipt State Log) (config : ChainConfig) where
  abbrev Env : Type 0
  Env = Environment Tx Receipt State

  abbrev Batcher : Type 0
  Batcher = EcBatcher Tx Receipt State Log

  module _ (shrinks : Shrinks node) where
    Built-IsSound :
        (env : Env) (blk : Block Tx) (b' : Batcher)
        → Built node backend config shrinks env blk b'
        → IsSound node backend config b'
    Built-IsSound env blk b' built = record {
      env_counted = λ e' here'.
          let same_env : built.left ≡ e' = cc (here', built.here) in
          subst IsCounted same_env built.left_counted;
      snapshot_number = λ p snap'.
          let same_p : blk ≡ p = cc (snap', built.snapshot) in
          (
            built.left,
            built.here,
            subst (λ x. number_u64 x ≡ big_uint64 built.left.header.number) same_p
                (built.number ∙ ap big_uint64 (sym built.left_number)),
          );
      task_sound = λ task pending.
          let same_task : built.task ≡ task = cc (pending, built.pending) in
          subst (IsTask node backend config) same_task (record {
            receipts = built.receipts ∙ ap (λ x. length x.transactions) (sym built.same);
            limited =
                subst (λ x. length x.transactions ≤ max_ready_txs) (sym built.same) built.limited;
            root =
                subst (λ x. x.header.tx_hash ≡ txs_root node.hashing x.transactions)
                  (sym built.same) built.root;
          });
    }

    build_on-IsSound :
        (c : C) (b b' : Batcher) (blk : Block Tx)
        → IsSound node backend config b
        → build_on node backend config c b ≡ ok (blk, b')
        → (env : Env) → b.currentenv ≡ some env
        → IsSound node backend config b' × Built node backend config shrinks env blk b'
    build_on-IsSound c b b' blk s e env here =
        let again : record b { currentenv = some env } ≡ b =
          ap {B = Batcher} (λ x. record b { currentenv = x }) (sym here) in
        let (blk1, b1, gives, built) =
          build_on-Built node backend config shrinks c b env (s.env_counted env here) in
        let found : ◌≡◌ {A = Outcome WorkError (Block Tx × Batcher)} (ok (blk1, b1))
            (ok (blk, b')) =
          sym gives ∙ ap (build_on node backend config c) again ∙ e in
        let same_blk : blk1 ≡ blk = cc found in
        let same : b1 ≡ b' = cc found in
        let built' =
          subst (λ x. Built node backend config shrinks env x b') same_blk
            (subst (Built node backend config shrinks env blk1) same built) in
        (Built-IsSound env blk b' built', built')

    -- What a `buildBlock` that returns `blk` has left, given the block that the caller has.
    pub record Builds (current : ℕ) (blk : Block Tx) (b' : Batcher) : Type 0 where
      pub sound : IsSound node backend config b'
      pub above : current < number_u64 blk
      pub task : Task Tx Receipt State
      pub pending : b'.pending_task ≡ some task
      pub same : task.block ≡ blk

    build_at-Builds :
        (current : ℕ) (c : C) (b b' : Batcher) (blk : Block Tx) (o : Option (Block Tx))
        → IsSound node backend config b
        → b.snapshot_block ≡ o
        → build_at node backend config current c o b ≡ ok (blk, b')
        → Builds current blk b'
    unfolding build_at
    build_at-Builds current c b b' blk none s snap e = absurd (cc e)
    build_at-Builds current c b b' blk (some p) s snap e =
        elim (Bool-cases (leb (number_u64 p) current)) [
          | inl low ↦ absurd (ground (arith, rw low at e))
          | inr high ↦
              let (env, here, number) = s.snapshot_number p snap in
              let (sound, built) = build_on-IsSound c b b' blk s (rw high at e) env here in
              let above : current < number_u64 p = ground arith in
              record {
                sound = sound;
                above = omega (arith, above, number, built.number);
                task = built.task;
                pending = built.pending;
                same = built.same;
              }
        ]

    -- A block that `buildBlock` returns is above the block of the caller, and is that of the pending
    -- task.
    pub build_block-Builds :
        (current : ℕ) (c : C) (b b' : Batcher) (blk : Block Tx)
        → IsSound node backend config b
        → build_block node backend config current c b ≡ ok (blk, b')
        → Builds current blk b'
    unfolding build_block
    build_block-Builds current c b b' blk s e =
        build_at-Builds current c b b' blk b.snapshot_block s refl e
