-- ===== src/Connector/System/Located.antt =====
-- ecconnector: the batcher keeps what holds of it when the receipts of its pending task are located in
-- a block.
use ecgeth.Base.{◌≡◌, refl, ◌∙◌, ap, subst, Option, none, some, List, length}
use ecgeth.Params.Config.{ChainConfig}
use ecgeth.Types.Block.{Block, block_hash}
use ecgeth.Connector.Batcher.{Node}
use ecgeth.Connector.Batcher.Work.{EcBatcher, Task, Backend}
use ecgeth.Connector.Batcher.Sound.{IsTask, IsSound}
use ecgeth.Connector.Batcher.Build.{located}
use ecgeth.Connector.Api.Candidate.{length-located, with_located}

module _ {C Tx Receipt State TxSet Log : Type 0} (node : Node Tx Receipt State TxSet Log)
    (backend : Backend C Tx Receipt State Log) (config : ChainConfig) where
  pub located-IsSound :
      (b : EcBatcher Tx Receipt State Log) (task : Task Tx Receipt State) (receipts : List Receipt)
      → b.pending_task ≡ some task
      → length receipts ≡ length task.receipts
      → IsSound node backend config b
      → IsSound node backend config
          (record b { pending_task = some (record task { receipts = receipts }) })
  located-IsSound b task receipts pending counted s =
      let sound = s.task_sound task pending in
      record {
        env_counted = s.env_counted;
        snapshot_number = s.snapshot_number;
        task_sound = λ task' here.
            let same : record task { receipts = receipts } ≡ task' = cc here in
            subst (IsTask node backend config) same (record {
              receipts = counted ∙ sound.receipts;
              limited = sound.limited;
              root = sound.root;
            });
      }

  pub with_located-IsSound :
      (sealed : Block Tx) (b : EcBatcher Tx Receipt State Log) (o : Option (Task Tx Receipt State))
      → b.pending_task ≡ o
      → IsSound node backend config b
      → IsSound node backend config (with_located node backend config sealed b o)
  with_located-IsSound sealed b none e s = s
  with_located-IsSound sealed b (some task) e s =
      located-IsSound b task _ e (length-located node backend config _ _ 0 task.receipts) s

  -- The pending task then has the block of the one before.
  pub with_located-block :
      (sealed : Block Tx) (b : EcBatcher Tx Receipt State Log) (o : Option (Task Tx Receipt State))
      (task : Task Tx Receipt State)
      → b.pending_task ≡ o
      → (with_located node backend config sealed b o).pending_task ≡ some task
      → (old : Task Tx Receipt State) × (b.pending_task ≡ some old) × (old.block ≡ task.block)
  with_located-block sealed b none task e pending = (task, pending, refl)
  with_located-block sealed b (some old) task e pending =
      let same : record old {
        receipts =
            located node backend config (block_hash node.hashing sealed).0 sealed.header.number 0
              old.receipts;
      }
          ≡ task =
        cc pending in
      (old, e, ap (λ (t : Task Tx Receipt State). t.block) same)
