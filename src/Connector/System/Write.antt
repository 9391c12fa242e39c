-- ===== src/Connector/System/Write.antt =====
-- ecconnector: what `SealBlock` does by the chain's answer to the write of the sealed block.
use ecgeth.Base.{inl, inr, ◌⊎◌, Option, ◌≡◌, refl, ap, none, some, List, [], ◌∷◌, ◌++◌, length}
use ecgeth.Base.Outcome.{ok}
use ecgeth.Params.Config.{ChainConfig}
use ecgeth.Types.Block.{Block, block_hash}
use ecgeth.Connector.Batcher.{Node}
use ecgeth.Connector.Batcher.Work.{EcBatcher, Task, Backend}
use ecgeth.Connector.Batcher.Build.{insert_block, insert_with, keep_written, located, logs_of}
use ecgeth.Connector.Api.Candidate.{length-located}
use ecgeth.Connector.Api.{EcConnector, after_insert}

module _ {C Tx Receipt State TxSet Log : Type 0} (node : Node Tx Receipt State TxSet Log)
    (backend : Backend C Tx Receipt State Log) (config : ChainConfig) where
  abbrev Connector : Type 0
  Connector = EcConnector C Tx Receipt State Log

  -- The receipts of the pending task, located in a block.
  abbrev pub located_in : Block Tx → Task Tx Receipt State → List Receipt
  located_in block task =
      located node backend config (block_hash node.hashing block).0 block.header.number 0
        task.receipts

  abbrev pub write_of : Block Tx → Task Tx Receipt State → C → Option C
  write_of block task c =
      let receipts = located_in block task in
      backend.write_block block receipts (logs_of node backend config receipts) task.state c

  pub insert_block_at :
      (block : Block Tx) (c : C) (b : EcBatcher Tx Receipt State Log) (task : Task Tx Receipt State)
      → b.pending_task ≡ some task
      → insert_block node backend config block c b
        ≡ keep_written node backend config c b task (located_in block task) (write_of block task c)
  unfolding insert_block insert_with
  insert_block_at block c b task pending = ap (insert_with node backend config block c b) pending

  -- The connector that `SealBlock` leaves, by what the chain answers to the write.
  abbrev pub after_write :
      Connector
      → EcBatcher Tx Receipt State Log
      → Task Tx Receipt State
      → Block Tx
      → Option C
      → Connector
  after_write s b task sealed none = record s {
    batcher = record b { pending_task = some (record task { receipts = located_in sealed task }) };
  }
  after_write s b task sealed (some c) = record s {
    batcher = record b { pending_task = some (record task { receipts = located_in sealed task }) };
    chain = c;
    sent = s.sent ++ sealed ∷ [];
  }

  pub after_insert-keep_written :
      (s : Connector) (b : EcBatcher Tx Receipt State Log) (task : Task Tx Receipt State)
      (sealed : Block Tx) (o : Option C)
      → after_insert node backend config s sealed
          (keep_written node backend config s.chain b task (located_in sealed task) o)
        ≡ ok (after_write s b task sealed o)
  unfolding after_insert keep_written
  after_insert-keep_written s b task sealed none = refl
  after_insert-keep_written s b task sealed (some c) = refl

  -- The chain took a block in a write that led from `c` to `c'`, and it was sent after the others; or
  -- the chain refused the write, and nothing was written or sent.
  abbrev pub WriteEnds : Option C → C → C → List (Block Tx) → List (Block Tx) → Block Tx → Type 0
  WriteEnds o c c' before after sealed =
      ((o ≡ some c') × (after ≡ before ++ sealed ∷ [])) ⊎ ((o ≡ none) × (c' ≡ c) × (after ≡ before))

  pub after_write-WriteEnds :
      (s : Connector) (b : EcBatcher Tx Receipt State Log) (task : Task Tx Receipt State)
      (sealed : Block Tx) (o : Option C)
      → WriteEnds o s.chain
          (after_write s b task sealed o).chain
          s.sent
          (after_write s b task sealed o).sent
          sealed
  after_write-WriteEnds s b task sealed none = inr (refl, refl, refl)
  after_write-WriteEnds s b task sealed (some c) = inl (refl, refl)

  pub length-located_in :
      (block : Block Tx) (task : Task Tx Receipt State)
      → length (located_in block task) ≡ length task.receipts
  length-located_in block task = length-located node backend config _ _ 0 task.receipts
