-- ===== src/Connector/Api/Candidate.antt =====
-- ecconnector/api.go: what a `BuildBlock` that returns no error has done, and what `insertBlock` has.
use ecgeth.Base.{
  ℕ, suc, ◌≡◌, refl, sym, ◌∙◌, ap, Option, none, some, List, [], ◌∷◌, Hash, arith, length, ltb, inl,
  inr, Bool-cases,
}
use ecgeth.Base.Outcome.{Outcome, ok, err, panics}
use ecgeth.Params.Config.{ChainConfig}
use ecgeth.Types.Block.{Block, block_hash, number_u64}
use ecgeth.Connector.Batcher.{Node}
use ecgeth.Connector.Batcher.Work.{EcBatcher, Task, Backend, WorkError}
use ecgeth.Connector.Batcher.Build.{
  build_block, insert_block, insert_with, keep_written, located, logs_of,
}
use ecgeth.Connector.Api.{EcConnector, keep_candidate, api_build_block}

module _ {C Tx Receipt State TxSet Log : Type 0} (node : Node Tx Receipt State TxSet Log)
    (backend : Backend C Tx Receipt State Log) (config : ChainConfig) where
  abbrev Connector : Type 0
  Connector = EcConnector C Tx Receipt State Log

  abbrev Batcher : Type 0
  Batcher = EcBatcher Tx Receipt State Log

  keep_candidate_ok :
      (hash : Hash) (s s' : Connector) (o : Outcome WorkError (Block Tx × Batcher))
      → keep_candidate node backend config s o ≡ ok (hash, s')
      → (blk : Block Tx) × (b : Batcher) × (o ≡ ok (blk, b))
        × (hash ≡ (block_hash node.hashing blk).0)
        × (s' ≡ record s { batcher = b; cblock = some (block_hash node.hashing blk).1 })
  unfolding keep_candidate
  keep_candidate_ok hash s s' (ok (blk, b)) e = (blk, b, refl, cc e, cc e)
  keep_candidate_ok hash s s' (err x) e = absurd (cc e)
  keep_candidate_ok hash s s' panics e = absurd (cc e)

  -- A `BuildBlock` that returns no error was given the number of the head of the chain. The batcher
  -- built a block, which is the new candidate, and its hash is what the call returns. The chain is
  -- left alone, and nothing is sent.
  pub api_build_block_ok :
      (current : ℕ) (hash : Hash) (s s' : Connector)
      → api_build_block node backend config current s ≡ ok (hash, s')
      → (number_u64 (backend.current_block s.chain) ≡ current)
        × ((blk : Block Tx) × (b : Batcher) × (build_block node backend config current s.chain
                s.batcher
              ≡ ok (blk, b))
            × (hash ≡ (block_hash node.hashing blk).0)
            × (s' ≡ record s { batcher = b; cblock = some (block_hash node.hashing blk).1 }))
  unfolding api_build_block
  api_build_block_ok current hash s s' e =
      let number = number_u64 (backend.current_block s.chain) in
      elim (Bool-cases (ltb current number)) [
        | inl below ↦ absurd (ground (arith, rw below at e))
        | inr at_least ↦ elim (Bool-cases (ltb number current)) [
          | inl above ↦ absurd (ground (arith, rw (at_least, above) at e))
          | inr at_most ↦
              (ground arith, keep_candidate_ok hash s s' _ (rw (at_least, at_most) at e))
        ]
      ]

  pub length-located :
      (hash : Hash) (number : Option ℕ) (i : ℕ) (receipts : List Receipt)
      → length (located node backend config hash number i receipts) ≡ length receipts
  unfolding located
  length-located hash number i [] = refl
  length-located hash number i (r ∷ rs) = ap suc (length-located hash number (suc i) rs)

  -- What is stored and left by an `insertBlock` without an error.
  pub record Inserts (block : Block Tx) (c c' : C) (b b' : Batcher) : Type 0 where
    pub task : Task Tx Receipt State
    pub pending : b.pending_task ≡ some task
    pub receipts : List Receipt
    pub counted : length receipts ≡ length task.receipts
    pub written :
        backend.write_block block receipts (logs_of node backend config receipts) task.state c
        ≡ some c'
    pub left : b' ≡ record b { pending_task = some (record task { receipts = receipts }) }

  keep_written-Inserts :
      (block : Block Tx) (c c' : C) (b b' : Batcher) (task : Task Tx Receipt State)
      (receipts : List Receipt) (o : Option C)
      → b.pending_task ≡ some task
      → length receipts ≡ length task.receipts
      → backend.write_block block receipts (logs_of node backend config receipts) task.state c ≡ o
      → keep_written node backend config c b task receipts o ≡ (none, c', b')
      → Inserts block c c' b b'
  unfolding keep_written
  keep_written-Inserts block c c' b b' task receipts none pending counted stored e =
      absurd (cc (ap (λ r. r.0) e))
  keep_written-Inserts block c c' b b' task receipts (some c1) pending counted stored e = record {
    task = task;
    pending = pending;
    receipts = receipts;
    counted = counted;
    written = stored ∙ ap (λ r. some r.1) e;
    left = sym (ap (λ r. r.2) e);
  }

  insert_with-Inserts :
      (block : Block Tx) (c c' : C) (b b' : Batcher) (o : Option (Task Tx Receipt State))
      → b.pending_task ≡ o
      → insert_with node backend config block c b o ≡ (none, c', b')
      → Inserts block c c' b b'
  unfolding insert_with
  insert_with-Inserts block c c' b b' none pending e = absurd (cc (ap (λ r. r.0) e))
  insert_with-Inserts block c c' b b' (some task) pending e =
      keep_written-Inserts block c c' b b' task _ _ pending (length-located _ _ 0 task.receipts)
        refl e

  pub insert_block-Inserts :
      (block : Block Tx) (c c' : C) (b b' : Batcher)
      → insert_block node backend config block c b ≡ (none, c', b')
      → Inserts block c c' b b'
  unfolding insert_block
  insert_block-Inserts block c c' b b' e = insert_with-Inserts block c c' b b' _ refl e

  -- The batcher with the receipts of its pending task, if there is one, located in a block.
  abbrev pub with_located : Block Tx → Batcher → Option (Task Tx Receipt State) → Batcher
  with_located block b none = b
  with_located block b (some task) = record b {
    pending_task = some (record task {
      receipts =
          located node backend config (block_hash node.hashing block).0 block.header.number 0
            task.receipts;
    });
  }

  keep_written-fails :
      (c c' : C) (b b' : Batcher) (task : Task Tx Receipt State) (receipts : List Receipt)
      (e : WorkError) (o : Option C)
      → keep_written node backend config c b task receipts o ≡ (some e, c', b')
      → (c' ≡ c) × (b' ≡ record b { pending_task = some (record task { receipts = receipts }) })
  unfolding keep_written
  keep_written-fails c c' b b' task receipts e none h =
      (sym (ap (λ r. r.1) h), sym (ap (λ r. r.2) h))
  keep_written-fails c c' b b' task receipts e (some c1) h = absurd (cc (ap (λ r. r.0) h))

  insert_with-fails :
      (block : Block Tx) (c c' : C) (b b' : Batcher) (e : WorkError)
      (o : Option (Task Tx Receipt State))
      → insert_with node backend config block c b o ≡ (some e, c', b')
      → (c' ≡ c) × (b' ≡ with_located block b o)
  unfolding insert_with
  insert_with-fails block c c' b b' e none h = (sym (ap (λ r. r.1) h), sym (ap (λ r. r.2) h))
  insert_with-fails block c c' b b' e (some task) h = keep_written-fails c c' b b' task _ e _ h

  -- An `insertBlock` with an error leaves the chain alone, and of the batcher changes at most the
  -- receipts of the pending task.
  pub insert_block-fails :
      (block : Block Tx) (c c' : C) (b b' : Batcher) (e : WorkError)
      → insert_block node backend config block c b ≡ (some e, c', b')
      → (c' ≡ c) × (b' ≡ with_located block b b.pending_task)
  unfolding insert_block
  insert_block-fails block c c' b b' e h = insert_with-fails block c c' b b' e b.pending_task h
