-- ===== src/Connector/System/Round.antt =====
-- ecconnector: a whole round, from a new head of the chain to the block that follows it.
use ecgeth.Base.{
  true, false, not, ℕ, suc, ◌+◌, ◌%◌, ◌≡◌, ◌<◌, refl, sym, ◌∙◌, ap, none, some, List, ◌∷◌, String,
  Hash, Bytes, arith, length, ==_refl, ltb, u64_mod, if_true, if_false, ◌==◌,
}
use ecgeth.Base.Outcome.{ok}
use ecgeth.Params.Config.{ChainConfig}
use ecgeth.Types.Header.{copy_header}
use ecgeth.Types.Block.{Block, block_hash, number_u64, big_uint64, with_seal, get_header}
use ecgeth.Types.Block.Facts.{block_hash-keeps, block_hash-again}
use ecgeth.Ecpon.Extra.{BlockProof, ExtraCodec}
use ecgeth.Ecpon.Engine.{seal_ecpon_bada, inject}
use ecgeth.Ecpon.Engine.Seal.{big_uint64-copy_big}
use ecgeth.Connector.Batcher.{Node, Shrinks}
use ecgeth.Connector.Batcher.Work.{EcBatcher, Backend}
use ecgeth.Connector.Batcher.WorkLoop.{
  NewWorkReq, chain_head, work_step, restart_work, request_work,
}
use ecgeth.Connector.Batcher.Build.{build_block, insert_block, logs_of}
use ecgeth.Connector.Batcher.Build.Cycle.{main_new_work-build_block}
use ecgeth.Connector.Api.{
  EcConnector, keep_candidate, api_build_block, api_seal_block, seal_candidate, after_seal,
  after_insert,
}
use ecgeth.Connector.System.{
  System, request_at, works, takes, builds, seals, Reach, stays, goes, connector, with_connector,
  with_batcher,
}
use ecgeth.Connector.System.Write.{
  located_in, write_of, insert_block_at, after_write, after_insert-keep_written, WriteEnds,
  after_write-WriteEnds, length-located_in,
}

request_at-latest :
    (r : NewWorkReq) (rs : List NewWorkReq) (n : ℕ) → n ≡ length rs → request_at n (r ∷ rs) ≡ some r
unfolding request_at
request_at-latest r rs n e = rw e (if_true _ _ _ (==_refl (length rs)))

module _ {C Tx Receipt State TxSet Log : Type 0} (node : Node Tx Receipt State TxSet Log)
    (backend : Backend C Tx Receipt State Log) (config : ChainConfig) where
  abbrev Connector : Type 0
  Connector = EcConnector C Tx Receipt State Log

  api_build_block_gives :
      (current : ℕ) (s : Connector) (blk : Block Tx) (b : EcBatcher Tx Receipt State Log)
      → number_u64 (backend.current_block s.chain) ≡ current
      → build_block node backend config current s.chain s.batcher ≡ ok (blk, b)
      → api_build_block node backend config current s
        ≡ ok (
          (block_hash node.hashing blk).0,
          record s { batcher = b; cblock = some (block_hash node.hashing blk).1 },
        )
  unfolding api_build_block keep_candidate
  api_build_block_gives current s blk b same gives =
      let below : ltb current (number_u64 (backend.current_block s.chain)) ≡ false = ground arith in
      let above : ltb (number_u64 (backend.current_block s.chain)) current ≡ false = ground arith in
      if_false _ _ _ below ∙ if_false _ _ _ above ∙ ap (keep_candidate node backend config s) gives

  module _ (codec : ExtraCodec) (hex_to_hash : String → Hash) where
    abbrev Sys : Type 0
    Sys = System C Tx Receipt State Log

    -- The block that `SealEcPonBada` makes of a candidate.
    abbrev with_proof : Bytes → Block Tx → Block Tx
    with_proof bytes block = with_seal block (record (get_header block) { extra = bytes })

    with_proof-number :
        (bytes : Bytes) (block : Block Tx) → number_u64 (with_proof bytes block) ≡ number_u64 block
    unfolding with_seal get_header copy_header number_u64
    with_proof-number bytes block = big_uint64-copy_big block.header.number

    with_proof-transactions :
        (bytes : Bytes) (block : Block Tx)
        → (with_proof bytes block).transactions ≡ block.transactions
    unfolding with_seal
    with_proof-transactions bytes block = refl

    hashed-transactions :
        (block : Block Tx) → (block_hash node.hashing block).1.transactions ≡ block.transactions
    hashed-transactions block = (block_hash-keeps node.hashing block).1

    hashed-number :
        (block : Block Tx) → number_u64 (block_hash node.hashing block).1 ≡ number_u64 block
    unfolding number_u64
    hashed-number block = ap (λ h. big_uint64 h.number) (block_hash-keeps node.hashing block).0

    head-number :
        (c : C) (n : ℕ)
        → (backend.current_block c).header.number ≡ some n
        → n + 1 < u64_mod
        → number_u64 (backend.current_block c) ≡ n
    unfolding number_u64
    head-number c n number small =
        let low : n % u64_mod ≡ n = omega (arith, small) in ap big_uint64 number ∙ low

    api_seal_block_gives :
        (bhash : String) (proof : BlockProof) (bytes : Bytes) (block : Block Tx) (s : Connector)
        → s.cblock ≡ some block
        → (block_hash node.hashing block).0 ≡ hex_to_hash bhash
        → codec.encode (record { next_committee = none; blk_proof = some proof }) ≡ some bytes
        → api_seal_block node backend config codec hex_to_hash bhash (some proof) s
          ≡ after_insert node backend config
              (record s { cblock = some (block_hash node.hashing block).1 })
              (with_proof bytes (block_hash node.hashing block).1)
              (insert_block node backend config
                (with_proof bytes (block_hash node.hashing block).1)
                s.chain
                s.batcher)
    unfolding api_seal_block seal_candidate after_seal seal_ecpon_bada inject
    api_seal_block_gives bhash proof bytes block s here same encoded =
        let hashed = (block_hash node.hashing block).1 in
        let s1 : Connector = record s { cblock = some hashed } in
        let found : ((block_hash node.hashing block).0 == hex_to_hash bhash) ≡ true =
          ap (λ h. h == hex_to_hash bhash) same ∙ ==_refl (hex_to_hash bhash) in
        ap (λ o. seal_candidate node backend config codec hex_to_hash bhash (some proof) o s) here
        ∙ if_false _ _ _ (ap not found)
        ∙ ap (λ o. after_seal node backend config s1 (inject codec hashed o)) encoded

    pub round-writes :
        (shrinks : Shrinks node) (s : Sys) (signal later : ℕ → ℕ) (now n : ℕ) (state : State)
        (proof : BlockProof) (bytes : Bytes) (text : Hash → String)
        → s.handled ≡ length s.loop.requests
        → (backend.current_block s.chain).header.number ≡ some n
        → backend.state_at (backend.current_block s.chain).header.root s.chain ≡ some state
        → n + 1 < u64_mod
        → codec.encode (record { next_committee = none; blk_proof = some proof }) ≡ some bytes
        → ((h : Hash) → hex_to_hash (text h) ≡ h)
        → (u : Sys) × (sealed : Block Tx) × (receipts : List Receipt) × (st : State) × Reach node
            backend config codec hex_to_hash s u
          × (number_u64 sealed ≡ n + 1)
          × (length receipts ≡ length sealed.transactions)
          × WriteEnds node backend config
              (backend.write_block sealed receipts
                (logs_of node backend config receipts)
                st
                s.chain)
              s.chain
              u.chain
              s.sent
              u.sent
              sealed
    unfolding work_step restart_work request_work
    round-writes shrinks s signal later now n state proof bytes text idle number has_state small
          encoded reads =
        let w1 = restart_work now s.loop in
        let s1 : Sys = record s { loop = w1 } in
        let req : NewWorkReq = record { noempty = false; timestamp = now } in
        let (b1, blk, b2, makes, gives, num, few, (task, pending, same, counted)) =
          main_new_work-build_block node backend config shrinks signal later now n s.chain s.chain
            w1.batcher state number has_state small in
        let s2 : Sys = record (with_batcher b1 s1) { handled = suc s.handled } in
        let hashed = (block_hash node.hashing blk).1 in
        let hash = (block_hash node.hashing blk).0 in
        let head : number_u64 (backend.current_block s.chain) ≡ n =
          head-number s.chain n number small in
        let k3 : Connector = record (connector s2) { batcher = b2; cblock = some hashed } in
        let s3 : Sys = with_connector k3 s2 in
        let again = (block_hash node.hashing hashed).1 in
        let sealed = with_proof bytes again in
        let k4 : Connector = record k3 { cblock = some again } in
        let answer = write_of node backend config sealed task s.chain in
        let k5 = after_write node backend config k4 b2 task sealed answer in
        let seal_step =
          api_seal_block_gives (text hash) proof bytes hashed k3 refl
            (block_hash-again node.hashing blk ∙ sym (reads hash)) encoded
          ∙ ap (after_insert node backend config k4 sealed)
              (insert_block_at node backend config sealed s.chain b2 task pending)
          ∙ after_insert-keep_written node backend config k4 b2 task sealed answer in
        (
          with_connector k5 s3,
          sealed,
          located_in node backend config sealed task,
          task.state,
          goes {u = s3}
              (goes {u = s2}
                (goes {u = s1} (goes {u = s} stays (works (chain_head now) refl)) (
                  takes signal later req b1 (request_at-latest req s.loop.requests s.handled idle)
                    makes refl))
                (builds n hash k3 (api_build_block_gives n (connector s2) blk b2 head gives) refl))
              (seals (text hash) (some proof) k5 seal_step refl),
          with_proof-number bytes again ∙ hashed-number hashed ∙ hashed-number blk ∙ num,
          length-located_in node backend config sealed task
              ∙ counted
              ∙ ap length (
                  sym (
                    with_proof-transactions bytes again
                    ∙ hashed-transactions hashed
                    ∙ hashed-transactions blk)),
          after_write-WriteEnds node backend config k4 b2 task sealed answer,
        )
