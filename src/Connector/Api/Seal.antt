-- ===== src/Connector/Api/Seal.antt =====
-- ecconnector/api.go: what a `SealBlock` that returns no error has done.
use ecgeth.Base.{
  ◌≡◌, refl, sym, ◌∙◌, ◌⊎◌, inl, inr, Option, none, some, [], ◌∷◌, ◌++◌, String, Hash, Bytes, arith,
  ◌==◌, Option-cases, Bool-cases, ap, ==_refl,
}
use ecgeth.Base.Outcome.{Outcome, ok, err, panics}
use ecgeth.Params.Config.{ChainConfig}
use ecgeth.Types.Block.{Block, block_hash}
use ecgeth.Ecpon.Extra.{BlockProof, ExtraCodec}
use ecgeth.Ecpon.Engine.{EngineError, inject, seal_ecpon_bada}
use ecgeth.Connector.Rpc.{RpcError}
use ecgeth.Connector.Batcher.{Node}
use ecgeth.Connector.Batcher.Work.{EcBatcher, Backend, WorkError}
use ecgeth.Connector.Batcher.Build.{insert_block}
use ecgeth.Connector.Api.Candidate.{with_located, insert_block-fails}
use ecgeth.Connector.Api.{EcConnector, after_insert, after_seal, seal_candidate, api_seal_block}

Outcome-cases :
    {E A : Type 0} (o : Outcome E A)
    → ((a : A) × (o ≡ ok a)) ⊎ (((e : E) × (o ≡ err e)) ⊎ (o ≡ panics))
Outcome-cases (ok a) = inl (a, refl)
Outcome-cases (err e) = inr (inl (e, refl))
Outcome-cases panics = inr (inr refl)

module _ {C Tx Receipt State TxSet Log : Type 0} (node : Node Tx Receipt State TxSet Log)
    (backend : Backend C Tx Receipt State Log) (config : ChainConfig) where
  abbrev Connector : Type 0
  Connector = EcConnector C Tx Receipt State Log

  -- The block was stored and sent; or it was not stored, nothing was sent, and of the batcher only
  -- the receipts of the pending task were changed, to those located in the block.
  abbrev pub Ends : Block Tx → Connector → Connector → Type 0
  Ends sealed s s' =
      ((insert_block node backend config sealed s.chain s.batcher ≡ (none, s'.chain, s'.batcher))
        × (s'.sent ≡ s.sent ++ sealed ∷ []))
      ⊎ (((e : WorkError) × (insert_block node backend config sealed s.chain s.batcher
              ≡ (some e, s'.chain, s'.batcher)))
          × (s'.chain ≡ s.chain)
          × (s'.batcher ≡ with_located node backend config sealed s.batcher s.batcher.pending_task)
          × (s'.sent ≡ s.sent))

  after_insert-Ends :
      (s s' : Connector) (sealed : Block Tx)
      (o : Option WorkError × C × EcBatcher Tx Receipt State Log)
      → insert_block node backend config sealed s.chain s.batcher ≡ o
      → after_insert node backend config s sealed o ≡ ok s'
      → Ends sealed s s' × (s'.cblock ≡ s.cblock)
  unfolding after_insert
  after_insert-Ends s s' sealed (none, c, b) e h =
      let same : record s { batcher = b; chain = c; sent = s.sent ++ sealed ∷ [] } ≡ s' = cc in
      (inl (rw⁻¹ same (e, refl)), ap (λ t. t.cblock) (sym same))
  after_insert-Ends s s' sealed (some r, c, b) e h =
      let same : record s { batcher = b; chain = c } ≡ s' = cc in
      let (same_chain, moved) =
        insert_block-fails node backend config sealed s.chain c s.batcher b r e in
      (inr (rw⁻¹ same ((r, e), same_chain, moved, refl)), ap (λ t. t.cblock) (sym same))

  after_seal-Ends :
      (s s' : Connector) (o : Outcome (EngineError RpcError) (Block Tx))
      → after_seal node backend config s o ≡ ok s'
      → (sealed : Block Tx) × (o ≡ ok sealed) × Ends sealed s s' × (s'.cblock ≡ s.cblock)
  unfolding after_seal
  after_seal-Ends s s' (ok sealed) h =
      let (ends, kept) = after_insert-Ends s s' sealed _ refl h in (sealed, refl, ends, kept)
  after_seal-Ends s s' (err e) h = cc
  after_seal-Ends s s' panics h = cc

  module _ (codec : ExtraCodec) (hex_to_hash : String → Hash) where
    seal_candidate-Ends :
        (bhash : String) (proof : Option BlockProof) (block : Block Tx) (s s' : Connector)
        → seal_candidate node backend config codec hex_to_hash bhash proof (some block) s ≡ ok s'
        → ((block_hash node.hashing block).0 ≡ hex_to_hash bhash)
          × ((sealed : Block Tx) × (seal_ecpon_bada {E = RpcError} codec
                  (block_hash node.hashing block).1
                  proof
                  none
                ≡ ok sealed)
              × Ends sealed s s'
              × (s'.cblock ≡ some (block_hash node.hashing block).1))
    unfolding seal_candidate
    seal_candidate-Ends bhash proof block s s' h =
        elim (Bool-cases ((block_hash node.hashing block).0 == hex_to_hash bhash)) [
          | inr other ↦ absurd (ground (arith, rw other at h))
          | inl same ↦ (
            ground arith,
            after_seal-Ends (record s { cblock = some (block_hash node.hashing block).1 }) s' _
                (rw same at h),
          )
        ]

    -- A `SealBlock` that returns no error was given the hash of the candidate, and sealed it. Then
    -- the sealed block was stored and sent; or storing it failed, nothing was stored or sent, and of
    -- the batcher only the receipts of the pending task, if there is one, were changed: to those
    -- located in the sealed block. The candidate is kept, with its hash in the cache.
    pub api_seal_block_ok :
        (bhash : String) (proof : Option BlockProof) (s s' : Connector)
        → api_seal_block node backend config codec hex_to_hash bhash proof s ≡ ok s'
        → (block : Block Tx) × (s.cblock ≡ some block)
          × ((block_hash node.hashing block).0 ≡ hex_to_hash bhash)
          × ((sealed : Block Tx) × (seal_ecpon_bada {E = RpcError} codec
                  (block_hash node.hashing block).1
                  proof
                  none
                ≡ ok sealed)
              × Ends sealed s s'
              × (s'.cblock ≡ some (block_hash node.hashing block).1))
    unfolding api_seal_block seal_candidate
    api_seal_block_ok bhash proof s s' h = elim (Option-cases s.cblock) [
      | inl none' ↦ absurd (ground (arith, rw none' at h))
      | inr (block, e) ↦
          let found =
            ap (λ o. seal_candidate node backend config codec hex_to_hash bhash proof o s) e in
          let (same, ends) = seal_candidate-Ends bhash proof block s s' (sym found ∙ h) in
          (block, e, same, ends)
    ]

    -- With no pending task, `SealBlock` of the candidate with a proof that can be encoded returns no
    -- error, although the block is neither stored nor sent.
    pub api_seal_block_unstored :
        (bhash : String) (proof : BlockProof) (block : Block Tx) (bytes : Bytes) (s : Connector)
        → s.cblock ≡ some block
        → (block_hash node.hashing block).0 ≡ hex_to_hash bhash
        → codec.encode (record { next_committee = none; blk_proof = some proof }) ≡ some bytes
        → s.batcher.pending_task ≡ none
        → (s' : Connector) × (api_seal_block node backend config codec hex_to_hash bhash
              (some proof)
              s
            ≡ ok s')
          × (s'.chain ≡ s.chain)
          × (s'.sent ≡ s.sent)
    unfolding api_seal_block seal_candidate after_seal after_insert insert_block seal_ecpon_bada
        inject
    api_seal_block_unstored bhash proof block bytes s candidate same encoded no_task =
        let s1 = record s { cblock = some (block_hash node.hashing block).1 } in
        (
          s1,
          rw (candidate, same) (ground (arith, encoded, no_task, ==_refl (hex_to_hash bhash))),
          refl,
          refl,
        )
