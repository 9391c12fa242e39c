-- ===== src/Ecpon/Engine/Seal.antt =====
-- consensus/ecpon/ecponbada.go: what a seal keeps of a block, and that the blocks which this engine
-- prepares, assembles and seals are those that it verifies.
use mathlib.Core.Path.{ap₂}
use ecgeth.Base.{
  ℕ, ◌+◌, ◌≡◌, ◌≤◌, ◌<◌, refl, ap, Bool, true, false, Option, none, some, List, [], Hash, Bytes,
  u64_mod, arith,
}
use ecgeth.Base.Outcome.{ok}
use ecgeth.Params.Config.{ChainConfig}
use ecgeth.Types.Header.{Header, copy_header, copy_big}
use ecgeth.Types.Block.{
  Hashing, Block, body, big_uint64, number_u64, get_header, with_seal, new_block, header_hash,
  hash_for_ecpon, calc_uncle_hash,
}
use ecgeth.Ecpon.Extra.{ConsensusGroup, BlockProof, ExtraCodec, RoundTrips, read_extra}
use ecgeth.Ecpon.Rpc.{EcRpcCall}
use ecgeth.Ecpon.Engine.{
  Externals, lift_remote, ask_remote, verify_seal, verify_cascading_fields, verify_header, prepare,
  finalize_and_assemble, seal_ecpon_bada,
}

copy_big_idem : (n : Option ℕ) → copy_big (copy_big n) ≡ copy_big n
copy_big_idem none = refl
copy_big_idem (some n) = refl

pub big_uint64-copy_big : (n : Option ℕ) → big_uint64 (copy_big n) ≡ big_uint64 n
big_uint64-copy_big none = refl
big_uint64-copy_big (some n) = refl

hash_for_ecpon-copy :
    {Tx Receipt : Type 0} (k : Hashing Tx Receipt) (h : Header) (bytes : Bytes)
    → hash_for_ecpon k (record (copy_header h) { extra = bytes }) ≡ hash_for_ecpon k h
unfolding hash_for_ecpon copy_header
hash_for_ecpon-copy k h bytes =
    ap₂ (λ d n. k.rlp_hash (record h { difficulty = d; number = n; extra = [] }))
      (copy_big_idem h.difficulty) (copy_big_idem h.number)

module _ {Tx E : Type 0} (codec : ExtraCodec) where
  -- A successful seal replaces the extra data of the block's header and nothing else.
  pub seal_ok :
      (b : Block Tx) (proof : BlockProof) (committee : Option ConsensusGroup) {sealed : Block Tx}
      → seal_ecpon_bada {E = E} codec b (some proof) committee ≡ ok sealed
      → (bytes : Bytes) × (codec.encode
            (record { next_committee = committee; blk_proof = some proof })
          ≡ some bytes)
        × (sealed ≡ with_seal b (record (get_header b) { extra = bytes }))
  unfolding seal_ecpon_bada
  seal_ok b proof committee h = ground arith

module _ {Tx Receipt E : Type 0} (k : Hashing Tx Receipt) (codec : ExtraCodec) where
  -- What `SealEcPonBada` returns has the committee and the proof in its extra data, the body of the
  -- block that was sealed, and the hash that the external consensus signs.
  pub seal-read_extra :
      (b : Block Tx) (proof : BlockProof) (committee : Option ConsensusGroup) (sealed : Block Tx)
      → RoundTrips codec
      → seal_ecpon_bada {E = E} codec b (some proof) committee ≡ ok sealed
      → (read_extra codec sealed.header
          ≡ record { committee = committee; proof = some proof; failed = false })
        × (body sealed ≡ body b)
        × (hash_for_ecpon k sealed.header ≡ hash_for_ecpon k b.header)
        × (number_u64 sealed ≡ number_u64 b)
  seal-read_extra b proof committee sealed round h =
      let (bytes, encoded, shape) = seal_ok codec b proof committee h in
      rw shape (
        unfold read_extra with_seal in rw (round _ bytes encoded) refl,
        unfold body with_seal in refl,
        unfold get_header with_seal in hash_for_ecpon-copy k b.header bytes,
        unfold number_u64 with_seal get_header copy_header in
            rw (big_uint64-copy_big b.header.number) refl,
      )

module _ {Tx Receipt State : Type 0} (x : Externals Tx Receipt) (config : ChainConfig)
    (intermediate_root : Bool → State → Hash × State) where
  -- The block that the batcher assembles on a header `h`.
  abbrev pub assembled : Header → State → List Tx → List Receipt → Block Tx
  assembled h state txs receipts =
      (finalize_and_assemble x.hashing config intermediate_root (prepare h) state txs receipts).0

  sealed-header :
      (h : Header) (state : State) (txs : List Tx) (receipts : List Receipt) {n : ℕ} (bytes : Bytes)
      (sealed : Block Tx)
      → h.number ≡ some n
      → sealed
        ≡ with_seal
            (assembled h state txs receipts)
            (record (get_header (assembled h state txs receipts)) { extra = bytes })
      → (sealed.header.number ≡ some n)
        × (sealed.header.time ≡ h.time)
        × (sealed.header.uncle_hash ≡ calc_uncle_hash x.hashing [])
  unfolding finalize_and_assemble prepare new_block copy_header with_seal get_header
  sealed-header h state txs receipts bytes sealed e shape =
      rw shape (ap copy_big (ap copy_big e), refl, refl)

module _ {Tx Receipt S E : Type 0} (x : Externals Tx Receipt) (client : EcRpcCall S E) where
  verify_header_asks :
      (h : Header) (n now : ℕ) (proof : BlockProof) (committee : Option ConsensusGroup) (s : S)
      → h.number ≡ some n
      → 0 < n
      → n < u64_mod
      → now + 2 < u64_mod
      → h.time ≤ now + 2
      → h.uncle_hash ≡ calc_uncle_hash x.hashing []
      → x.fork_hashes_ok h ≡ true
      → read_extra x.codec h ≡ record { committee = committee; proof = some proof; failed = false }
      → verify_header x (some client) now h s
        ≡ lift_remote (client.send_verify_seal n (header_hash x.hashing h) (some proof) s)
  unfolding verify_header verify_cascading_fields verify_seal ask_remote
  verify_header_asks h n now proof committee s number pos small soon time uncles forks extra =
      ground arith

  module _ {State : Type 0} (config : ChainConfig)
      (intermediate_root : Bool → State → Hash × State) where
    -- A block that `Prepare`, `FinalizeAndAssemble` and `SealEcPonBada` made of a header with a
    -- number above 0 passes all checks of `VerifyHeader` but the last, if its time is at most two
    -- seconds ahead and its fork hashes are right: the verdict is the answer of the connected
    -- external consensus for the number, the hash of the sealed header, and the proof of the seal.
    pub verify_header-sealed :
        (h : Header) (state : State) (txs : List Tx) (receipts : List Receipt) (n now : ℕ)
        (proof : BlockProof) (committee : Option ConsensusGroup) (sealed : Block Tx) (s : S)
        → RoundTrips x.codec
        → h.number ≡ some n
        → 0 < n
        → n < u64_mod
        → now + 2 < u64_mod
        → h.time ≤ now + 2
        → seal_ecpon_bada {E = E} x.codec
            (assembled x config intermediate_root h state txs receipts)
            (some proof)
            committee
          ≡ ok sealed
        → x.fork_hashes_ok sealed.header ≡ true
        → verify_header x (some client) now sealed.header s
          ≡ lift_remote
              (client.send_verify_seal n (header_hash x.hashing sealed.header) (some proof) s)
    verify_header-sealed h state txs receipts n now proof committee sealed s round number pos small
          soon time sealing forks =
        let b = assembled x config intermediate_root h state txs receipts in
        let (bytes, encoded, shape) = seal_ok x.codec b proof committee sealing in
        let (num, same_time, uncles) =
          sealed-header x config intermediate_root h state txs receipts bytes sealed number shape in
        let extra = (seal-read_extra x.hashing x.codec b proof committee sealed round sealing).0 in
        verify_header_asks sealed.header n now proof committee s num pos small soon
          (rw same_time time) uncles forks extra
