-- ===== src/Ecpon/Engine.antt =====
-- consensus/ecpon/ecponbada.go: the engine `EcPonBada`.
pub mod Verify
pub mod Seal
pub mod Service
use ecgeth.Base.{
  ℕ, zero, suc, ◌+◌, ◌%◌, ◌≡◌, Bool, true, false, not, Option, none, some, List, [], ◌∷◌, Hash,
  Address, Bytes, ltb, ◌==◌, if◌then◌else◌, u64_mod,
}
use ecgeth.Base.Outcome.{Outcome, ok, err, panics}
use ecgeth.Params.Config.{ChainConfig}
use ecgeth.Params.Config.Rules.{is_eip158}
use ecgeth.Types.Nonce.{zero_nonce}
use ecgeth.Types.Header.{Header}
use ecgeth.Types.Block.{
  Hashing, Block, big_uint64, calc_uncle_hash, header_hash, new_block, get_header, with_seal,
}
use ecgeth.Ecpon.Extra.{ConsensusGroup, BlockProof, ExtraData, ExtraCodec, read_extra}
use ecgeth.Ecpon.Rpc.{EcRpcCall}

-- The errors of the engine. `fork_hashes` is that of misc.VerifyForkHashes, `remote` one of the
-- external consensus.
pub data EngineError (E : Type 0) : Type 0 where
  unknown_block future_block invalid_uncle_hash fork_hashes bad_extra : EngineError E
  rpc_not_ready uncles_not_allowed extra_injection : EngineError E
  remote : E → EngineError E

-- What the engine calls of other packages.
pub record Externals (Tx Receipt : Type 0) : Type 0 where
  pub hashing : Hashing Tx Receipt
  pub codec : ExtraCodec
  -- `misc.VerifyForkHashes(chain.Config(), header, false) == nil`
  pub fork_hashes_ok : Header → Bool

module _ {S E : Type 0} where
  unfoldable pub lift_remote : Option E × S → Option (EngineError E) × S
  lift_remote (none, s) = (none, s)
  lift_remote (some e, s) = (some (remote e), s)

  unfoldable pub ask_remote :
      Option (EcRpcCall S E) → ℕ → Hash → Option BlockProof → S → Option (EngineError E) × S
  unfolding lift_remote
  ask_remote none number hash proof s = (some rpc_not_ready, s)
  ask_remote (some c) number hash proof s = lift_remote (c.send_verify_seal number hash proof s)

module _ {Tx Receipt S E : Type 0} (x : Externals Tx Receipt) (rpc : Option (EcRpcCall S E)) where
  unfoldable pub verify_seal : Header → S → Option (EngineError E) × S
  verify_seal h s =
      let number = big_uint64 h.number in
      let fields = read_extra x.codec h in
      if number == 0
      then (some unknown_block, s)
      else if fields.failed
      then (some bad_extra, s)
      else ask_remote rpc number (header_hash x.hashing h) fields.proof s

  unfoldable pub verify_cascading_fields : Header → S → Option (EngineError E) × S
  verify_cascading_fields h s = if big_uint64 h.number == 0 then (none, s) else verify_seal h s

  abbrev is_set : Option ℕ → Bool
  is_set none = false
  is_set (some _) = true

  -- `now` is the Unix time; a header may be up to two seconds ahead of it.
  unfoldable pub verify_header : ℕ → Header → S → Option (EngineError E) × S
  verify_header now h s =
      if not (is_set h.number)
      then (some unknown_block, s)
      else if ltb ((now + 2) % u64_mod) h.time
      then (some future_block, s)
      else if not (h.uncle_hash == calc_uncle_hash x.hashing [])
      then (some invalid_uncle_hash, s)
      else if not (x.fork_hashes_ok h)
      then (some fork_hashes, s)
      else verify_cascading_fields h s

  -- The goroutine of `VerifyHeaders`: each header comes with the time at which it is read and with
  -- whether the `select` behind it takes the `abort` branch.
  unfoldable pub verify_headers : List (Header × ℕ × Bool) → S → List (Option (EngineError E)) × S
  verify_headers [] s = ([], s)
  verify_headers ((h, now, aborted) ∷ rest) s =
      let (verdict, s') = verify_header now h s in
      let later = verify_headers rest s' in
      if aborted then ([], s') else (verdict ∷ later.0, later.1)

module _ {E Tx : Type 0} where
  unfoldable pub verify_uncles : Block Tx → Option (EngineError E)
  verify_uncles b = elim b.uncles [ [] ↦ none | _ ∷ _ ↦ some uncles_not_allowed ]

abbrev no_address : Address
no_address = 0

abbrev pub unused_difficulty : ℕ
unused_difficulty = 1

-- `Author`, which means to give the leader of the committee, gives no address yet.
unfoldable pub author : Header → Address
author h = no_address

unfoldable pub prepare : Header → Header
prepare h = record h {
  difficulty = some unused_difficulty;
  nonce = zero_nonce;
  coinbase = no_address;
  mix_digest = 0;
}

module _ {Tx Receipt State : Type 0} (k : Hashing Tx Receipt) (config : ChainConfig) where
  -- `Finalize` writes to the header and computes the root in the state; `intermediate_root` is
  -- `StateDB.IntermediateRoot`.
  unfoldable pub finalize : (Bool → State → Hash × State) → Header → State → Header × State
  finalize intermediate_root h state =
      let (root, state') = intermediate_root (is_eip158 config h.number) state in
      (record h { root = root; uncle_hash = calc_uncle_hash k [] }, state')

  -- The block, the header that `Finalize` wrote to, and the state.
  unfoldable pub finalize_and_assemble :
      (Bool → State → Hash × State)
      → Header
      → State
      → List Tx
      → List Receipt
      → Block Tx × Header × State
  unfolding finalize
  finalize_and_assemble intermediate_root h state txs receipts =
      let (h', state') = finalize intermediate_root h state in
      (new_block k h' txs [] receipts, h', state')

module _ {Tx E : Type 0} (codec : ExtraCodec) where
  unfoldable pub inject : Block Tx → Option Bytes → Outcome (EngineError E) (Block Tx)
  inject b none = err extra_injection
  inject b (some bytes) = ok (with_seal b (record (get_header b) { extra = bytes }))

  -- The log line in front of the encoding reads `blockProof.R`, which panics at a `nil` proof.
  unfoldable pub seal_ecpon_bada :
      Block Tx → Option BlockProof → Option ConsensusGroup → Outcome (EngineError E) (Block Tx)
  unfolding inject
  seal_ecpon_bada b none committee = panics
  seal_ecpon_bada b (some proof) committee =
      inject b (codec.encode (record { next_committee = committee; blk_proof = some proof }))
