-- ===== src/Ecpon/Extra.antt =====
-- consensus/ecpon/extradata.go: what a sealed header carries in its extra data. The RLP codec is the
-- package rlp's.
use ecgeth.Base.{ℕ, ◌≡◌, Bool, true, false, Option, none, some, List, String, Bytes}
use ecgeth.Types.Header.{Header}

pub record ConsensusGroup : Type 0 where
  pub block_no : ℕ
  pub validators : List String

pub record BlockProof : Type 0 where
  pub pub_keys : Bytes
  pub checksum : Bytes
  pub r : Bytes
  pub s : Bytes

pub record ExtraData : Type 0 where
  pub next_committee : Option ConsensusGroup
  pub blk_proof : Option BlockProof

-- `rlp.EncodeToBytes` and `rlp.DecodeBytes` at `ExtraData`; `none` is an error.
pub record ExtraCodec : Type 0 where
  pub encode : ExtraData → Option Bytes
  pub decode : Bytes → Option ExtraData

-- What rlp documents of the two: a value that was encoded is decoded to itself.
abbrev pub RoundTrips : ExtraCodec → Type 0
RoundTrips codec =
    (x : ExtraData) (data1 : Bytes) → codec.encode x ≡ some data1 → codec.decode data1 ≡ some x

pub new_consensus_group : ℕ → List String → ConsensusGroup
new_consensus_group num validators = record { block_no = num; validators = validators }

-- The list of signing validators is not stored.
pub new_block_proof : List String → Bytes → Bytes → Bytes → Bytes → BlockProof
new_block_proof validators pubkeys checksum r s = record {
  pub_keys = pubkeys;
  checksum = checksum;
  r = r;
  s = s;
}

-- The results of `ReadExtra`: if the decoding failed, both pointers are `nil`.
pub record ExtraFields : Type 0 where
  pub committee : Option ConsensusGroup
  pub proof : Option BlockProof
  pub failed : Bool

extra_fields : Option ExtraData → ExtraFields
extra_fields none = record { committee = none; proof = none; failed = true }
extra_fields (some x) = record { committee = x.next_committee; proof = x.blk_proof; failed = false }

unfoldable pub read_extra : ExtraCodec → Header → ExtraFields
unfolding extra_fields
read_extra codec h = extra_fields (codec.decode h.extra)
