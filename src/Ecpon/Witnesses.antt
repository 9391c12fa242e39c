-- ===== src/Ecpon/Witnesses.antt =====
-- consensus/ecpon: the theorems on the engine, at a concrete block, codec and external consensus.
use ecgeth.Base.{
  ap, ℕ, ◌+◌, ◌≡◌, ◌↔◌, ◌==◌, if◌then◌else◌, refl, Bool, true, false, Option, none, some, List, [],
  ◌∷◌, length, Bytes, Hash, String, arith,
}
use ecgeth.Base.Outcome.{ok}
use ecgeth.Params.Config.{ChainConfig}
use ecgeth.Types.Nonce.{zero_nonce}
use ecgeth.Types.Header.{Header}
use ecgeth.Types.Block.{
  Hashing, Block, body, number_u64, hash_for_ecpon, header_hash, get_header, with_seal,
}
use ecgeth.Ecpon.Extra.{ConsensusGroup, BlockProof, ExtraData, ExtraCodec, RoundTrips, read_extra}
use ecgeth.Ecpon.Rpc.{EcRpcCall}
use ecgeth.Ecpon.Engine.{Externals, lift_remote, verify_header, seal_ecpon_bada}
use ecgeth.Ecpon.Engine.Verify.{IsAccepted, verify_header_iff}
use ecgeth.Ecpon.Engine.Seal.{assembled, seal-read_extra, verify_header-sealed}

abbrev hashing : Hashing ℕ ℕ
hashing = record {
  rlp_hash = λ h. length h.extra;
  rlp_hash_list = λ hs. 7;
  derive_sha_txs = λ txs. 11;
  derive_sha_receipts = λ rs. 13;
  create_bloom = λ rs. 17;
  transaction_hash = λ tx. tx;
  empty_root_hash = 19;
}

-- A codec for proofs with no keys, whose text is the proof's `r`; it refuses all else.
abbrev encode_proof : Bytes → Bytes → Bytes → Bytes → Option Bytes
encode_proof [] [] r [] = some r
encode_proof _ _ _ _ = none

abbrev encode_extra : Option ConsensusGroup → Option BlockProof → Option Bytes
encode_extra none (some p) = encode_proof p.pub_keys p.checksum p.r p.s
encode_extra _ _ = none

abbrev read_back : Bytes → ExtraData
read_back r = record {
  next_committee = none;
  blk_proof = some (record { pub_keys = []; checksum = []; r = r; s = [] });
}

abbrev codec : ExtraCodec
codec = record {
  encode = λ x. encode_extra x.next_committee x.blk_proof;
  decode = λ bytes. some (read_back bytes);
}

proof-RoundTrips :
    (keys checksum r s bytes : Bytes)
    → encode_proof keys checksum r s ≡ some bytes
    → read_back bytes ≡ record {
      next_committee = none;
      blk_proof = some (record { pub_keys = keys; checksum = checksum; r = r; s = s });
    }
proof-RoundTrips [] [] r [] bytes e = cc
proof-RoundTrips (k ∷ keys) checksum r s bytes e = cc
proof-RoundTrips [] (c ∷ checksum) r s bytes e = cc
proof-RoundTrips [] [] r (b ∷ s) bytes e = cc

extra-RoundTrips :
    (committee : Option ConsensusGroup) (proof : Option BlockProof) (bytes : Bytes)
    → encode_extra committee proof ≡ some bytes
    → read_back bytes ≡ record { next_committee = committee; blk_proof = proof }
extra-RoundTrips none none bytes e = cc
extra-RoundTrips none (some p) bytes e = proof-RoundTrips p.pub_keys p.checksum p.r p.s bytes e
extra-RoundTrips (some g) proof bytes e = cc

codec-RoundTrips : RoundTrips codec
codec-RoundTrips x bytes e =
    ap (λ y. some y) (extra-RoundTrips x.next_committee x.blk_proof bytes e)

abbrev externals : Externals ℕ ℕ
externals = record { hashing = hashing; codec = codec; fork_hashes_ok = λ h. true }

-- An external consensus that accepts block 5 only and counts its calls.
abbrev client : EcRpcCall ℕ String
client = record {
  send_verify_seal = λ n h p calls. if n == 5 then (none, calls + 1) else (some "no", calls + 1);
}

abbrev given : Header
given = record {
  parent_hash = 1;
  uncle_hash = 0;
  coinbase = 2;
  root = 3;
  tx_hash = 0;
  receipt_hash = 0;
  bloom = 0;
  difficulty = none;
  number = some 5;
  gas_limit = 100;
  gas_used = 50;
  time = 1000;
  extra = 8 ∷ [];
  mix_digest = 4;
  nonce = zero_nonce;
}

abbrev config : ChainConfig
config = record {
  chain_id = some 1337;
  homestead_block = none;
  dao_fork_block = none;
  dao_fork_support = false;
  eip150_block = none;
  eip150_hash = 0;
  eip155_block = none;
  eip158_block = some 4;
  byzantium_block = none;
  constantinople_block = none;
  petersburg_block = none;
  istanbul_block = none;
  muir_glacier_block = none;
  berlin_block = none;
  yolo_v3_block = none;
  ewasm_block = none;
  catalyst_block = none;
  ethash = none;
  clique = none;
  external_consensus = none;
}

abbrev root_of : Bool → ℕ → Hash × ℕ
root_of delete_empty state = (state, state)

abbrev proof : BlockProof
proof = record { pub_keys = []; checksum = []; r = 1 ∷ 2 ∷ []; s = [] }

abbrev unsealed : Block ℕ
unsealed = assembled externals config root_of given 23 (3 ∷ []) (4 ∷ [])

abbrev sealed : Block ℕ
sealed = with_seal unsealed (record (get_header unsealed) { extra = 1 ∷ 2 ∷ [] })

seals : seal_ecpon_bada {E = String} codec unsealed (some proof) none ≡ ok sealed
unfolding seal_ecpon_bada
seals = refl

seal-read_extra_example :
    (read_extra codec sealed.header
      ≡ record { committee = none; proof = some proof; failed = false })
    × (body sealed ≡ body unsealed)
    × (hash_for_ecpon hashing sealed.header ≡ hash_for_ecpon hashing unsealed.header)
    × (number_u64 sealed ≡ number_u64 unsealed)
seal-read_extra_example =
    seal-read_extra hashing codec unsealed proof none sealed codec-RoundTrips seals

verify_header-sealed_example :
    verify_header externals (some client) 999 sealed.header 0
    ≡ lift_remote (client.send_verify_seal 5 (header_hash hashing sealed.header) (some proof) 0)
verify_header-sealed_example =
    verify_header-sealed externals client config root_of given 23 (3 ∷ []) (4 ∷ []) 5 999 proof none
      sealed 0 codec-RoundTrips refl (omega arith) (omega arith) (omega arith) (omega arith) seals
      refl

verify_header_iff_example :
    ((verify_header externals (some client) 999 sealed.header 0).0 ≡ none)
    ↔ IsAccepted externals (some client) 999 sealed.header 0
verify_header_iff_example =
    verify_header_iff externals (some client) 999 sealed.header 0 (omega arith)

-- Three headers, with an abort behind the second.
abbrev batch : List (Header × ℕ × Bool)
batch = (sealed.header, 999, false) ∷ (given, 999, true) ∷ (sealed.header, 999, false) ∷ []
