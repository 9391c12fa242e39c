-- ===== src/Connector/System/Witnesses.antt =====
-- ecconnector: the theorems on the connector as a whole, at a concrete node.
use Prim.Native.String as Text
use ecgeth.Base.{
  inl, inr, List, ℕ, zero, suc, ◌≡◌, refl, ap, none, some, List, [], ◌∷◌, ◌++◌, String, Hash, All,
  arith,
}
use ecgeth.Types.Block.{Block}
use ecgeth.Ecpon.Extra.{BlockProof, ExtraCodec}
use ecgeth.Connector.Batcher.Example.{node, node-Shrinks, config, backend, quiet}
use ecgeth.Connector.System.{System, new_connector}
use ecgeth.Connector.System.Consistent.{WasStored}
use ecgeth.Connector.System.Sent.{Reach-WasStored}
use ecgeth.Connector.System.Round.{round-writes}
use ecgeth.Connector.System.Write.{WriteEnds}

-- A codec that writes every extra data as one byte, and hashes as texts of their length.
abbrev codec : ExtraCodec
codec = record { encode = λ x. some (9 ∷ []); decode = λ bytes. none }

abbrev text : Hash → String
text zero = ""
text (suc n) = Text.◌∷◌ (Text.char_at "0" 0) (text n)

abbrev to_hash : String → Hash
to_hash Text.[] = 0
to_hash (Text.◌∷◌ c s) = suc (to_hash s)

to_hash-text : (h : Hash) → to_hash (text h) ≡ h
to_hash-text zero = refl
to_hash-text (suc n) = ap suc (to_hash-text n)

abbrev proof : BlockProof
proof = record { pub_keys = []; checksum = []; r = 1 ∷ []; s = [] }

abbrev new_one : System ℕ ℕ ℕ ℕ ℕ
new_one = new_connector node backend config codec to_hash 0

-- The chain of the example takes every block, and so it is sent.
takes_all :
    (u : System ℕ ℕ ℕ ℕ ℕ) (sealed : Block ℕ)
    → WriteEnds node backend config (some 1) 0 u.chain [] u.sent sealed
    → u.sent ≡ [] ++ sealed ∷ []
takes_all u sealed (inl (took, sent)) = sent
takes_all u sealed (inr (refused, same, none')) = absurd (cc refused)

-- The connector after a whole round has sent a block.
Reach-WasStored_example :
    (u : System ℕ ℕ ℕ ℕ ℕ) × (sealed : Block ℕ) × (u.sent ≡ [] ++ sealed ∷ [])
    × All (WasStored node backend config codec to_hash) u.sent
unfolding new_connector
Reach-WasStored_example =
    let (u, sealed, receipts, st, reach, number, counted, ends) =
      round-writes node backend config codec to_hash node-Shrinks new_one quiet quiet 1000 4 6 proof
        (9 ∷ []) text refl refl refl (omega arith) refl to_hash-text in
    (
      u,
      sealed,
      takes_all u sealed ends,
      Reach-WasStored node backend config codec to_hash node-Shrinks 0 reach,
    )
