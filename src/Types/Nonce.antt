-- ===== src/Types/Nonce.antt =====
-- core/types/block.go: `BlockNonce`, eight bytes in big-endian order.
pub mod RoundTrip
use ecgeth.Base.{ℕ, ◌+◌, ◌*◌, ◌/◌, ◌%◌, List, [], ◌∷◌, Bytes}

pub record BlockNonce : Type 0 where
  pub b0 : ℕ
  pub b1 : ℕ
  pub b2 : ℕ
  pub b3 : ℕ
  pub b4 : ℕ
  pub b5 : ℕ
  pub b6 : ℕ
  pub b7 : ℕ

abbrev byte : ℕ → ℕ
byte n = n % 256

-- `binary.BigEndian.PutUint64`: each byte is a shift of the number.
pub encode_nonce : ℕ → BlockNonce
encode_nonce i = record {
  b0 = byte (i / 0x100000000000000);
  b1 = byte (i / 0x1000000000000);
  b2 = byte (i / 0x10000000000);
  b3 = byte (i / 0x100000000);
  b4 = byte (i / 0x1000000);
  b5 = byte (i / 0x10000);
  b6 = byte (i / 0x100);
  b7 = byte i;
}

pub uint64 : BlockNonce → ℕ
uint64 n =
    n.b7
    + n.b6 * 0x100
    + n.b5 * 0x10000
    + n.b4 * 0x1000000
    + n.b3 * 0x100000000
    + n.b2 * 0x10000000000
    + n.b1 * 0x1000000000000
    + n.b0 * 0x100000000000000

-- `BlockNonce{}`
abbrev pub zero_nonce : BlockNonce
zero_nonce = record { b0 = 0; b1 = 0; b2 = 0; b3 = 0; b4 = 0; b5 = 0; b6 = 0; b7 = 0 }
