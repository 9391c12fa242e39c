-- ===== src/Types/Header.antt =====
-- core/types/block.go: `Header` and its methods. A `*big.Int` that may be `nil` is an optional
-- number.
use ecgeth.Base.{
  ℕ, Bool, Option, none, some, Hash, Address, Bytes, length, ltb, leb, if◌then◌else◌, u64_mod, ◌^◌,
  ◌*◌,
}
use ecgeth.Types.Nonce.{BlockNonce}

pub record Header : Type 0 where
  pub parent_hash : Hash
  pub uncle_hash : Hash
  pub coinbase : Address
  pub root : Hash
  pub tx_hash : Hash
  pub receipt_hash : Hash
  pub bloom : ℕ
  pub difficulty : Option ℕ
  pub number : Option ℕ
  pub gas_limit : ℕ
  pub gas_used : ℕ
  pub time : ℕ
  pub extra : Bytes
  pub mix_digest : Hash
  pub nonce : BlockNonce

-- `new(big.Int)`, set to the number if there is one
abbrev pub copy_big : Option ℕ → Option ℕ
copy_big none = some 0
copy_big (some n) = some n

unfoldable pub copy_header : Header → Header
copy_header h = record h { difficulty = copy_big h.difficulty; number = copy_big h.number }

pub data SanityError : Type 0 where
  too_large_number too_large_difficulty too_large_extra : SanityError

abbrev is_uint64 : ℕ → Bool
is_uint64 n = ltb n u64_mod

-- `BitLen() > 80`: the number has a bit above the lowest 80.
abbrev has_more_than_80_bits : ℕ → Bool
has_more_than_80_bits n = leb (2 ^ 80) n

extra_check : Header → Option SanityError
extra_check h = if ltb (200 * 1024) (length h.extra) then some too_large_extra else none

difficulty_check : Option ℕ → Header → Option SanityError
unfolding extra_check
difficulty_check none h = extra_check h
difficulty_check (some d) h =
    if has_more_than_80_bits d then some too_large_difficulty else extra_check h

number_check : Option ℕ → Header → Option SanityError
unfolding difficulty_check
number_check none h = difficulty_check h.difficulty h
number_check (some n) h =
    if is_uint64 n then difficulty_check h.difficulty h else some too_large_number

unfoldable pub sanity_check : Header → Option SanityError
unfolding number_check
sanity_check h = number_check h.number h
