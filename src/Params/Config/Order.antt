-- ===== src/Params/Config/Order.antt =====
-- params/config.go: `CheckConfigForkOrder`.
pub mod Schedule
use ecgeth.Base.{
  ℕ, ◌+◌, ◌≤◌, ◌<◌, ◌≡◌, ◌≢◌, refl, ◌↔◌, Bool, true, false, not, ◌&&◌, ◌||◌, Option, none, some,
  List, String, [], ◌∷◌, ◌++◌, arith, leb, ltb, ◌==◌, if◌then◌else◌, Option-cases, Bool-cases,
  is_nil,
}
use ecgeth.Params.Config.{ChainConfig, is_forked}
use ecgeth.Params.Config.Rules.{
  is_homestead, is_eip150, is_eip155, is_eip158, is_byzantium, is_constantinople, is_petersburg,
  is_istanbul,
}

-- The local type `fork`.
pub record Fork : Type 0 where
  pub name : String
  pub block : Option ℕ
  pub optional : Bool

pub data ForkOrderError : Type 0 where
  not_enabled : Fork → Fork → ForkOrderError
  enabled_later : Fork → Fork → ForkOrderError

-- The two tests against the last fork; a `lastFork` with no name is `none`.
compare_blocks : Fork → Fork → Option ℕ → Option ℕ → Option ForkOrderError
compare_blocks last cur none (some b) = some (not_enabled last cur)
compare_blocks last cur (some a) (some b) = if ltb b a then some (enabled_later last cur) else none
compare_blocks last cur _ none = none

compare_last : Option Fork → Fork → Option ForkOrderError
unfolding compare_blocks
compare_last none cur = none
compare_last (some last) cur = compare_blocks last cur last.block cur.block

next_last : Option Fork → Fork → Option Fork
next_last last cur = if not cur.optional || not (is_nil cur.block) then some cur else last

check_order : Option Fork → List Fork → Option ForkOrderError
unfolding compare_last next_last
check_order last [] = none
check_order last (cur ∷ rest) =
    let later = check_order (next_last last cur) rest in
    elim (compare_last last cur) [ some err ↦ some err | none ↦ later ]

required : String → Option ℕ → Fork
required name block = record { name = name; block = block; optional = false }

optionally : String → Option ℕ → Fork
optionally name block = record { name = name; block = block; optional = true }

forks : ChainConfig → List Fork
unfolding required optionally
forks c =
    required "homesteadBlock" c.homestead_block
    ∷ optionally "daoForkBlock" c.dao_fork_block
    ∷ required "eip150Block" c.eip150_block
    ∷ required "eip155Block" c.eip155_block
    ∷ required "eip158Block" c.eip158_block
    ∷ required "byzantiumBlock" c.byzantium_block
    ∷ required "constantinopleBlock" c.constantinople_block
    ∷ required "petersburgBlock" c.petersburg_block
    ∷ required "istanbulBlock" c.istanbul_block
    ∷ optionally "muirGlacierBlock" c.muir_glacier_block
    ∷ required "berlinBlock" c.berlin_block
    ∷ []

-- `CheckConfigForkOrder`
unfoldable pub check_config_fork_order : ChainConfig → Option ForkOrderError
unfolding check_order forks
check_config_fork_order c = check_order none (forks c)
