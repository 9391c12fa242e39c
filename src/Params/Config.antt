-- ===== src/Params/Config.antt =====
-- params/config.go, params/ecponconfig.go: `ChainConfig`, when its forks are active, and the checks
-- of a new configuration against the stored one. A `*big.Int` is an optional number, `nil` is
-- `none`; block numbers and chain ids are not negative.
pub mod Rules
pub mod Compat
pub mod Agreement
pub mod Order
mod Witnesses
use ecgeth.Base.{
  ℕ, ◌+◌, ◌-◌, ◌%◌, String, Bool, true, false, not, ◌&&◌, ◌||◌, Option, none, some, List, [], ◌∷◌,
  Hash, u64_mod, leb, ltb, ◌==◌, if◌then◌else◌, zero, suc,
}

pub data EthashConfig : Type 0 where
  ethash_config : EthashConfig

pub record CliqueConfig : Type 0 where
  pub period : ℕ
  pub epoch : ℕ

pub record ExternalConsensusConfig : Type 0 where
  pub authorizer : String
  pub consensus_protocol : String
  pub consensus_timeout : ℕ
  pub block_interval : ℕ

pub record ChainConfig : Type 0 where
  pub chain_id : Option ℕ
  pub homestead_block : Option ℕ
  pub dao_fork_block : Option ℕ
  pub dao_fork_support : Bool
  pub eip150_block : Option ℕ
  pub eip150_hash : Hash
  pub eip155_block : Option ℕ
  pub eip158_block : Option ℕ
  pub byzantium_block : Option ℕ
  pub constantinople_block : Option ℕ
  pub petersburg_block : Option ℕ
  pub istanbul_block : Option ℕ
  pub muir_glacier_block : Option ℕ
  pub berlin_block : Option ℕ
  pub yolo_v3_block : Option ℕ
  pub ewasm_block : Option ℕ
  pub catalyst_block : Option ℕ
  pub ethash : Option EthashConfig
  pub clique : Option CliqueConfig
  pub external_consensus : Option ExternalConsensusConfig

unfoldable pub is_forked : Option ℕ → Option ℕ → Bool
is_forked (some s) (some head) = leb s head
is_forked _ _ = false

unfoldable pub config_num_equal : Option ℕ → Option ℕ → Bool
config_num_equal none none = true
config_num_equal (some x) (some y) = x == y
config_num_equal _ _ = false

unfoldable pub is_fork_incompatible : Option ℕ → Option ℕ → Option ℕ → Bool
unfolding is_forked config_num_equal
is_fork_incompatible s1 s2 head =
    (is_forked s1 head || is_forked s2 head) && not (config_num_equal s1 s2)

pub record ConfigCompatError : Type 0 where
  pub what : String
  pub stored_config : Option ℕ
  pub new_config : Option ℕ
  pub rewind_to : ℕ

-- the `switch` that chooses `rew`
unfoldable pub earlier_block : Option ℕ → Option ℕ → Option ℕ
earlier_block none newblock = newblock
earlier_block (some s) none = some s
earlier_block (some s) (some n) = if ltb s n then some s else some n

-- `rew.Uint64() - 1`, in 64 bits
rewind_before : Option ℕ → ℕ
rewind_before none = 0
rewind_before (some rew) = if ltb 0 rew then (rew % u64_mod + u64_mod - 1) % u64_mod else 0

unfoldable pub new_compat_error : String → Option ℕ → Option ℕ → ConfigCompatError
unfolding earlier_block rewind_before
new_compat_error what storedblock newblock = record {
  what = what;
  stored_config = storedblock;
  new_config = newblock;
  rewind_to = rewind_before (earlier_block storedblock newblock);
}

bool_ne : Bool → Bool → Bool
bool_ne true b = not b
bool_ne false b = b

-- A run of `if test { return err }`: the first test that holds decides.
unfoldable pub first_error : List (Bool × ConfigCompatError) → Option ConfigCompatError
first_error [] = none
first_error ((test, err) ∷ rest) = if test then some err else first_error rest

module _ (c newcfg : ChainConfig) (head : Option ℕ) where
  abbrev fork_guard : String → Option ℕ → Option ℕ → Bool × ConfigCompatError
  fork_guard what stored new =
      (is_fork_incompatible stored new head, new_compat_error what stored new)

  -- The tests of `checkCompatible`, in its order.
  guards : List (Bool × ConfigCompatError)
  unfolding bool_ne
  guards =
      fork_guard "Homestead fork block" c.homestead_block newcfg.homestead_block
      ∷ fork_guard "DAO fork block" c.dao_fork_block newcfg.dao_fork_block
      ∷ (
        is_forked c.dao_fork_block head && bool_ne c.dao_fork_support newcfg.dao_fork_support,
        new_compat_error "DAO fork support flag" c.dao_fork_block newcfg.dao_fork_block,
      )
      ∷ fork_guard "EIP150 fork block" c.eip150_block newcfg.eip150_block
      ∷ fork_guard "EIP155 fork block" c.eip155_block newcfg.eip155_block
      ∷ fork_guard "EIP158 fork block" c.eip158_block newcfg.eip158_block
      ∷ (
        is_forked c.eip158_block head && not (config_num_equal c.chain_id newcfg.chain_id),
        new_compat_error "EIP158 chain ID" c.eip158_block newcfg.eip158_block,
      )
      ∷ fork_guard "Byzantium fork block" c.byzantium_block newcfg.byzantium_block
      ∷ fork_guard "Constantinople fork block" c.constantinople_block newcfg.constantinople_block
      ∷ (
        is_fork_incompatible c.petersburg_block newcfg.petersburg_block head
            && is_fork_incompatible c.constantinople_block newcfg.petersburg_block head,
        new_compat_error "Petersburg fork block" c.petersburg_block newcfg.petersburg_block,
      )
      ∷ fork_guard "Istanbul fork block" c.istanbul_block newcfg.istanbul_block
      ∷ fork_guard "Muir Glacier fork block" c.muir_glacier_block newcfg.muir_glacier_block
      ∷ fork_guard "Berlin fork block" c.berlin_block newcfg.berlin_block
      ∷ fork_guard "YOLOv3 fork block" c.yolo_v3_block newcfg.yolo_v3_block
      ∷ fork_guard "ewasm fork block" c.ewasm_block newcfg.ewasm_block
      ∷ []

  -- `checkCompatible`
  pub check_compatible_at : Option ConfigCompatError
  unfolding guards first_error
  check_compatible_at = first_error guards

abbrev same_rewind : Option ConfigCompatError → ConfigCompatError → Bool
same_rewind none err = false
same_rewind (some lasterr) err = err.rewind_to == lasterr.rewind_to

-- The loop of `CheckCompatible`, with fuel: the outer `none` means that the fuel ran out.
check_compatible_from :
    ℕ → ChainConfig → ChainConfig → Option ConfigCompatError → ℕ → Option (Option ConfigCompatError)
check_compatible_from zero c newcfg lasterr bhead = none
check_compatible_from (suc fuel) c newcfg lasterr bhead =
    elim (check_compatible_at c newcfg (some bhead)) [
      | none ↦ some lasterr
      | some err ↦
          let rest = check_compatible_from fuel c newcfg (some err) err.rewind_to in
          if same_rewind lasterr err then some lasterr else rest
    ]

-- `CheckCompatible`
pub check_compatible : ChainConfig → ChainConfig → ℕ → Option (Option ConfigCompatError)
unfolding check_compatible_from
check_compatible c newcfg height = check_compatible_from (height + 2) c newcfg none height
