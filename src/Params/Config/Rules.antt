-- ===== src/Params/Config/Rules.antt =====
-- params/config.go: the `Is…` methods of `ChainConfig` and `Rules`.
use ecgeth.Base.{ℕ, Bool, ◌&&◌, ◌||◌, Option, none, some, is_nil}
use ecgeth.Params.Config.{ChainConfig, is_forked}

module _ (c : ChainConfig) (num : Option ℕ) where
  unfoldable pub is_homestead : Bool
  is_homestead = is_forked c.homestead_block num

  unfoldable pub is_dao_fork : Bool
  is_dao_fork = is_forked c.dao_fork_block num

  unfoldable pub is_eip150 : Bool
  is_eip150 = is_forked c.eip150_block num

  unfoldable pub is_eip155 : Bool
  is_eip155 = is_forked c.eip155_block num

  unfoldable pub is_eip158 : Bool
  is_eip158 = is_forked c.eip158_block num

  unfoldable pub is_byzantium : Bool
  is_byzantium = is_forked c.byzantium_block num

  unfoldable pub is_constantinople : Bool
  is_constantinople = is_forked c.constantinople_block num

  unfoldable pub is_muir_glacier : Bool
  is_muir_glacier = is_forked c.muir_glacier_block num

  unfoldable pub is_petersburg : Bool
  is_petersburg =
      is_forked c.petersburg_block num
      || is_nil c.petersburg_block && is_forked c.constantinople_block num

  unfoldable pub is_istanbul : Bool
  is_istanbul = is_forked c.istanbul_block num

  unfoldable pub is_berlin : Bool
  is_berlin = is_forked c.berlin_block num || is_forked c.yolo_v3_block num

  unfoldable pub is_catalyst : Bool
  is_catalyst = is_forked c.catalyst_block num

  unfoldable pub is_ewasm : Bool
  is_ewasm = is_forked c.ewasm_block num

abbrev or_zero : Option ℕ → ℕ
or_zero none = 0
or_zero (some n) = n

pub record Rules : Type 0 where
  pub chain_id : ℕ
  pub is_homestead : Bool
  pub is_eip150 : Bool
  pub is_eip155 : Bool
  pub is_eip158 : Bool
  pub is_byzantium : Bool
  pub is_constantinople : Bool
  pub is_petersburg : Bool
  pub is_istanbul : Bool
  pub is_berlin : Bool
  pub is_catalyst : Bool

unfoldable pub rules : ChainConfig → Option ℕ → Rules
unfolding is_homestead is_eip150 is_eip155 is_eip158 is_byzantium is_constantinople is_petersburg
    is_istanbul is_berlin is_catalyst
rules c num = record {
  chain_id = or_zero c.chain_id;
  is_homestead = is_homestead c num;
  is_eip150 = is_eip150 c num;
  is_eip155 = is_eip155 c num;
  is_eip158 = is_eip158 c num;
  is_byzantium = is_byzantium c num;
  is_constantinople = is_constantinople c num;
  is_petersburg = is_petersburg c num;
  is_istanbul = is_istanbul c num;
  is_berlin = is_berlin c num;
  is_catalyst = is_catalyst c num;
}
