-- ===== src/Params/Config/Witnesses.antt =====
-- params/config.go: the theorems on configurations, at concrete ones.
use ecgeth.Base.{◌≡◌, refl, ◌↔◌, true, false, Option, none, some, arith}
use ecgeth.Params.Config.{
  ChainConfig, ConfigCompatError, is_fork_incompatible, new_compat_error, check_compatible_at,
  check_compatible,
}
use ecgeth.Params.Config.Rules.{is_petersburg}
use ecgeth.Params.Config.Compat.{Resolves, check_compatible-Resolves}
use ecgeth.Params.Config.Agreement.{
  SameForks, with_petersburg, check_compatible-SameForks, petersburg_postponed,
}
use ecgeth.Params.Config.Order.{check_config_fork_order}
use ecgeth.Params.Config.Order.Schedule.{InOrder, check_config_fork_order_iff}

-- A chain that has switched its forks on from block 2 to block 9.
abbrev stored : ChainConfig
stored = record {
  chain_id = some 1337;
  homestead_block = some 2;
  dao_fork_block = none;
  dao_fork_support = false;
  eip150_block = some 3;
  eip150_hash = 0;
  eip155_block = some 4;
  eip158_block = some 4;
  byzantium_block = some 5;
  constantinople_block = some 6;
  petersburg_block = some 7;
  istanbul_block = some 8;
  muir_glacier_block = none;
  berlin_block = some 9;
  yolo_v3_block = none;
  ewasm_block = none;
  catalyst_block = none;
  ethash = none;
  clique = none;
  external_consensus = none;
}

-- The same chain with Byzantium at block 6, and with Homestead at block 1 too.
abbrev later_byzantium : ChainConfig
later_byzantium = record stored { byzantium_block = some 6 }

abbrev two_changes : ChainConfig
two_changes = record later_byzantium { homestead_block = some 1 }

-- The same chain, which does not set Petersburg.
abbrev no_petersburg : ChainConfig
no_petersburg = record stored { petersburg_block = none }

rewinds_twice :
    check_compatible stored two_changes 20
    ≡ some (
        some (record {
          what = "Homestead fork block";
          stored_config = some 2;
          new_config = some 1;
          rewind_to = 0;
        }))
unfolding check_compatible check_compatible_at is_fork_incompatible new_compat_error
rewinds_twice = refl

check_compatible-Resolves_example :
    (r : Option ConfigCompatError) × (check_compatible stored later_byzantium 20 ≡ some r)
    × Resolves stored later_byzantium 20 r
check_compatible-Resolves_example =
    check_compatible-Resolves stored later_byzantium 20 (omega arith)

passes_at_four : check_compatible_at stored later_byzantium (some 4) ≡ none
unfolding check_compatible_at is_fork_incompatible
passes_at_four = refl

check_compatible-SameForks_example : SameForks stored later_byzantium 3
check_compatible-SameForks_example =
    check_compatible-SameForks stored later_byzantium 4 3 (omega arith) passes_at_four

petersburg_postponed_example :
    (check_compatible_at no_petersburg (with_petersburg no_petersburg (some 50)) (some 20) ≡ none)
    × (is_petersburg no_petersburg (some 10) ≡ true)
    × (is_petersburg (with_petersburg no_petersburg (some 50)) (some 10) ≡ false)
petersburg_postponed_example =
    petersburg_postponed no_petersburg 6 10 20 50 refl refl (omega arith) (omega arith)
      (omega arith)

check_config_fork_order_iff_example : (check_config_fork_order stored ≡ none) ↔ InOrder stored
check_config_fork_order_iff_example = check_config_fork_order_iff stored
