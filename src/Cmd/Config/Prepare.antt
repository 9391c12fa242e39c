-- ===== src/Cmd/Config/Prepare.antt =====
-- cmd/geth/main.go: `prepare`, which sets the flag for the cache. Logs and metrics are left out.
use text.Mathlib.Text.{◌==◌ as str_eq}
use ecgeth.Base.{Bool, ◌&&◌, ◌||◌, not, if◌then◌else◌}
use ecgeth.Base.Int.{pos}
use ecgeth.Cmd.Config.{Values, is_set, set_int}

module _ {F : Type 0} where
  -- Whether one of the flags for test networks is set that `prepare` tests.
  unfoldable pub is_preset : Values F → Bool
  is_preset v = is_set v "ropsten" || is_set v "rinkeby" || is_set v "goerli" || is_set v "dev"

  unfoldable pub bump_cache : Values F → Values F
  unfolding is_preset set_int
  bump_cache v =
      let bumped = set_int "cache" (pos 4096) v in
      if not (str_eq (v.text "syncmode") "light")
        && not (is_set v "cache")
        && not (is_set v "networkid")
        && not (is_preset v)
      then bumped
      else v

  unfoldable pub drop_cache : Values F → Values F
  unfolding set_int
  drop_cache v =
      let dropped = set_int "cache" (pos 128) v in
      if str_eq (v.text "syncmode") "light" && not (is_set v "cache") then dropped else v

  unfoldable pub prepare_flags : Values F → Values F
  unfolding bump_cache drop_cache
  prepare_flags v = drop_cache (bump_cache v)
