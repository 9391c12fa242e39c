-- ===== src/Cmd/Config/Node/Directory.antt =====
-- cmd/utils/flags.go: the two functions that choose the directory of the data.
use text.Mathlib.Text.{◌==◌ as str_eq}
use ecgeth.Base.{◌≡◌, refl, true, false, some, String, arith}
use ecgeth.Cmd.Config.{Values, is_set}
use ecgeth.Cmd.Config.Node.{Files, ropsten_dir, set_data_dir, make_data_dir}

module _ {F : Type 0} (v : Values F) (files : Files) where
  -- Whether or not the old directory of Ropsten is there, the new one is taken.
  pub ropsten_dir-new :
      (old : String) → ropsten_dir v files old ≡ files.join files.default_dir "ropsten"
  unfolding ropsten_dir
  ropsten_dir-new old = refl

  -- For a node with the default directory, no flag for it, and no developer's chain, the directory
  -- that `setDataDir` takes is the one that `MakeDataDir` gives the subcommands, on each network.
  pub set_data_dir-make_data_dir :
      is_set v "datadir" ≡ false
      → v.text "datadir" ≡ files.default_dir
      → v.context.is_empty_string files.default_dir ≡ false
      → v.bool "dev" ≡ false
      → str_eq files.default_dir files.default_dir ≡ true
      → make_data_dir v files ≡ some (set_data_dir v files files.default_dir)
  unfolding make_data_dir set_data_dir ropsten_dir
  set_data_dir-make_data_dir unset is_default filled network same =
      ground (arith, unset, is_default, filled, network, same)
