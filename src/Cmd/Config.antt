-- ===== src/Cmd/Config.antt =====
-- cmd/utils/flags.go: the values of the flags, and the configurations that are made of them. What the
-- package cli gives is the record `Values`; the fields are those that the flags set.
pub mod Parts
pub mod Account
pub mod Memory
pub mod Network
pub mod Eth
pub mod Prepare
pub mod Net
pub mod Node
mod Witnesses
use text.Mathlib.Text.{◌==◌ as str_eq}
use ecgeth.Base.{
  ℕ, Bool, true, false, ◌||◌, Option, List, String, Hash, Address, Bytes, if◌then◌else◌,
}
use ecgeth.Base.Int.{ℤ}
use ecgeth.Cmd.Flags.{Context}

-- `downloader.SyncMode`
pub data SyncSetting : Type 0 where
  full_mode fast_mode snap_mode light_mode : SyncSetting

-- `GlobalIsSet` and the functions on strings, in the context, and the getters for each type of flag.
-- `F` is the type of the floating-point numbers; a duration is its nanoseconds.
-- `int` is `GlobalInt`, `GlobalInt64`, `GlobalDuration` and `GlobalBig`.
pub record Values (F : Type 0) : Type 0 where
  pub context : Context
  pub text : String → String
  pub bool : String → Bool
  pub int : String → ℤ
  pub uint : String → ℕ
  pub float : String → F
  pub sync_mode : SyncSetting

module _ {F : Type 0} where
  abbrev pub is_set : Values F → String → Bool
  is_set v name = v.context.is_set name

  -- `GlobalSet` of a number, by which the flag counts as set.
  unfoldable pub set_int : String → ℤ → Values F → Values F
  set_int name z v = record v {
    context = record v.context { is_set = λ n. str_eq n name || v.context.is_set n };
    int = λ n. if str_eq n name then z else v.int n;
  }

  unfoldable pub set_uint : String → ℕ → Values F → Values F
  set_uint name k v = record v {
    context = record v.context { is_set = λ n. str_eq n name || v.context.is_set n };
    uint = λ n. if str_eq n name then k else v.uint n;
  }

pub record GpoConfig : Type 0 where
  pub blocks : ℤ
  pub percentile : ℤ
  pub max_price : Option ℤ

pub record TxPoolConfig : Type 0 where
  pub locals : List Address
  pub no_locals : Bool
  pub journal : String
  pub rejournal : ℤ
  pub price_limit : ℕ
  pub price_bump : ℕ
  pub account_slots : ℕ
  pub global_slots : ℕ
  pub account_queue : ℕ
  pub global_queue : ℕ
  pub lifetime : ℤ

pub record EthashSettings : Type 0 where
  pub cache_dir : String
  pub dataset_dir : String
  pub caches_in_mem : ℤ
  pub caches_on_disk : ℤ
  pub caches_lock_mmap : Bool
  pub datasets_in_mem : ℤ
  pub datasets_on_disk : ℤ
  pub datasets_lock_mmap : Bool

pub record MinerConfig : Type 0 where
  pub etherbase : Address
  pub notify : List String
  pub notify_full : Bool
  pub extra_data : Bytes
  pub gas_floor : ℕ
  pub gas_ceil : ℕ
  pub gas_price : Option ℤ
  pub recommit : ℤ
  pub noverify : Bool

-- The fields of `ethconfig.Config` for the les server and the ultra light client.
pub record LesConfig : Type 0 where
  pub light_serv : ℤ
  pub light_ingress : ℤ
  pub light_egress : ℤ
  pub light_peers : ℤ
  pub ultra_light_servers : List String
  pub ultra_light_fraction : ℤ
  pub ultra_light_only_announce : Bool
  pub light_no_prune : Bool
  pub light_no_sync_serve : Bool

-- The other fields of `ethconfig.Config` which the flags set. A URL list that is `nil` is none.
pub record EthConfig (G F : Type 0) : Type 0 where
  pub genesis : Option G
  pub network_id : ℕ
  pub sync_mode : SyncSetting
  pub eth_discovery_urls : Option (List String)
  pub snap_discovery_urls : Option (List String)
  pub no_pruning : Bool
  pub no_prefetch : Bool
  pub tx_lookup_limit : ℕ
  pub whitelist : List (ℕ × Hash)
  pub les : LesConfig
  pub database_handles : ℤ
  pub database_cache : ℤ
  pub database_freezer : String
  pub trie_clean_cache : ℤ
  pub trie_clean_cache_journal : String
  pub trie_clean_cache_rejournal : ℤ
  pub trie_dirty_cache : ℤ
  pub snapshot_cache : ℤ
  pub preimages : Bool
  pub miner : MinerConfig
  pub ethash : EthashSettings
  pub tx_pool : TxPoolConfig
  pub gpo : GpoConfig
  pub enable_preimage_recording : Bool
  pub doc_root : String
  pub ewasm_interpreter : String
  pub evm_interpreter : String
  pub rpc_gas_cap : ℕ
  pub rpc_tx_fee_cap : F
  pub ec_url : String
