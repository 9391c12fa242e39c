-- ===== src/Cmd/Config/Witnesses.antt =====
-- cmd/utils/flags.go: the theorems on the configuration, at the flags of a test network.
use text.Mathlib.Text.{◌==◌ as str_eq}
use ecgeth.Base.{
  ℕ, ◌≡◌, ◌^◌, ◌*◌, refl, false, ◌||◌, none, some, [], ◌∷◌, String, arith, if◌then◌else◌,
}
use ecgeth.Base.Int.{ℤ, pos}
use ecgeth.Base.Outcome.{ok}
use ecgeth.Cmd.Flags.{check_exclusive, set_whitelist, ultra_light_fraction}
use ecgeth.Cmd.Config.Parts.{
  set_gpo, set_tx_pool, set_ethash, set_miner, set_les, set_ec_connector_config,
}
use ecgeth.Cmd.Config.{Values, EthConfig, full_mode, snap_mode, set_int}
use ecgeth.Cmd.Config.Account.{Keys, set_etherbase_flag}
use ecgeth.Cmd.Config.Memory.{allowance, cap_cache, share, share_of, set_caches, set_snapshots}
use ecgeth.Cmd.Config.Memory.Budget.{Fits, Shares}
use ecgeth.Cmd.Config.Network.{Presets, chosen_network, set_network, set_dns_discovery_defaults}
use ecgeth.Cmd.Config.Network.Chosen.{Suits, set_network-Suits}
use ecgeth.Cmd.Config.Eth.{
  Machine, make_database_handles, lift_error, check_flags, set_parts, set_storage, set_services,
  without_unindexing, set_eth_config,
}
use ecgeth.Cmd.Config.Eth.Budget.{set_eth_config-Fits}

-- `--goerli --cache 8192` on a machine with 12 GB.
abbrev percent : String → ℤ
percent name =
    if str_eq name "cache"
    then pos 8192
    else if str_eq name "cache.database"
    then pos 50
    else if str_eq name "cache.trie"
    then pos 15
    else if str_eq name "cache.gc"
    then pos 25
    else pos 10

abbrev values : Values ℕ
values = record {
  context = record {
    is_set = λ name. str_eq name "cache" || str_eq name "goerli";
    has_value = λ name value. false;
    split = λ text separator. text ∷ [];
    trim = λ text. text;
    is_empty_string = λ text. str_eq text "";
    parse_uint = λ text. none;
    unmarshal_hash = λ text. none;
  };
  text = λ name. if str_eq name "gcmode" then "full" else "";
  bool = λ name. str_eq name "goerli";
  int = percent;
  uint = λ name. 0;
  float = λ name. 0;
  sync_mode = snap_mode;
}

abbrev start : EthConfig ℕ ℕ
start = record {
  genesis = none;
  network_id = 1;
  sync_mode = full_mode;
  eth_discovery_urls = none;
  snap_discovery_urls = none;
  no_pruning = false;
  no_prefetch = false;
  tx_lookup_limit = 2350000;
  whitelist = [];
  les = record {
    light_serv = pos 0;
    light_ingress = pos 0;
    light_egress = pos 0;
    light_peers = pos 100;
    ultra_light_servers = [];
    ultra_light_fraction = pos 75;
    ultra_light_only_announce = false;
    light_no_prune = false;
    light_no_sync_serve = false;
  };
  database_handles = pos 0;
  database_cache = pos 512;
  database_freezer = "";
  trie_clean_cache = pos 154;
  trie_clean_cache_journal = "triecache";
  trie_clean_cache_rejournal = pos 60;
  trie_dirty_cache = pos 256;
  snapshot_cache = pos 102;
  preimages = false;
  miner = record {
    etherbase = 0;
    notify = [];
    notify_full = false;
    extra_data = [];
    gas_floor = 8000000;
    gas_ceil = 8000000;
    gas_price = some (pos 1000000000);
    recommit = pos 3;
    noverify = false;
  };
  ethash = record {
    cache_dir = "ethash";
    dataset_dir = "";
    caches_in_mem = pos 2;
    caches_on_disk = pos 3;
    caches_lock_mmap = false;
    datasets_in_mem = pos 1;
    datasets_on_disk = pos 2;
    datasets_lock_mmap = false;
  };
  tx_pool = record {
    locals = [];
    no_locals = false;
    journal = "transactions.rlp";
    rejournal = pos 60;
    price_limit = 1;
    price_bump = 10;
    account_slots = 16;
    global_slots = 4096;
    account_queue = 64;
    global_queue = 1024;
    lifetime = pos 3;
  };
  gpo = record { blocks = pos 20; percentile = pos 60; max_price = none };
  enable_preimage_recording = false;
  doc_root = "";
  ewasm_interpreter = "";
  evm_interpreter = "";
  rpc_gas_cap = 25000000;
  rpc_tx_fee_cap = 1;
  ec_url = "";
}

abbrev keys : Keys ℕ
keys = record {
  accounts = λ k. [];
  new_account = λ passphrase k. some (k, k);
  unlock = λ a passphrase k. some k;
  is_hex_address = λ text. false;
  hex_to_address = λ text. 0;
  atoi = λ text. none;
}

abbrev presets : Presets ℕ
presets = record {
  genesis = λ n. 5;
  genesis_hash = λ n. 6;
  developer_genesis = λ period a. 7;
  known_dns_network = λ hash protocol. "enrtree";
  has_chain = false;
  read_file = λ path. none;
  trim_right = λ text. text;
}

abbrev machine : Machine
machine = record {
  is_32bit = false;
  memory = some (12 * 2 ^ 30);
  maximum = some 1024;
  raise = λ limit. some limit;
  bytes_of = λ text. [];
}

abbrev goerli_config : EthConfig ℕ ℕ
goerli_config = record start {
  genesis = some 5;
  network_id = 5;
  eth_discovery_urls = some ("enrtree" ∷ []);
  snap_discovery_urls = some ("enrtree" ∷ []);
}

chooses : set_network presets values keys none start ≡ ok goerli_config
unfolding set_network chosen_network set_dns_discovery_defaults
chooses = refl

set_network-Suits_example :
    Suits presets values keys none (chosen_network presets values) start goerli_config
set_network-Suits_example = set_network-Suits presets values keys none start goerli_config chooses

values-Shares : Shares values 8192
values-Shares = record {
  set = refl;
  cache = refl;
  a = 50;
  b = 15;
  d = 25;
  e = 10;
  for_database = refl;
  for_clean = refl;
  for_dirty = refl;
  for_snapshot = refl;
  fits = omega arith;
  small = omega arith;
}

-- A third of 12 GB is 4096 MB; without the snapshots their share is with the clean tries.
abbrev capped_config : EthConfig ℕ ℕ
capped_config = record goerli_config {
  database_handles = pos 512;
  database_cache = pos 2048;
  trie_clean_cache = pos 1023;
  trie_dirty_cache = pos 1024;
  snapshot_cache = pos 0;
}

configures :
    set_eth_config keys presets machine values none start
    ≡ ok (set_int "cache" (pos 4096) values, capped_config)
unfolding set_eth_config make_database_handles check_flags check_exclusive lift_error set_parts
    set_etherbase_flag set_tx_pool set_whitelist set_storage without_unindexing cap_cache allowance
    set_caches share_of share set_snapshots set_services set_network chosen_network
    set_dns_discovery_defaults set_int set_gpo set_ethash set_miner set_les set_ec_connector_config
    ultra_light_fraction
configures = refl

set_eth_config-Fits_example :
    Fits 8192 capped_config × Fits (allowance false (12 * 2 ^ 30)) capped_config
set_eth_config-Fits_example =
    set_eth_config-Fits keys presets machine values (set_int "cache" (pos 4096) values) none start
      capped_config 8192 (12 * 2 ^ 30) values-Shares refl configures
