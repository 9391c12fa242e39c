-- ===== src/Cmd/Config/Eth.antt =====
-- cmd/utils/flags.go: `SetEthConfig`. Log lines and the trigger of the garbage collector are left out.
pub mod Budget
use text.Mathlib.Text.{◌==◌ as str_eq}
use ecgeth.Base.{
  ◌/◌, ℕ, ◌==◌, Bool, true, false, ◌&&◌, ◌||◌, not, Option, none, some, List, [], ◌∷◌, String, Hash,
  Address, Bytes, if◌then◌else◌,
}
use ecgeth.Base.Int.{ℤ, pos}
use ecgeth.Base.Outcome.{Outcome, ok, err, panics, ◌>>=◌}
use ecgeth.Cmd.Flags.{
  Context, Arg, flag, option, Fatal, check_exclusive, set_whitelist, split_and_trim,
}
use ecgeth.Cmd.Config.{Values, is_set, set_uint, EthConfig}
use ecgeth.Cmd.Config.Parts.{
  set_gpo, set_tx_pool, set_ethash, set_miner, set_les, set_ec_connector_config,
}
use ecgeth.Cmd.Config.Account.{AccountError, Keys, set_etherbase_flag}
use ecgeth.Cmd.Config.Memory.{cap_cache, set_caches, set_snapshots}
use ecgeth.Cmd.Config.Network.{Presets, set_network}

-- What ends the program.
pub data SetupError : Type 0 where
  bad_flags : Fatal → SetupError
  bad_account : AccountError → SetupError
  bad_gcmode no_handles : SetupError

-- The machine: whether an address has 32 bits, the bytes of memory if they are known, the
-- package fdlimit, and the conversion of a string to bytes.
pub record Machine : Type 0 where
  pub is_32bit : Bool
  pub memory : Option ℕ
  pub maximum : Option ℕ
  pub raise : ℕ → Option ℕ
  pub bytes_of : String → Bytes

unfoldable pub lift_error : {E A : Type 0} → (E → SetupError) → Outcome E A → Outcome SetupError A
lift_error f (ok a) = ok a
lift_error f (err e) = err (f e)
lift_error f panics = panics

abbrev pub whitelist_or : List (ℕ × Hash) → Option (List (ℕ × Hash)) → List (ℕ × Hash)
whitelist_or old none = old
whitelist_or old (some entries) = entries

module _ {F : Type 0} where
  -- The three checks of flags that exclude each other.
  unfoldable pub check_flags : Values F → Outcome Fatal Bool
  check_flags v =
      check_exclusive v.context (
        flag "mainnet"
        ∷ flag "dev"
        ∷ flag "ropsten"
        ∷ flag "rinkeby"
        ∷ flag "goerli"
        ∷ flag "yolov3"
        ∷ [])
      >>= λ first.
          (check_exclusive v.context (flag "light.serve" ∷ flag "syncmode" ∷ option "light" ∷ [])
            >>= λ second. check_exclusive v.context (flag "dev" ∷ flag "signer" ∷ []))

  -- An archive node keeps the index of all transactions.
  unfoldable pub without_unindexing : Values F → Values F
  unfolding set_uint
  without_unindexing v =
      if str_eq (v.text "gcmode") "archive" && not (v.uint "txlookuplimit" == 0)
      then set_uint "txlookuplimit" 0 v
      else v

  -- The URLs for the discovery by DNS.
  abbrev pub urls_of : Values F → Option (List String) → Option (List String)
  urls_of v old =
      if is_set v "nodiscover"
      then some []
      else if not (is_set v "discovery.dns")
      then old
      else if v.context.is_empty_string (v.text "discovery.dns")
      then some []
      else some (split_and_trim v.context (v.text "discovery.dns"))

-- `MakeDatabaseHandles`, with none where it ends the program.
unfoldable pub make_database_handles : Machine → Option ℤ
make_database_handles m = elim m.maximum [
  | none ↦ none
  | some limit ↦ elim (m.raise limit) [ none ↦ none | some raised ↦ some (pos (raised / 2)) ]
]

-- The flags and the configuration, or the end of the program.
abbrev pub Made : Type 0 → Type 0 → Type 0
Made G F = Outcome SetupError (Values F × EthConfig G F)

module _ {G F K : Type 0} (keys : Keys K) (p : Presets G) (m : Machine) where
  -- The setters from `setEtherbase` to `SetEcConnectorConfig`.
  unfoldable pub set_parts :
      Values F → Option K → EthConfig G F → Outcome SetupError (EthConfig G F)
  set_parts v ks cfg =
      lift_error bad_account (set_etherbase_flag keys v ks cfg.miner.etherbase) >>= λ etherbase.
      (lift_error bad_flags (set_tx_pool v keys.is_hex_address keys.hex_to_address cfg.tx_pool)
        >>= λ tx_pool.
            (lift_error bad_flags (set_whitelist v.context (v.text "whitelist")) >>= λ entries.
            ok (record cfg {
              gpo = set_gpo v (str_eq (v.text "syncmode") "light") cfg.gpo;
              tx_pool = tx_pool;
              ethash = set_ethash v cfg.ethash;
              miner = set_miner v m.bytes_of (record cfg.miner { etherbase = etherbase });
              whitelist = whitelist_or cfg.whitelist entries;
              les = set_les v cfg.les;
              ec_url = set_ec_connector_config v cfg.ec_url;
            })))

  -- What is set of the protocol and the database up to the pruning.
  unfoldable pub set_storage : Values F → EthConfig G F → Outcome SetupError (EthConfig G F)
  unfolding make_database_handles
  set_storage v cfg = elim (make_database_handles m) [
    | none ↦ err no_handles
    | some handles ↦
        let archive = str_eq (v.text "gcmode") "archive" in
        let no_pruning = if is_set v "gcmode" then archive else cfg.no_pruning in
        if not (str_eq (v.text "gcmode") "full" || archive)
        then err bad_gcmode
        else ok (record cfg {
          sync_mode = if is_set v "syncmode" then v.sync_mode else cfg.sync_mode;
          network_id = if is_set v "networkid" then v.uint "networkid" else cfg.network_id;
          database_handles = handles;
          database_freezer =
              if is_set v "datadir.ancient" then v.text "datadir.ancient" else cfg.database_freezer;
          no_pruning = no_pruning;
          no_prefetch =
              if is_set v "cache.noprefetch" then v.bool "cache.noprefetch" else cfg.no_prefetch;
          preimages = v.bool "cache.preimages" || no_pruning;
          tx_lookup_limit =
              if is_set v "txlookuplimit" then v.uint "txlookuplimit" else cfg.tx_lookup_limit;
          trie_clean_cache_journal =
              if is_set v "cache.trie.journal"
              then v.text "cache.trie.journal"
              else cfg.trie_clean_cache_journal;
          trie_clean_cache_rejournal =
              if is_set v "cache.trie.rejournal"
              then v.int "cache.trie.rejournal"
              else cfg.trie_clean_cache_rejournal;
        })
  ]

  -- What is set of the interpreters, the RPC limits and the discovery.
  unfoldable pub set_services : Values F → EthConfig G F → EthConfig G F
  set_services v cfg = record cfg {
    doc_root = if is_set v "docroot" then v.text "docroot" else cfg.doc_root;
    enable_preimage_recording =
        if is_set v "vmdebug" then v.bool "vmdebug" else cfg.enable_preimage_recording;
    ewasm_interpreter = if is_set v "vm.ewasm" then v.text "vm.ewasm" else cfg.ewasm_interpreter;
    evm_interpreter = if is_set v "vm.evm" then v.text "vm.evm" else cfg.evm_interpreter;
    rpc_gas_cap = if is_set v "rpc.gascap" then v.uint "rpc.gascap" else cfg.rpc_gas_cap;
    rpc_tx_fee_cap = if is_set v "rpc.txfeecap" then v.float "rpc.txfeecap" else cfg.rpc_tx_fee_cap;
    eth_discovery_urls = urls_of v cfg.eth_discovery_urls;
    snap_discovery_urls = if is_set v "nodiscover" then some [] else cfg.snap_discovery_urls;
  }

  abbrev pub end_with : Values F → Outcome SetupError (EthConfig G F) → Made G F
  end_with v (ok cfg) = ok (v, cfg)
  end_with v (err e) = err e
  end_with v panics = panics

  -- From the caches on.
  abbrev pub after_storage : Values F → Option K → Outcome SetupError (EthConfig G F) → Made G F
  after_storage v ks (ok cfg) = end_with v (
      lift_error bad_account
        (set_network p v keys ks (set_services v (set_snapshots v (set_caches v cfg)))))
  after_storage v ks (err e) = err e
  after_storage v ks panics = panics

  -- From the size of the memory on.
  abbrev pub after_parts : Values F → Option K → Outcome SetupError (EthConfig G F) → Made G F
  after_parts v ks (ok cfg) =
      let v' = cap_cache m.is_32bit m.memory v in after_storage v' ks (set_storage v' cfg)
  after_parts v ks (err e) = err e
  after_parts v ks panics = panics

  abbrev pub after_check : Values F → Option K → EthConfig G F → Outcome Fatal Bool → Made G F
  after_check v ks cfg (ok exclusive) =
      let v' = without_unindexing v in after_parts v' ks (set_parts v' ks cfg)
  after_check v ks cfg (err e) = err (bad_flags e)
  after_check v ks cfg panics = panics

  -- The flags that are left, and the configuration. `ks` is the key store, if there is one.
  unfoldable pub set_eth_config : Values F → Option K → EthConfig G F → Made G F
  unfolding set_parts set_storage set_services
  set_eth_config v ks cfg = after_check v ks cfg (check_flags v)
