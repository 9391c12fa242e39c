-- ===== src/Cmd/Config/Parts.antt =====
-- cmd/utils/flags.go: `setGPO`, `setTxPool`, `setEthash`, `setMiner`, `setLes` and
-- `SetEcConnectorConfig`, which copy the flags that are set.
use ecgeth.Base.{Bool, some, List, [], ◌∷◌, ◌++◌, String, Address, Bytes, if◌then◌else◌}
use ecgeth.Base.Int.{pos}
use ecgeth.Base.Outcome.{Outcome, ok, err, ◌>>=◌}
use ecgeth.Cmd.Flags.{Fatal, bad_entry, ultra_light_fraction}
use ecgeth.Cmd.Config.{
  Values, is_set, GpoConfig, TxPoolConfig, EthashSettings, MinerConfig, LesConfig,
}

module _ {F : Type 0} (v : Values F) where
  abbrev if_set : {A : Type 0} → String → A → A → A
  if_set name value old = if is_set v name then value else old

  -- `light` replaces the number of blocks and the percentile by those of `LightClientGPO`.
  unfoldable pub set_gpo : Bool → GpoConfig → GpoConfig
  set_gpo light cfg = record {
    blocks = if_set "gpo.blocks" (v.int "gpo.blocks") (if light then pos 2 else cfg.blocks);
    percentile =
        if_set "gpo.percentile" (v.int "gpo.percentile") (if light then pos 60 else cfg.percentile);
    max_price = if_set "gpo.maxprice" (some (v.int "gpo.maxprice")) cfg.max_price;
  }

  module _ (is_hex_address : String → Bool) (hex_to_address : String → Address) where
    -- The loop over the accounts. The trimmed text is tested, and the whole one is read.
    unfoldable pub add_locals : List String → List Address → Outcome Fatal (List Address)
    add_locals [] locals = ok locals
    add_locals (account ∷ rest) locals =
        let added = add_locals rest (locals ++ hex_to_address account ∷ []) in
        if is_hex_address (v.context.trim account) then added else err bad_entry

    unfoldable pub set_tx_pool : TxPoolConfig → Outcome Fatal TxPoolConfig
    unfolding add_locals
    set_tx_pool cfg =
        if_set "txpool.locals"
          (add_locals (v.context.split (v.text "txpool.locals") ",") cfg.locals) (ok cfg.locals)
        >>= λ locals. ok (record {
          locals = locals;
          no_locals = if_set "txpool.nolocals" (v.bool "txpool.nolocals") cfg.no_locals;
          journal = if_set "txpool.journal" (v.text "txpool.journal") cfg.journal;
          rejournal = if_set "txpool.rejournal" (v.int "txpool.rejournal") cfg.rejournal;
          price_limit = if_set "txpool.pricelimit" (v.uint "txpool.pricelimit") cfg.price_limit;
          price_bump = if_set "txpool.pricebump" (v.uint "txpool.pricebump") cfg.price_bump;
          account_slots =
              if_set "txpool.accountslots" (v.uint "txpool.accountslots") cfg.account_slots;
          global_slots = if_set "txpool.globalslots" (v.uint "txpool.globalslots") cfg.global_slots;
          account_queue =
              if_set "txpool.accountqueue" (v.uint "txpool.accountqueue") cfg.account_queue;
          global_queue = if_set "txpool.globalqueue" (v.uint "txpool.globalqueue") cfg.global_queue;
          lifetime = if_set "txpool.lifetime" (v.int "txpool.lifetime") cfg.lifetime;
        })

  unfoldable pub set_ethash : EthashSettings → EthashSettings
  set_ethash cfg = record {
    cache_dir = if_set "ethash.cachedir" (v.text "ethash.cachedir") cfg.cache_dir;
    dataset_dir = if_set "ethash.dagdir" (v.text "ethash.dagdir") cfg.dataset_dir;
    caches_in_mem = if_set "ethash.cachesinmem" (v.int "ethash.cachesinmem") cfg.caches_in_mem;
    caches_on_disk = if_set "ethash.cachesondisk" (v.int "ethash.cachesondisk") cfg.caches_on_disk;
    caches_lock_mmap =
        if_set "ethash.cacheslockmmap" (v.bool "ethash.cacheslockmmap") cfg.caches_lock_mmap;
    datasets_in_mem = if_set "ethash.dagsinmem" (v.int "ethash.dagsinmem") cfg.datasets_in_mem;
    datasets_on_disk = if_set "ethash.dagsondisk" (v.int "ethash.dagsondisk") cfg.datasets_on_disk;
    datasets_lock_mmap =
        if_set "ethash.dagslockmmap" (v.bool "ethash.dagslockmmap") cfg.datasets_lock_mmap;
  }

  -- `bytes_of` is the conversion of a string to its bytes.
  unfoldable pub set_miner : (String → Bytes) → MinerConfig → MinerConfig
  set_miner bytes_of cfg = record {
    etherbase = cfg.etherbase;
    notify = if_set "miner.notify" (v.context.split (v.text "miner.notify") ",") cfg.notify;
    notify_full = v.bool "miner.notify.full";
    extra_data = if_set "miner.extradata" (bytes_of (v.text "miner.extradata")) cfg.extra_data;
    gas_floor = if_set "miner.gastarget" (v.uint "miner.gastarget") cfg.gas_floor;
    gas_ceil = if_set "miner.gaslimit" (v.uint "miner.gaslimit") cfg.gas_ceil;
    gas_price = if_set "miner.gasprice" (some (v.int "miner.gasprice")) cfg.gas_price;
    recommit = if_set "miner.recommit" (v.int "miner.recommit") cfg.recommit;
    noverify = if_set "miner.noverify" (v.bool "miner.noverify") cfg.noverify;
  }

  -- The default for the fraction is 75.
  unfoldable pub set_les : LesConfig → LesConfig
  set_les cfg = record {
    light_serv = if_set "light.serve" (v.int "light.serve") cfg.light_serv;
    light_ingress = if_set "light.ingress" (v.int "light.ingress") cfg.light_ingress;
    light_egress = if_set "light.egress" (v.int "light.egress") cfg.light_egress;
    light_peers = if_set "light.maxpeers" (v.int "light.maxpeers") cfg.light_peers;
    ultra_light_servers =
        if_set "ulc.servers" (v.context.split (v.text "ulc.servers") ",") cfg.ultra_light_servers;
    ultra_light_fraction =
        ultra_light_fraction (pos 75)
          (if_set "ulc.fraction" (v.int "ulc.fraction") cfg.ultra_light_fraction);
    ultra_light_only_announce =
        if_set "ulc.onlyannounce" (v.bool "ulc.onlyannounce") cfg.ultra_light_only_announce;
    light_no_prune = if_set "light.nopruning" (v.bool "light.nopruning") cfg.light_no_prune;
    light_no_sync_serve =
        if_set "light.nosyncserve" (v.bool "light.nosyncserve") cfg.light_no_sync_serve;
  }

  -- The URL of the configuration.
  unfoldable pub set_ec_connector_config : String → String
  set_ec_connector_config url =
      if_set "ecconnector.someparam" (v.text "ecconnector.someparam")
        (if_set "ecconnector.url" (v.text "ecconnector.url") url)
