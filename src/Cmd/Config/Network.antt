-- ===== src/Cmd/Config/Network.antt =====
-- cmd/utils/flags.go: the choice of the network in `SetEthConfig`, with `SetDNSDiscoveryDefaults`. The
-- genesis blocks and the known networks, of the packages core and params, are parameters.
pub mod Chosen
use ecgeth.Base.{
  ℕ, ◌==◌, Bool, true, false, ◌&&◌, Option, none, some, List, [], ◌∷◌, String, Hash, Address,
  if◌then◌else◌,
}
use ecgeth.Base.Int.{ℤ, pos, int64}
use ecgeth.Base.Outcome.{Outcome, ok, err, panics}
use ecgeth.Cmd.Config.{
  Values, is_set, EthConfig, SyncSetting, full_mode, fast_mode, snap_mode, light_mode,
}
use ecgeth.Cmd.Config.Account.{AccountError, Keys, developer_account, make_password_list}

-- The cases of the switch.
pub data Network : Type 0 where
  mainnet ropsten rinkeby goerli yolo_v3 developer unnamed : Network

-- `period` is the block period of the developer's chain, as a `uint64`; `has_chain` is whether its
-- database has a block 0. `read_file` and `trim_right` are those of `make_password_list`.
pub record Presets (G : Type 0) : Type 0 where
  pub genesis : Network → G
  pub genesis_hash : Network → Hash
  pub developer_genesis : ℤ → Address → G
  pub known_dns_network : Hash → String → String
  pub has_chain : Bool
  pub read_file : String → Option String
  pub trim_right : String → String

-- The networks' numbers; that of the sixth is the text "yolov3x" read as bytes.
abbrev pub preset_id : Network → ℕ
preset_id mainnet = 1
preset_id ropsten = 3
preset_id rinkeby = 4
preset_id goerli = 5
preset_id yolo_v3 = 34180983699157880
preset_id developer = 1337
preset_id unnamed = 0

abbrev pub dns_protocol : SyncSetting → String
dns_protocol light_mode = "les"
dns_protocol _ = "all"

module _ {G F : Type 0} (p : Presets G) (v : Values F) where
  abbrev Config : Type 0
  Config = EthConfig G F

  unfoldable pub chosen_network : Network
  chosen_network =
      if v.bool "mainnet"
      then mainnet
      else if v.bool "ropsten"
      then ropsten
      else if v.bool "rinkeby"
      then rinkeby
      else if v.bool "goerli"
      then goerli
      else if v.bool "yolov3"
      then yolo_v3
      else if v.bool "dev"
      then developer
      else unnamed

  abbrev with_urls : String → Option (List String) → Config → Config
  with_urls url (some urls) cfg = cfg
  with_urls url none cfg = if v.context.is_empty_string url then cfg else record cfg {
    eth_discovery_urls = some (url ∷ []);
    snap_discovery_urls = some (url ∷ []);
  }

  -- `SetDNSDiscoveryDefaults`
  unfoldable pub set_dns_discovery_defaults : Hash → Config → Config
  set_dns_discovery_defaults hash cfg =
      with_urls (p.known_dns_network hash (dns_protocol cfg.sync_mode)) cfg.eth_discovery_urls cfg

  abbrev pub with_network_id : Network → Config → Config
  with_network_id n cfg = record cfg {
    network_id = if is_set v "networkid" then cfg.network_id else preset_id n;
  }

  -- The cases of a public network.
  unfoldable pub set_preset : Network → Config → Config
  unfolding set_dns_discovery_defaults
  set_preset n cfg =
      set_dns_discovery_defaults (p.genesis_hash n)
        (record (with_network_id n cfg) { genesis = some (p.genesis n) })

  -- The end of the developer's case: the genesis block, unless the database has one, and the price.
  abbrev pub with_developer : Address → Config → Config
  with_developer a cfg = record cfg {
    genesis =
        if is_set v "datadir" && p.has_chain
        then none
        else some (p.developer_genesis (v.int "dev.period") a);
    miner = record cfg.miner {
      gas_price = if is_set v "miner.gasprice" then cfg.miner.gas_price else some (pos 1);
    };
  }

  abbrev pub with_account :
      {K : Type 0} → Outcome AccountError (Address × K) → Config → Outcome AccountError Config
  with_account (ok (a, k)) cfg = ok (with_developer a (with_network_id developer cfg))
  with_account (err e) cfg = err e
  with_account panics cfg = panics

  abbrev pub with_passwords :
      {K : Type 0}
      → Keys K
      → Option K
      → Outcome AccountError (List String)
      → Config
      → Outcome AccountError Config
  with_passwords keys ks (ok passwords) cfg =
      with_account (developer_account keys passwords cfg.miner.etherbase ks) cfg
  with_passwords keys ks (err e) cfg = err e
  with_passwords keys ks panics cfg = panics

  unfoldable pub set_developer :
      {K : Type 0} → Keys K → Option K → Config → Outcome AccountError Config
  unfolding make_password_list
  set_developer keys ks cfg =
      with_passwords keys ks (make_password_list p.read_file p.trim_right v) cfg

  unfoldable pub set_on :
      {K : Type 0} → Keys K → Option K → Network → Config → Outcome AccountError Config
  unfolding set_developer set_preset
  set_on keys ks developer cfg = set_developer keys ks cfg
  set_on keys ks yolo_v3 cfg =
      ok (record (with_network_id yolo_v3 cfg) { genesis = some (p.genesis yolo_v3) })
  set_on keys ks unnamed cfg =
      ok (
        if cfg.network_id == 1
        then set_dns_discovery_defaults (p.genesis_hash mainnet) cfg
        else cfg)
  set_on keys ks mainnet cfg = ok (set_preset mainnet cfg)
  set_on keys ks ropsten cfg = ok (set_preset ropsten cfg)
  set_on keys ks rinkeby cfg = ok (set_preset rinkeby cfg)
  set_on keys ks goerli cfg = ok (set_preset goerli cfg)

  unfoldable pub set_network :
      {K : Type 0} → Keys K → Option K → Config → Outcome AccountError Config
  unfolding set_on chosen_network
  set_network keys ks cfg = set_on keys ks chosen_network cfg
