-- ===== src/Cmd/Config/Net.antt =====
-- cmd/utils/flags.go: `SetP2PConfig` with the setters that it calls. What the packages crypto, enode,
-- nat and netutil read of a text is a parameter; `Fatalf` and `log.Crit` end the program.
use ecgeth.Base.{
  Bool, true, false, ◌&&◌, ◌||◌, not, Option, none, some, List, [], ◌∷◌, String, if◌then◌else◌,
  is_nil,
}
use ecgeth.Base.Int.{ℤ, pos, ◌+ℤ◌, quotient, int64, eq_ℤ, ltb_ℤ}
use ecgeth.Base.Outcome.{Outcome, ok, err, ◌>>=◌}
use ecgeth.Cmd.Flags.{split_and_trim}
use ecgeth.Cmd.Config.{Values, is_set}
use ecgeth.Cmd.Config.Network.{Network, mainnet, ropsten, rinkeby, goerli, yolo_v3}

pub data NetError : Type 0 where
  exclusive_keys bad_key bad_bootnode bad_nat bad_netlist : NetError

-- `is_light` is the comparison of the text of a sync mode with "light".
pub record NetTools (Key Peer Nat Netlist : Type 0) : Type 0 where
  pub load_key : String → Option Key
  pub hex_key : String → Option Key
  pub parse_peer : String → Option Peer
  pub parse_nat : String → Option Nat
  pub parse_netlist : String → Option Netlist
  pub bootnodes : Network → List String
  pub bootnodes_v5 : List String
  pub port_text : ℤ → String
  pub is_light : String → Bool

-- The fields of `p2p.Config` that the flags set.
pub record P2pConfig (Key Peer Nat Netlist : Type 0) : Type 0 where
  pub private_key : Option Key
  pub nat : Option Nat
  pub listen_addr : String
  pub bootstrap_nodes : Option (List Peer)
  pub bootstrap_nodes_v5 : Option (List Peer)
  pub max_peers : ℤ
  pub max_pending_peers : ℤ
  pub no_discovery : Bool
  pub discovery_v5 : Bool
  pub net_restrict : Option Netlist
  pub no_dial : Bool

pub or_fail : {A : Type 0} → NetError → Option A → Outcome NetError A
or_fail e none = err e
or_fail e (some a) = ok a

module _ {Key Peer Nat Netlist F : Type 0} (t : NetTools Key Peer Nat Netlist) (v : Values F) where
  abbrev pub P2p : Type 0
  P2p = P2pConfig Key Peer Nat Netlist

  abbrev is_empty_text : String → Bool
  is_empty_text = v.context.is_empty_string

  unfoldable pub set_node_key : Option Key → Outcome NetError (Option Key)
  unfolding or_fail
  set_node_key old =
      let hex = v.text "nodekeyhex" in
      let file = v.text "nodekey" in
      if not (is_empty_text file) && not (is_empty_text hex)
      then err exclusive_keys
      else if not (is_empty_text file)
      then (or_fail bad_key (t.load_key file) >>= λ key. ok (some key))
      else if not (is_empty_text hex)
      then (or_fail bad_key (t.hex_key hex) >>= λ key. ok (some key))
      else ok old

  unfoldable pub set_nat : Option Nat → Outcome NetError (Option Nat)
  unfolding or_fail
  set_nat old =
      if is_set v "nat"
      then (or_fail bad_nat (t.parse_nat (v.text "nat")) >>= λ nat. ok (some nat))
      else ok old

  unfoldable pub set_listen_address : String → String
  set_listen_address old = if is_set v "port" then t.port_text (v.int "port") else old

  -- The URLs, or none where the nodes are set already.
  unfoldable pub bootstrap_urls : Option (List Peer) → Option (List String)
  bootstrap_urls old =
      if is_set v "bootnodes"
      then some (split_and_trim v.context (v.text "bootnodes"))
      else if v.bool "ropsten"
      then some (t.bootnodes ropsten)
      else if v.bool "rinkeby"
      then some (t.bootnodes rinkeby)
      else if v.bool "goerli"
      then some (t.bootnodes goerli)
      else if v.bool "yolov3"
      then some (t.bootnodes yolo_v3)
      else if is_nil old
      then some (t.bootnodes mainnet)
      else none

  -- The loop over the URLs; one that cannot be read ends the program.
  unfoldable pub parse_all : List String → Outcome NetError (List Peer)
  unfolding or_fail
  parse_all [] = ok []
  parse_all (url ∷ urls) =
      let rest = parse_all urls in
      let parsed =
        or_fail bad_bootnode (t.parse_peer url) >>= λ peer. (rest >>= λ peers. ok (peer ∷ peers)) in
      if is_empty_text url then rest else parsed

  abbrev pub bootstrap_with :
      Option (List Peer) → Option (List String) → Outcome NetError (Option (List Peer))
  bootstrap_with old none = ok old
  bootstrap_with old (some urls) = parse_all urls >>= λ peers. ok (some peers)

  unfoldable pub set_bootstrap_nodes : Option (List Peer) → Outcome NetError (Option (List Peer))
  unfolding bootstrap_urls parse_all
  set_bootstrap_nodes old = bootstrap_with old (bootstrap_urls old)

  abbrev with_peer : Option Peer → List Peer → List Peer
  with_peer none peers = peers
  with_peer (some peer) peers = peer ∷ peers

  -- The same loop for version 5, which leaves out what it cannot read.
  unfoldable pub parse_some : List String → List Peer
  parse_some [] = []
  parse_some (url ∷ urls) =
      let rest = parse_some urls in
      if is_empty_text url then rest else with_peer (t.parse_peer url) rest

  unfoldable pub set_bootstrap_nodes_v5 : Option (List Peer) → Option (List Peer)
  unfolding parse_some
  set_bootstrap_nodes_v5 old =
      if is_set v "bootnodes"
      then some (parse_some (split_and_trim v.context (v.text "bootnodes")))
      else if is_nil old
      then some (parse_some t.bootnodes_v5)
      else old

  abbrev pub light_client : Bool
  light_client = t.is_light (v.text "syncmode")

  abbrev pub light_server : Bool
  light_server = not (eq_ℤ (v.int "light.serve") (pos 0))

  -- `lightPeers`, with a tenth of the default for a client.
  unfoldable pub light_peers : ℤ
  light_peers =
      if light_client && not (is_set v "light.maxpeers")
      then quotient (v.int "light.maxpeers") 10
      else v.int "light.maxpeers"

  unfoldable pub peer_limit : ℤ → ℤ
  unfolding light_peers
  peer_limit old =
      if is_set v "maxpeers"
      then (if light_server && not (is_set v "light.maxpeers")
          then int64 (v.int "maxpeers" +ℤ light_peers)
          else v.int "maxpeers")
      else (let raised = if light_server then int64 (old +ℤ light_peers) else old in
          if light_client && is_set v "light.maxpeers" && ltb_ℤ raised light_peers
          then light_peers
          else raised)

  unfoldable pub discovers_v5 : Bool → Bool
  discovers_v5 old =
      if is_set v "v5disc"
      then v.bool "v5disc"
      else if (light_client || light_server) && not (v.bool "nodiscover")
      then true
      else old

  unfoldable pub set_netrestrict : Option Netlist → Outcome NetError (Option Netlist)
  unfolding or_fail
  set_netrestrict old =
      if is_empty_text (v.text "netrestrict")
      then ok old
      else or_fail bad_netlist (t.parse_netlist (v.text "netrestrict")) >>= λ l. ok (some l)

  -- The end: a developer's chain is not on the network.
  unfoldable pub take_offline : P2p → P2p
  take_offline cfg =
      let offline : P2p = record cfg {
        max_peers = pos 0;
        listen_addr = "";
        no_dial = true;
        no_discovery = true;
        discovery_v5 = false;
      } in
      if v.bool "dev" || v.bool "catalyst" then offline else cfg

  unfoldable pub set_p2p_config : P2p → Outcome NetError P2p
  unfolding set_node_key set_nat set_bootstrap_nodes set_bootstrap_nodes_v5 set_netrestrict
      take_offline
  set_p2p_config cfg = set_node_key cfg.private_key >>= λ key.
      (set_nat cfg.nat >>= λ nat.
      (set_bootstrap_nodes cfg.bootstrap_nodes >>= λ nodes.
      (set_netrestrict cfg.net_restrict >>= λ netlist. ok (
        take_offline (record {
          private_key = key;
          nat = nat;
          listen_addr = set_listen_address cfg.listen_addr;
          bootstrap_nodes = nodes;
          bootstrap_nodes_v5 = set_bootstrap_nodes_v5 cfg.bootstrap_nodes_v5;
          max_peers = peer_limit cfg.max_peers;
          max_pending_peers =
              if is_set v "maxpendpeers" then v.int "maxpendpeers" else cfg.max_pending_peers;
          no_discovery = is_set v "nodiscover" || light_client || cfg.no_discovery;
          discovery_v5 = discovers_v5 cfg.discovery_v5;
          net_restrict = netlist;
          no_dial = cfg.no_dial;
        })))))
