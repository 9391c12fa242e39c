-- ===== src/Cmd/Config/Node.antt =====
-- cmd/utils/flags.go: `SetNodeConfig` with the setters that it calls beside `SetP2PConfig`, and
-- `MakeDataDir`. The file system and the operations on paths are parameters.
pub mod Directory
use text.Mathlib.Text.{◌==◌ as str_eq}
use ecgeth.Base.{
  ℕ, Bool, true, false, ◌&&◌, ◌||◌, not, Option, none, some, List, [], ◌∷◌, String, if◌then◌else◌,
}
use ecgeth.Base.Int.{ℤ, pos}
use ecgeth.Base.Outcome.{Outcome, ok, err, panics, ◌>>=◌}
use ecgeth.Cmd.Flags.{Context, Fatal, flag, check_exclusive, split_and_trim}
use ecgeth.Cmd.Config.{Values, is_set}
use ecgeth.Cmd.Config.Net.{NetError, NetTools, P2pConfig, set_p2p_config}

-- `exists_path` is whether `os.Stat` says anything but that a path does not exist, `is_socket` whether
-- it is a socket.
pub record Files : Type 0 where
  pub default_dir : String
  pub join : String → String → String
  pub exists_path : String → Bool
  pub is_socket : String → Bool

-- The fields of `node.Config` that the flags set. A list that is `nil` is empty.
pub record NodeConfig (P : Type 0) : Type 0 where
  pub p2p : P
  pub ipc_path : String
  pub http_host : String
  pub http_port : ℤ
  pub http_cors : List String
  pub http_modules : List String
  pub http_virtual_hosts : List String
  pub http_path_prefix : String
  pub allow_unprotected_txs : Bool
  pub graphql_cors : List String
  pub graphql_virtual_hosts : List String
  pub ws_host : String
  pub ws_port : ℤ
  pub ws_origins : List String
  pub ws_modules : List String
  pub ws_path_prefix : String
  pub user_ident : String
  pub data_dir : String
  pub smart_card_daemon_path : String
  pub external_signer : String
  pub key_store_dir : String
  pub use_lightweight_kdf : Bool
  pub usb : Bool
  pub insecure_unlock_allowed : Bool

pub data NodeError : Type 0 where
  bad_net : NetError → NodeError
  not_exclusive_ipc : Fatal → NodeError

module _ {F : Type 0} (v : Values F) where
  abbrev listed : String → List String → List String
  listed name old = if is_set v name then split_and_trim v.context (v.text name) else old

  abbrev text_of : String → String → String
  text_of name old = if is_set v name then v.text name else old

  abbrev int_of : String → ℤ → ℤ
  int_of name old = if is_set v name then v.int name else old

  abbrev bool_of : String → Bool → Bool
  bool_of name old = if is_set v name then v.bool name else old

  -- The host of an endpoint that a flag turns on.
  unfoldable pub endpoint_host : String → String → String → String
  endpoint_host name addr old =
      if v.bool name && v.context.is_empty_string old
      then if is_set v addr then v.text addr else "127.0.0.1"
      else old

  module _ {P : Type 0} where
    -- The new flags come after the old ones.
    unfoldable pub set_http : NodeConfig P → NodeConfig P
    set_http cfg = record cfg {
      http_host = endpoint_host "http" "http.addr" (endpoint_host "rpc" "rpcaddr" cfg.http_host);
      http_port = int_of "http.port" (int_of "rpcport" cfg.http_port);
      http_cors = listed "http.corsdomain" (listed "rpccorsdomain" cfg.http_cors);
      http_modules = listed "http.api" (listed "rpcapi" cfg.http_modules);
      http_virtual_hosts = listed "http.vhosts" (listed "rpcvhosts" cfg.http_virtual_hosts);
      http_path_prefix = text_of "http.rpcprefix" cfg.http_path_prefix;
      allow_unprotected_txs = bool_of "rpc.allow-unprotected-txs" cfg.allow_unprotected_txs;
    }

    unfoldable pub set_graphql : NodeConfig P → NodeConfig P
    set_graphql cfg = record cfg {
      graphql_cors = listed "graphql.corsdomain" cfg.graphql_cors;
      graphql_virtual_hosts = listed "graphql.vhosts" cfg.graphql_virtual_hosts;
    }

    unfoldable pub set_ws : NodeConfig P → NodeConfig P
    set_ws cfg = record cfg {
      ws_host = endpoint_host "ws" "ws.addr" cfg.ws_host;
      ws_port = int_of "ws.port" cfg.ws_port;
      ws_origins = listed "ws.origins" cfg.ws_origins;
      ws_modules = listed "ws.api" cfg.ws_modules;
      ws_path_prefix = text_of "ws.rpcprefix" cfg.ws_path_prefix;
    }

    unfoldable pub set_ipc : NodeConfig P → Outcome Fatal (NodeConfig P)
    set_ipc cfg =
        check_exclusive v.context (flag "ipcdisable" ∷ flag "ipcpath" ∷ []) >>= λ exclusive.
        ok (record cfg {
          ipc_path = if v.bool "ipcdisable" then "" else text_of "ipcpath" cfg.ipc_path;
        })

    unfoldable pub set_node_user_ident : NodeConfig P → NodeConfig P
    set_node_user_ident cfg = record cfg {
      user_ident =
          if v.context.is_empty_string (v.text "identity")
          then cfg.user_ident
          else v.text "identity";
    }

  module _ (files : Files) where
    unfoldable pub smart_card_path : String → String
    smart_card_path old =
        let path = v.text "pcscdpath" in
        if v.context.is_empty_string path
        then old
        else if not (files.exists_path path)
        then old
        else if not (files.is_socket path)
        then old
        else path

    -- The directory of Ropsten: the choice between the old directory and the new one is overwritten.
    unfoldable pub ropsten_dir : String → String
    ropsten_dir old =
        let legacy = files.join files.default_dir "testnet" in
        let chosen =
          if files.exists_path legacy then legacy else files.join files.default_dir "ropsten" in
        let overwritten = λ (dir : String). files.join files.default_dir "ropsten" in
        overwritten chosen

    -- `setDataDir`, given the directory of the configuration.
    unfoldable pub set_data_dir : String → String
    unfolding ropsten_dir
    set_data_dir old =
        let is_default = str_eq old files.default_dir in
        if is_set v "datadir"
        then v.text "datadir"
        else if v.bool "dev"
        then ""
        else if v.bool "ropsten" && is_default
        then ropsten_dir old
        else if v.bool "rinkeby" && is_default
        then files.join files.default_dir "rinkeby"
        else if v.bool "goerli" && is_default
        then files.join files.default_dir "goerli"
        else if v.bool "yolov3" && is_default
        then files.join files.default_dir "yolo-v3"
        else old

    -- `MakeDataDir`, with none where the program ends.
    unfoldable pub make_data_dir : Option String
    make_data_dir =
        let path = v.text "datadir" in
        if v.context.is_empty_string path
        then none
        else if v.bool "ropsten"
        then some (files.join path "ropsten")
        else if v.bool "rinkeby"
        then some (files.join path "rinkeby")
        else if v.bool "goerli"
        then some (files.join path "goerli")
        else if v.bool "yolov3"
        then some (files.join path "yolo-v3")
        else some path

    -- The end of `SetNodeConfig`, behind `setIPC`.
    unfoldable pub set_rest : {P : Type 0} → NodeConfig P → NodeConfig P
    unfolding set_http set_graphql set_ws set_node_user_ident
    set_rest cfg =
        let served = set_node_user_ident (set_ws (set_graphql (set_http cfg))) in
        record served {
          data_dir = set_data_dir cfg.data_dir;
          smart_card_daemon_path = smart_card_path cfg.smart_card_daemon_path;
          external_signer = text_of "signer" cfg.external_signer;
          key_store_dir = text_of "keystore" cfg.key_store_dir;
          use_lightweight_kdf = bool_of "lightkdf" cfg.use_lightweight_kdf;
          usb = bool_of "usb" cfg.usb;
          insecure_unlock_allowed = bool_of "allow-insecure-unlock" cfg.insecure_unlock_allowed;
        }

lift_net : {A : Type 0} → Outcome NetError A → Outcome NodeError A
lift_net (ok a) = ok a
lift_net (err e) = err (bad_net e)
lift_net panics = panics

lift_fatal : {A : Type 0} → Outcome Fatal A → Outcome NodeError A
lift_fatal (ok a) = ok a
lift_fatal (err e) = err (not_exclusive_ipc e)
lift_fatal panics = panics

module _ {Key Peer Nat Netlist F : Type 0} (t : NetTools Key Peer Nat Netlist) where
  unfoldable pub set_node_config :
      Files
      → Values F
      → NodeConfig (P2pConfig Key Peer Nat Netlist)
      → Outcome NodeError (NodeConfig (P2pConfig Key Peer Nat Netlist))
  unfolding set_p2p_config set_ipc lift_net lift_fatal
  set_node_config files v cfg = lift_net (set_p2p_config t v cfg.p2p) >>= λ p2p.
      (lift_fatal (set_ipc v (record cfg { p2p = p2p })) >>= λ cfg'. ok (set_rest v files cfg'))
