-- ===== src/Cmd/Config/Network/Chosen.antt =====
-- cmd/utils/flags.go: what the choice of the network makes of the configuration.
use ecgeth.Base.{
  ℕ, true, false, ◌==◌, ◌≡◌, ◌⊎◌, inl, inr, refl, Option, none, some, List, String, Hash, Address,
  arith, choose, if◌then◌else◌, Option-cases,
}
use ecgeth.Base.Outcome.{Outcome, ok, err, panics, from_ok}
use ecgeth.Cmd.Config.{Values, is_set, EthConfig}
use ecgeth.Cmd.Config.Account.{AccountError, Keys, make_password_list, developer_account}
use ecgeth.Cmd.Config.Network.{
  Network, mainnet, ropsten, rinkeby, goerli, yolo_v3, developer, unnamed, Presets, preset_id,
  chosen_network, set_dns_discovery_defaults, set_preset, with_account, with_developer,
  with_network_id, with_passwords, set_developer, set_on, set_network,
}

module _ {G F : Type 0} (p : Presets G) (v : Values F) where
  -- The number that the configuration had if the flag for it is set, else that of the network.
  abbrev pub expected_id : Network → EthConfig G F → ℕ
  expected_id unnamed cfg = cfg.network_id
  expected_id n cfg = if is_set v "networkid" then cfg.network_id else preset_id n

  abbrev pub KeepsUrls : EthConfig G F → EthConfig G F → Type 0
  KeepsUrls cfg cfg' =
      (urls : List String)
      → cfg.eth_discovery_urls ≡ some urls
      → cfg'.eth_discovery_urls ≡ some urls

  dns_lem :
      (hash : Hash) (cfg : EthConfig G F)
      → ((set_dns_discovery_defaults p v hash cfg).network_id ≡ cfg.network_id)
        × ((set_dns_discovery_defaults p v hash cfg).genesis ≡ cfg.genesis)
        × KeepsUrls cfg (set_dns_discovery_defaults p v hash cfg)
  unfolding set_dns_discovery_defaults
  dns_lem hash cfg = elim (Option-cases cfg.eth_discovery_urls) [
    | inr (urls, e) ↦ ground arith
    | inl e ↦ ground arith
  ]

  module _ {K : Type 0} (keys : Keys K) (ks : Option K) where
    -- No genesis block where a data directory is given whose database has a block 0, else the one for
    -- the account.
    abbrev pub DeveloperGenesis : Address → EthConfig G F → Type 0
    DeveloperGenesis a cfg' =
        ((is_set v "datadir" ≡ true) × (p.has_chain ≡ true) × (cfg'.genesis ≡ none))
        ⊎ (((is_set v "datadir" ≡ false) ⊎ (p.has_chain ≡ false))
            × (cfg'.genesis ≡ some (p.developer_genesis (v.int "dev.period") a)))

    -- The account is the one that `developer_account` gives for the passwords of the password file.
    abbrev pub IsDeveloper : EthConfig G F → EthConfig G F → Type 0
    IsDeveloper cfg cfg' =
        (passwords : List String) × (a : Address) × (k : K) × (make_password_list p.read_file
            p.trim_right v
          ≡ ok passwords)
        × (developer_account keys passwords cfg.miner.etherbase ks ≡ ok (a, k))
        × DeveloperGenesis a cfg'

    -- The genesis block is that of the network.
    abbrev pub HasGenesis : Network → EthConfig G F → EthConfig G F → Type 0
    HasGenesis unnamed cfg cfg' = cfg'.genesis ≡ cfg.genesis
    HasGenesis developer cfg cfg' = IsDeveloper cfg cfg'
    HasGenesis n cfg cfg' = cfg'.genesis ≡ some (p.genesis n)

    abbrev pub Suits : Network → EthConfig G F → EthConfig G F → Type 0
    Suits n cfg cfg' =
        (cfg'.network_id ≡ expected_id n cfg) × HasGenesis n cfg cfg' × KeepsUrls cfg cfg'

    with_developer-Genesis :
        (a : Address) (cfg : EthConfig G F) → DeveloperGenesis a (with_developer p v a cfg)
    with_developer-Genesis a cfg = ground arith

    with_account-Suits :
        (passwords : List String) (o : Outcome AccountError (Address × K))
        (cfg cfg' : EthConfig G F)
        → make_password_list p.read_file p.trim_right v ≡ ok passwords
        → developer_account keys passwords cfg.miner.etherbase ks ≡ o
        → with_account p v o cfg ≡ ok cfg'
        → Suits developer cfg cfg'
    with_account-Suits passwords (ok (a, k)) cfg cfg' r found e = from_ok (Suits developer cfg) e (
      refl,
      (passwords, a, k, r, found, with_developer-Genesis a (with_network_id p v developer cfg)),
      λ urls h. h,
    )
    with_account-Suits passwords (err x) cfg cfg' r found e = absurd (cc e)
    with_account-Suits passwords panics cfg cfg' r found e = absurd (cc e)

    with_passwords-Suits :
        (o : Outcome AccountError (List String)) (cfg cfg' : EthConfig G F)
        → make_password_list p.read_file p.trim_right v ≡ o
        → with_passwords p v keys ks o cfg ≡ ok cfg'
        → Suits developer cfg cfg'
    with_passwords-Suits (ok passwords) cfg cfg' r e =
        with_account-Suits passwords (developer_account keys passwords cfg.miner.etherbase ks) cfg
          cfg' r refl e
    with_passwords-Suits (err x) cfg cfg' r e = absurd (cc e)
    with_passwords-Suits panics cfg cfg' r e = absurd (cc e)

    set_on-Suits :
        (n : Network) (cfg cfg' : EthConfig G F)
        → set_on p v keys ks n cfg ≡ ok cfg'
        → Suits n cfg cfg'
    unfolding set_on set_preset set_developer
    set_on-Suits mainnet cfg cfg' e = from_ok (Suits mainnet cfg) e (dns_lem _ _)
    set_on-Suits ropsten cfg cfg' e = from_ok (Suits ropsten cfg) e (dns_lem _ _)
    set_on-Suits rinkeby cfg cfg' e = from_ok (Suits rinkeby cfg) e (dns_lem _ _)
    set_on-Suits goerli cfg cfg' e = from_ok (Suits goerli cfg) e (dns_lem _ _)
    set_on-Suits yolo_v3 cfg cfg' e = from_ok (Suits yolo_v3 cfg) e (refl, refl, λ urls h. h)
    set_on-Suits unnamed cfg cfg' e = from_ok (Suits unnamed cfg) e (
        choose (Suits unnamed cfg) (cfg.network_id == 1) _ _
          (λ one. dns_lem (p.genesis_hash mainnet) cfg) (λ other. (refl, refl, λ urls h. h)))
    set_on-Suits developer cfg cfg' e =
        with_passwords-Suits (make_password_list p.read_file p.trim_right v) cfg cfg' refl e

    -- Where the choice of the network does not end the program, the number of the network stays as
    -- it was if no network is named or the flag for the number is set, and else is that of the
    -- network; the URLs for the discovery that were set before are kept. The genesis block stays if
    -- no network is named, and else is that of the network. For a developer it is none where a data
    -- directory is given whose database has a block 0, and else the one for the account that is
    -- found or made with the passwords read.
    pub set_network-Suits :
        (cfg cfg' : EthConfig G F)
        → set_network p v keys ks cfg ≡ ok cfg'
        → Suits (chosen_network p v) cfg cfg'
    unfolding set_network
    set_network-Suits cfg cfg' e = set_on-Suits (chosen_network p v) cfg cfg' e
