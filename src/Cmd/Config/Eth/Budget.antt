-- ===== src/Cmd/Config/Eth/Budget.antt =====
-- cmd/utils/flags.go: the memory that `SetEthConfig` gives to the caches.
use text.Mathlib.Text.{◌==◌ as str_eq}
use ecgeth.Base.{
  ◌&&◌, not, ℕ, ◌≡◌, ◌≤◌, refl, sym, ◌∙◌, subst, Bool, true, false, ◌==◌, Option, some, List,
  String, Hash, Address, arith, ltb, choose, inl, inr, Bool-cases, Option-cases, if_true, if_false,
}
use ecgeth.Base.Int.{pos, ltb_ℤ}
use ecgeth.Base.Outcome.{Outcome, ok, err, panics, from_ok}
use ecgeth.Cmd.Flags.{Fatal}
use ecgeth.Cmd.Config.{Values, set_int, set_uint, EthConfig}
use ecgeth.Cmd.Config.Memory.{allowance, cap_cache, set_caches, set_snapshots}
use ecgeth.Cmd.Config.Memory.Budget.{Fits, Shares, set_snapshots-Fits}
use ecgeth.Cmd.Config.Account.{AccountError, Keys, make_password_list, developer_account}
use ecgeth.Cmd.Config.Network.{
  Network, mainnet, ropsten, rinkeby, goerli, yolo_v3, developer, unnamed, Presets,
  set_dns_discovery_defaults, set_preset, with_account, with_passwords, set_developer, set_on,
  set_network,
}
use ecgeth.Cmd.Config.Eth.{
  SetupError, bad_account, Machine, lift_error, without_unindexing, set_services, end_with,
  after_storage, after_parts, after_check, set_eth_config,
}

module _ {F : Type 0} where
  without_unindexing-Shares : (v : Values F) (c : ℕ) → Shares v c → Shares (without_unindexing v) c
  unfolding without_unindexing set_uint
  without_unindexing-Shares v c s =
      choose (λ (x : Values F). Shares x c)
        (str_eq (v.text "gcmode") "archive" && not (v.uint "txlookuplimit" == 0))
        (set_uint "txlookuplimit" 0 v) v
        (λ archive. record {
          set = s.set;
          cache = s.cache;
          a = s.a;
          b = s.b;
          d = s.d;
          e = s.e;
          for_database = s.for_database;
          for_clean = s.for_clean;
          for_dirty = s.for_dirty;
          for_snapshot = s.for_snapshot;
          fits = s.fits;
          small = s.small;
        })
        (λ full. s)

  -- The cache is capped to `c'`.
  record Capped (v : Values F) (most c c' : ℕ) : Type 0 where
    pub shares : Shares v c'
    pub at_most : c' ≤ most
    pub no_more : c' ≤ c

  cap_cache-Capped :
      (is_32bit : Bool) (total : ℕ) (v : Values F) (c : ℕ)
      → Shares v c
      → (c' : ℕ) × Capped (cap_cache is_32bit (some total) v) (allowance is_32bit total) c c'
  unfolding cap_cache set_int
  cap_cache-Capped is_32bit total v c s =
      let most = allowance is_32bit total in
      elim (Bool-cases (ltb most c)) [
        | inl over ↦
            let over' : ltb_ℤ (pos most) (v.int "cache") ≡ true = rw s.cache (ground arith) in
            (
              most,
              rw (if_true _ _ _ over') (record {
                shares = record {
                  set = refl;
                  cache = refl;
                  a = s.a;
                  b = s.b;
                  d = s.d;
                  e = s.e;
                  for_database = s.for_database;
                  for_clean = s.for_clean;
                  for_dirty = s.for_dirty;
                  for_snapshot = s.for_snapshot;
                  fits = s.fits;
                  small = ground (arith, s.small);
                };
                at_most = omega arith;
                no_more = ground arith;
              }),
            )
        | inr under ↦
            let under' : ltb_ℤ (pos most) (v.int "cache") ≡ false = rw s.cache (ground arith) in
            (
              c,
              rw (if_false _ _ _ under')
                  (record { shares = s; at_most = ground arith; no_more = omega arith }),
            )
      ]

module _ {G F : Type 0} where
  -- The caches of a configuration are those of another.
  abbrev SameCaches : EthConfig G F → EthConfig G F → Type 0
  SameCaches cfg cfg' =
      (cfg'.database_cache ≡ cfg.database_cache)
      × (cfg'.trie_clean_cache ≡ cfg.trie_clean_cache)
      × (cfg'.trie_dirty_cache ≡ cfg.trie_dirty_cache)
      × (cfg'.snapshot_cache ≡ cfg.snapshot_cache)

  same-Fits :
      (most : ℕ) (cfg cfg' : EthConfig G F) → SameCaches cfg cfg' → Fits most cfg → Fits most cfg'
  same-Fits most cfg cfg' (database, clean, dirty, snapshot) f = record {
    database = f.database;
    clean = f.clean;
    dirty = f.dirty;
    snapshot = f.snapshot;
    database_is = database ∙ f.database_is;
    clean_is = clean ∙ f.clean_is;
    dirty_is = dirty ∙ f.dirty_is;
    snapshot_is = snapshot ∙ f.snapshot_is;
    within = f.within;
  }

  weaken-Fits : (few most : ℕ) (cfg : EthConfig G F) → few ≤ most → Fits few cfg → Fits most cfg
  weaken-Fits few most cfg le f = record {
    database = f.database;
    clean = f.clean;
    dirty = f.dirty;
    snapshot = f.snapshot;
    database_is = f.database_is;
    clean_is = f.clean_is;
    dirty_is = f.dirty_is;
    snapshot_is = f.snapshot_is;
    within = omega (arith, f.within);
  }

  module _ {K : Type 0} (p : Presets G) (v : Values F) (keys : Keys K) (ks : Option K) where
    dns-SameCaches :
        (hash : Hash) (cfg : EthConfig G F)
        → SameCaches cfg (set_dns_discovery_defaults p v hash cfg)
    unfolding set_dns_discovery_defaults
    dns-SameCaches hash cfg = elim (Option-cases cfg.eth_discovery_urls) [
      | inr (urls, e) ↦ ground arith
      | inl e ↦ ground arith
    ]

    with_account-SameCaches :
        (o : Outcome AccountError (Address × K)) (cfg cfg' : EthConfig G F)
        → with_account p v o cfg ≡ ok cfg'
        → SameCaches cfg cfg'
    with_account-SameCaches (ok (a, k)) cfg cfg' e =
        from_ok (SameCaches cfg) e (refl, refl, refl, refl)
    with_account-SameCaches (err x) cfg cfg' e = absurd (cc e)
    with_account-SameCaches panics cfg cfg' e = absurd (cc e)

    with_passwords-SameCaches :
        (o : Outcome AccountError (List String)) (cfg cfg' : EthConfig G F)
        → with_passwords p v keys ks o cfg ≡ ok cfg'
        → SameCaches cfg cfg'
    with_passwords-SameCaches (ok passwords) cfg cfg' e =
        with_account-SameCaches (developer_account keys passwords cfg.miner.etherbase ks) cfg cfg' e
    with_passwords-SameCaches (err x) cfg cfg' e = absurd (cc e)
    with_passwords-SameCaches panics cfg cfg' e = absurd (cc e)

    set_on-SameCaches :
        (n : Network) (cfg cfg' : EthConfig G F)
        → set_on p v keys ks n cfg ≡ ok cfg'
        → SameCaches cfg cfg'
    unfolding set_on set_preset set_developer
    set_on-SameCaches mainnet cfg cfg' e = from_ok (SameCaches cfg) e (dns-SameCaches _ _)
    set_on-SameCaches ropsten cfg cfg' e = from_ok (SameCaches cfg) e (dns-SameCaches _ _)
    set_on-SameCaches rinkeby cfg cfg' e = from_ok (SameCaches cfg) e (dns-SameCaches _ _)
    set_on-SameCaches goerli cfg cfg' e = from_ok (SameCaches cfg) e (dns-SameCaches _ _)
    set_on-SameCaches yolo_v3 cfg cfg' e = from_ok (SameCaches cfg) e (refl, refl, refl, refl)
    set_on-SameCaches unnamed cfg cfg' e = from_ok (SameCaches cfg) e (
        choose (SameCaches cfg) (cfg.network_id == 1) _ _
          (λ one. dns-SameCaches (p.genesis_hash mainnet) cfg) (λ other. (refl, refl, refl, refl)))
    set_on-SameCaches developer cfg cfg' e =
        with_passwords-SameCaches (make_password_list p.read_file p.trim_right v) cfg cfg' e

lift_error_ok :
    {E A : Type 0} (f : E → SetupError) (o : Outcome E A) (a : A) → lift_error f o ≡ ok a → o ≡ ok a
unfolding lift_error
lift_error_ok f (ok x) a e = cc e
lift_error_ok f (err x) a e = absurd (cc e)
lift_error_ok f panics a e = absurd (cc e)

module _ {G F K : Type 0} (keys : Keys K) (p : Presets G) (m : Machine) where
  services-Fits :
      (v : Values F) (cfg : EthConfig G F) (most : ℕ)
      → Fits most cfg
      → Fits most (set_services keys p m v cfg)
  unfolding set_services
  services-Fits v cfg most f = same-Fits most cfg _ (refl, refl, refl, refl) f

  end_with-Fits :
      (v v' : Values F) (o : Outcome SetupError (EthConfig G F)) (cfg' : EthConfig G F)
      → end_with keys p m v o ≡ ok (v', cfg')
      → o ≡ ok cfg'
  end_with-Fits v v' (ok cfg) cfg' e = cc e
  end_with-Fits v v' (err x) cfg' e = absurd (cc e)
  end_with-Fits v v' panics cfg' e = absurd (cc e)

  after_storage-Fits :
      (v v' : Values F) (ks : Option K) (o : Outcome SetupError (EthConfig G F))
      (cfg' : EthConfig G F) (c : ℕ)
      → Shares v c
      → after_storage keys p m v ks o ≡ ok (v', cfg')
      → Fits c cfg'
  unfolding set_network
  after_storage-Fits v v' ks (ok cfg) cfg' c s e =
      let start = set_services keys p m v (set_snapshots v (set_caches v cfg)) in
      let made = lift_error_ok bad_account _ cfg' (end_with-Fits v v' _ cfg' e) in
      same-Fits c start cfg' (set_on-SameCaches p v keys ks _ start cfg' made)
        (services-Fits v _ c (set_snapshots-Fits v cfg c s))
  after_storage-Fits v v' ks (err x) cfg' c s e = absurd (cc e)
  after_storage-Fits v v' ks panics cfg' c s e = absurd (cc e)

  after_parts-Fits :
      (v v' : Values F) (ks : Option K) (o : Outcome SetupError (EthConfig G F))
      (cfg' : EthConfig G F) (c total : ℕ)
      → Shares v c
      → m.memory ≡ some total
      → after_parts keys p m v ks o ≡ ok (v', cfg')
      → Fits c cfg' × Fits (allowance m.is_32bit total) cfg'
  after_parts-Fits v v' ks (ok cfg) cfg' c total s known e =
      let (c', capped) = cap_cache-Capped m.is_32bit total v c s in
      let shares = subst (λ o. Shares (cap_cache m.is_32bit o v) c') (sym known) capped.shares in
      let fits = after_storage-Fits _ v' ks _ cfg' c' shares e in
      (weaken-Fits c' c cfg' capped.no_more fits, weaken-Fits c' _ cfg' capped.at_most fits)
  after_parts-Fits v v' ks (err x) cfg' c total s known e = absurd (cc e)
  after_parts-Fits v v' ks panics cfg' c total s known e = absurd (cc e)

  after_check-Fits :
      (v v' : Values F) (ks : Option K) (o : Outcome Fatal Bool) (cfg cfg' : EthConfig G F)
      (c total : ℕ)
      → Shares v c
      → m.memory ≡ some total
      → after_check keys p m v ks cfg o ≡ ok (v', cfg')
      → Fits c cfg' × Fits (allowance m.is_32bit total) cfg'
  after_check-Fits v v' ks (ok exclusive) cfg cfg' c total s known e =
      after_parts-Fits _ v' ks _ cfg' c total (without_unindexing-Shares v c s) known e
  after_check-Fits v v' ks (err x) cfg cfg' c total s known e = absurd (cc e)
  after_check-Fits v v' ks panics cfg cfg' c total s known e = absurd (cc e)

  -- With the size of the memory known, the flag for the cache set to `c` megabytes, and its four
  -- shares at most 100 percent, the caches of the configuration that `SetEthConfig` returns are
  -- together at most `c`, and at most a third of the memory, whichever network is chosen and whether
  -- snapshots are on or off.
  pub set_eth_config-Fits :
      (v v' : Values F) (ks : Option K) (cfg cfg' : EthConfig G F) (c total : ℕ)
      → Shares v c
      → m.memory ≡ some total
      → set_eth_config keys p m v ks cfg ≡ ok (v', cfg')
      → Fits c cfg' × Fits (allowance m.is_32bit total) cfg'
  unfolding set_eth_config
  set_eth_config-Fits v v' ks cfg cfg' c total s known e =
      after_check-Fits v v' ks _ cfg cfg' c total s known e
