-- ===== src/Eth/Backend/Life.antt =====
-- eth/backend.go: which configurations the node starts with.
use ecgeth.Base.{
  if_true, if_false, ℕ, ◌<◌, ◌≤◌, Option-cases, ◌≡◌, ◌↔◌, refl, sym, ap, ◌∙◌, choose, leb, not,
  ◌&&◌, ◌==◌, Bool, true, false, Option, none, some, is_nil, List, Address, if◌then◌else◌, arith,
  Bool-cases, inl, inr,
}
use ecgeth.Base.Outcome.{Outcome, ok, err, panics, ◌>>=◌, then_ok, ok_steps}
use ecgeth.Params.Config.{ChainConfig, CliqueConfig, ExternalConsensusConfig}
use ecgeth.Eth.Backend.{
  create_consensus_engine, engine_with, Ethereum, BackendError, find_etherbase, adopt,
  first_account, start,
}
use ecgeth.Eth.Backend.Create.{
  new_service, with_connector, new_ethereum, assemble, discover, new_checked, NewAnswers, is_newer,
}

-- The condition on the peers.
HasPeers : ℕ → ℕ → Bool → Type 0
HasPeers max_peers light_peers serves_light = (serves_light && leb max_peers light_peers) ≡ false

has_peers :
    (max_peers light_peers : ℕ) (serves_light : Bool)
    → (serves_light ≡ true → light_peers < max_peers)
    → HasPeers max_peers light_peers serves_light
unfolding HasPeers
has_peers max_peers light_peers true fewer = ground (arith, fewer refl)
has_peers max_peers light_peers false fewer = refl

module _ {P : Type 0} where
  adopt-connector :
      (a : Option Address) (s : Ethereum P) → (adopt a s).1.has_connector ≡ s.has_connector
  adopt-connector none s = refl
  adopt-connector (some a) s = refl

  find_etherbase-connector :
      (wallets : List (List Address)) (s : Ethereum P)
      → (find_etherbase wallets s).1.has_connector ≡ s.has_connector
  unfolding find_etherbase
  find_etherbase-connector wallets s =
      choose (λ (r : Option Address × Ethereum P). r.1.has_connector ≡ s.has_connector)
        (not (s.etherbase == 0)) _ _ (λ set. refl)
        (λ unset. adopt-connector (first_account wallets) s)

  start_ok :
      (max_peers light_peers : ℕ) (serves_light : Bool) (wallets : List (List Address))
      (s : Ethereum P)
      → s.has_connector ≡ true
      → HasPeers max_peers light_peers serves_light
      → (s' : Ethereum P) × (start max_peers light_peers serves_light wallets s ≡ ok s')
  unfolding start HasPeers
  start_ok max_peers light_peers serves_light wallets s on room =
      let s' = (find_etherbase wallets s).1 in
      (
        _,
        if_false _ _ _ room
            ∙ then_ok _ (if_true _ _ _ (find_etherbase-connector wallets s ∙ on)) refl,
      )

  start_needs :
      (max_peers light_peers : ℕ) (serves_light : Bool) (wallets : List (List Address))
      (s s' : Ethereum P)
      → start max_peers light_peers serves_light wallets s ≡ ok s'
      → (s.has_connector ≡ true) × HasPeers max_peers light_peers serves_light
  unfolding start HasPeers
  start_needs max_peers light_peers serves_light wallets s s' e =
      elim (Bool-cases (serves_light && leb max_peers light_peers)) [
        | inl full ↦ absurd (cc (sym (if_true _ _ _ full) ∙ e))
        | inr room ↦ elim (Bool-cases (find_etherbase wallets s).1.has_connector) [
          | inl on ↦ (sym (find_etherbase-connector wallets s) ∙ on, room)
          | inr off ↦ absurd (cc (rw off at (sym (if_false _ _ _ room) ∙ e)))
        ]
      ]

-- No test and no answer in `New` is an error.
pub record Succeeds (n : NewAnswers) : Type 0 where
  pub full : n.is_light ≡ false
  pub valid : n.is_valid ≡ true
  pub opens : n.opens_database ≡ true
  pub genesis : n.sets_genesis ≡ true
  pub version :
      (v : ℕ)
      → n.skips_version_check ≡ false
      → n.database_version ≡ some v
      → v ≤ n.supported_version
  pub chain : n.makes_chain ≡ true
  pub handler : n.makes_handler ≡ true
  pub eth_iterator : n.makes_eth_iterator ≡ true
  pub snap_iterator : n.makes_snap_iterator ≡ true

-- The errors of `New` do not occur, and the node runs on an external consensus alone, and keeps some
-- peers that are not light clients.
pub record Runs (n : NewAnswers) (config : ChainConfig) (max_peers light_peers : ℕ)
    (serves_light : Bool) : Type 0 where
  pub answers : Succeeds n
  pub no_clique : config.clique ≡ none
  pub external : is_nil config.external_consensus ≡ false
  pub peers : serves_light ≡ true → light_peers < max_peers

old_enough :
    (n : NewAnswers)
    → (not n.skips_version_check && is_newer n.database_version n.supported_version) ≡ false
    → (v : ℕ) → n.skips_version_check ≡ false
    → n.database_version ≡ some v
    → v ≤ n.supported_version
old_enough n e v checks is_v = ground (arith, rw is_v at e)

not_newer :
    (n : NewAnswers)
    → Succeeds n
    → (not n.skips_version_check && is_newer n.database_version n.supported_version) ≡ false
not_newer n k = elim (Option-cases n.database_version) [
  | inl unset ↦ rw unset (ground arith)
  | inr (v, is_v) ↦ rw is_v (ground (arith, k.version v, is_v))
]

module _ {P : Type 0} where
  new_checked_ok :
      (n : NewAnswers) (made : Outcome BackendError (Ethereum P)) (s : Ethereum P)
      → Succeeds n
      → made ≡ ok s
      → new_checked n made ≡ ok s
  unfolding new_checked discover
  new_checked_ok n made s k e = rw e (
      ground (
        arith,
        not_newer n k,
        k.full,
        k.valid,
        k.opens,
        k.genesis,
        k.chain,
        k.handler,
        k.eth_iterator,
        k.snap_iterator,
      ))

  new_checked_needs :
      (n : NewAnswers) (made : Outcome BackendError (Ethereum P)) (s : Ethereum P)
      → new_checked n made ≡ ok s
      → Succeeds n × (made ≡ ok s)
  unfolding new_checked discover
  new_checked_needs n (ok t) s e = (
    record {
      full = ground arith;
      valid = ground arith;
      opens = ground arith;
      genesis = ground arith;
      version = old_enough n (ground arith);
      chain = ground arith;
      handler = ground arith;
      eth_iterator = ground arith;
      snap_iterator = ground arith;
    },
    ground arith,
  )
  new_checked_needs n (err x) s e = absurd (ground arith)
  new_checked_needs n panics s e = absurd (ground arith)

module _ {P : Type 0} (pow : P) (gas_price : ℕ) (etherbase : Address) where
  -- `assemble` at the two options that it reads.
  abbrev built :
      Option CliqueConfig → Option ExternalConsensusConfig → Outcome BackendError (Ethereum P)
  built c x =
      let engine = engine_with c x pow in
      if is_nil x
      then ok (new_service engine false gas_price etherbase)
      else with_connector engine (new_service engine true gas_price etherbase)

  abbrev connected : Outcome BackendError (Ethereum P) → Option Bool
  connected (ok s) = some s.has_connector
  connected _ = none

  built_ok :
      (c : Option CliqueConfig) (x : Option ExternalConsensusConfig)
      → c ≡ none
      → is_nil x ≡ false
      → (s : Ethereum P) × (built c x ≡ ok s) × (s.has_connector ≡ true)
  built_ok none (some external) e f = (_, refl, refl)
  built_ok none none e f = absurd (cc f)
  built_ok (some clique) x e f = absurd (cc e)

  built_needs :
      (c : Option CliqueConfig) (x : Option ExternalConsensusConfig) (s : Ethereum P)
      → built c x ≡ ok s
      → s.has_connector ≡ true
      → (c ≡ none) × (is_nil x ≡ false)
  built_needs none (some external) s e on = (refl, refl)
  built_needs none none s e on = absurd (cc (ap connected e ∙ ap some on))
  built_needs (some clique) none s e on = absurd (cc (ap connected e ∙ ap some on))
  built_needs (some clique) (some external) s e on = absurd (cc e)

  -- The node, created by `New` and then started, runs exactly if none of the tests and answers in
  -- `New` is an error, its chain has the configuration of an external consensus and none of Clique,
  -- and, where light clients are served, fewer of the peers are for these than the server has.
  pub start-Runs :
      (n : NewAnswers) (config : ChainConfig) (max_peers light_peers : ℕ) (serves_light : Bool)
      (wallets : List (List Address))
      → ((s : Ethereum P) × (new_ethereum n config pow gas_price etherbase
              >>= start max_peers light_peers serves_light wallets
            ≡ ok s))
        ↔ Runs n config max_peers light_peers serves_light
  unfolding new_ethereum assemble create_consensus_engine HasPeers
  start-Runs n config max_peers light_peers serves_light wallets = (
    (λ (s, e).
        let (t, new, started) =
          ok_steps (new_ethereum n config pow gas_price etherbase)
            (start max_peers light_peers serves_light wallets) s e in
        let (answers, made) =
          new_checked_needs n (built config.clique config.external_consensus) t new in
        let (on, room) = start_needs max_peers light_peers serves_light wallets t s started in
        let (clique, external) = built_needs config.clique config.external_consensus t made on in
        record {
          answers = answers;
          no_clique = clique;
          external = external;
          peers = λ served. ground (arith, room, served);
        }),
    (λ r.
        let (t, made, on) =
          built_ok config.clique config.external_consensus r.no_clique r.external in
        let (s, started) =
          start_ok max_peers light_peers serves_light wallets t on
            (has_peers max_peers light_peers serves_light r.peers) in
        (s, then_ok _ (new_checked_ok n _ t r.answers made) started)),
  )
