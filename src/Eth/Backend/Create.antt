-- ===== src/Eth/Backend/Create.antt =====
-- eth/backend.go: `New`, as far as it has errors and chooses the engine, the miner and the connector.
use ecgeth.Base.{
  ℕ, ltb, Bool, true, false, not, ◌&&◌, Option, none, some, is_nil, [], Address, if◌then◌else◌,
}
use ecgeth.Base.Outcome.{Outcome, ok, err, panics, ◌>>=◌}
use ecgeth.Params.Config.{ChainConfig}
use ecgeth.Eth.Backend.{
  Engine, ecpon_engine, create_consensus_engine, Ethereum, BackendError, light_mode, invalid_mode,
  newer_database, not_assembled,
}

-- What `New` tests, and what the others answer to it: whether the mode is that of a light client and
-- whether it is valid, whether the database opens, whether the genesis block is set up without an error
-- but that of an incompatible configuration, the version of the database and the one supported, and
-- whether the chain, the handler and the two iterators for the discovery are made without an error.
pub record NewAnswers : Type 0 where
  pub is_light : Bool
  pub is_valid : Bool
  pub opens_database : Bool
  pub sets_genesis : Bool
  pub skips_version_check : Bool
  pub database_version : Option ℕ
  pub supported_version : ℕ
  pub makes_chain : Bool
  pub makes_handler : Bool
  pub makes_eth_iterator : Bool
  pub makes_snap_iterator : Bool

-- `bcVersion != nil && *bcVersion > core.BlockChainVersion`
abbrev pub is_newer : Option ℕ → ℕ → Bool
is_newer none supported = false
is_newer (some version) supported = ltb supported version

module _ {P : Type 0} where
  abbrev pub new_service : Engine P → Bool → ℕ → Address → Ethereum P
  new_service engine external gas_price etherbase = record {
    engine = engine;
    has_miner = not external;
    has_connector = external;
    gas_price = gas_price;
    etherbase = etherbase;
    accept_txs = false;
    is_mining = false;
    calls = [];
  }

  -- `eth.engine.(*ecpon.EcPonBada)`, a type assertion.
  abbrev pub with_connector : Engine P → Ethereum P → Outcome BackendError (Ethereum P)
  with_connector (ecpon_engine external) s = ok s
  with_connector _ s = panics

  -- The part of `New` on the engine, the miner and the connector.
  unfoldable pub assemble : ChainConfig → P → ℕ → Address → Outcome BackendError (Ethereum P)
  unfolding create_consensus_engine
  assemble config pow gas_price etherbase =
      let engine = create_consensus_engine config pow in
      if is_nil config.external_consensus
      then ok (new_service engine false gas_price etherbase)
      else with_connector engine (new_service engine true gas_price etherbase)

  -- The errors of `New` behind that part.
  unfoldable pub discover : NewAnswers → Ethereum P → Outcome BackendError (Ethereum P)
  discover n s =
      if not n.makes_eth_iterator
      then err not_assembled
      else if not n.makes_snap_iterator
      then err not_assembled
      else ok s

  -- The tests of the mode, in front of the rest of `New`.
  abbrev check_mode :
      NewAnswers → Outcome BackendError (Ethereum P) → Outcome BackendError (Ethereum P)
  check_mode n rest =
      if n.is_light then err light_mode else if not n.is_valid then err invalid_mode else rest

  abbrev open_database :
      NewAnswers → Outcome BackendError (Ethereum P) → Outcome BackendError (Ethereum P)
  open_database n rest =
      if not n.opens_database
      then err not_assembled
      else if not n.sets_genesis
      then err not_assembled
      else rest

  abbrev check_version :
      NewAnswers → Outcome BackendError (Ethereum P) → Outcome BackendError (Ethereum P)
  check_version n rest =
      if not n.skips_version_check && is_newer n.database_version n.supported_version
      then err newer_database
      else rest

  abbrev make_parts :
      NewAnswers → Outcome BackendError (Ethereum P) → Outcome BackendError (Ethereum P)
  make_parts n rest =
      if not n.makes_chain
      then err not_assembled
      else if not n.makes_handler
      then err not_assembled
      else rest

  -- The errors of `New`, around the part above, which is the second argument.
  unfoldable pub new_checked :
      NewAnswers → Outcome BackendError (Ethereum P) → Outcome BackendError (Ethereum P)
  unfolding discover
  new_checked n made =
      check_mode n (open_database n (check_version n (make_parts n (made >>= discover n))))

  -- `New`, with the price that it has checked. What it writes to the database is left out.
  unfoldable pub new_ethereum :
      NewAnswers → ChainConfig → P → ℕ → Address → Outcome BackendError (Ethereum P)
  unfolding new_checked assemble
  new_ethereum n config pow gas_price etherbase =
      new_checked n (assemble config pow gas_price etherbase)
