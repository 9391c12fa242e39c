-- ===== src/Eth/Backend.antt =====
-- eth/backend.go and eth/ethconfig/config.go: the choice of the consensus engine, the life of the
-- service `Ethereum` around it, and which blocks count as local.
pub mod Caches
pub mod Create
pub mod Life
pub mod Mining
mod Witnesses
use ecgeth.Base.{
  ℕ, ◌+◌, ◌-◌, ◌*◌, ◌/◌, ◌==◌, ltb, leb, Bool, true, false, not, ◌&&◌, Option, none, some, is_nil,
  List, [], ◌∷◌, ◌++◌, Address, if◌then◌else◌,
}
use ecgeth.Base.Int.{ℤ, pos, negsuc}
use ecgeth.Base.Outcome.{Outcome, ok, err, panics, ◌>>=◌}
use ecgeth.Params.Config.{ChainConfig, CliqueConfig, ExternalConsensusConfig}

-- An engine of proof of work has a configuration of the package ethash.
pub data Engine (P : Type 0) : Type 0 where
  clique_engine : CliqueConfig → Engine P
  ecpon_engine : ExternalConsensusConfig → Engine P
  ethash_engine : P → Engine P

abbrev engine_without_clique : {P : Type 0} → Option ExternalConsensusConfig → P → Engine P
engine_without_clique (some external) pow = ecpon_engine external
engine_without_clique none pow = ethash_engine pow

abbrev engine_with :
    {P : Type 0} → Option CliqueConfig → Option ExternalConsensusConfig → P → Engine P
engine_with (some clique) external pow = clique_engine clique
engine_with none external pow = engine_without_clique external pow

unfoldable pub create_consensus_engine : {P : Type 0} → ChainConfig → P → Engine P
create_consensus_engine config pow = engine_with config.clique config.external_consensus pow

-- The caches of the configuration, in megabytes.
pub record CacheSizes : Type 0 where
  pub no_pruning : Bool
  pub trie_clean : ℕ
  pub trie_dirty : ℕ
  pub snapshot : ℕ

-- Without pruning, `New` gives the cache for dirty nodes to the others.
unfoldable pub sanitize_caches : CacheSizes → CacheSizes
sanitize_caches c =
    let shared = record c {
      trie_clean = c.trie_clean + c.trie_dirty * 3 / 5;
      snapshot = c.snapshot + c.trie_dirty * 2 / 5;
      trie_dirty = 0;
    } in
    let given = record c { trie_clean = c.trie_clean + c.trie_dirty; trie_dirty = 0 } in
    if c.no_pruning && ltb 0 c.trie_dirty then (if ltb 0 c.snapshot then shared else given) else c

-- What the service asks of the others, in order.
pub data Call : Type 0 where
  set_threads : ℤ → Call
  set_gas_price : ℕ → Call
  authorize miner_start miner_etherbase connector_start : Address → Call
  handler_start : ℕ → Call
  miner_stop connector_stop handler_stop : Call

-- `Ethereum`: the miner and the connector are `nil` or not, and `is_mining` is what the miner says.
pub record Ethereum (P : Type 0) : Type 0 where
  pub engine : Engine P
  pub has_miner : Bool
  pub has_connector : Bool
  pub gas_price : ℕ
  pub etherbase : Address
  pub accept_txs : Bool
  pub is_mining : Bool
  pub calls : List Call

pub data BackendError : Type 0 where
  no_miner no_etherbase no_signer too_many_light_peers : BackendError
  light_mode invalid_mode newer_database not_assembled : BackendError

-- The accounts of the wallets, the first wallet first.
abbrev first_account : List (List Address) → Option Address
first_account [] = none
first_account ([] ∷ wallets) = none
first_account ((a ∷ accounts) ∷ wallets) = some a

abbrev is_account : Address → List Address → Bool
is_account a [] = false
is_account a (b ∷ bs) = if b == a then true else is_account a bs

module _ {P : Type 0} where
  abbrev pub is_clique : Engine P → Bool
  is_clique (clique_engine clique) = true
  is_clique _ = false

  abbrev pub call : Call → Ethereum P → Ethereum P
  call c s = record s { calls = s.calls ++ (c ∷ []) }

  abbrev adopt : Option Address → Ethereum P → Option Address × Ethereum P
  adopt none s = (none, s)
  adopt (some a) s = (some a, record s { etherbase = a })

  -- `Etherbase`, which remembers the account that it finds.
  unfoldable pub find_etherbase : List (List Address) → Ethereum P → Option Address × Ethereum P
  find_etherbase wallets s =
      if not (s.etherbase == 0) then (some s.etherbase, s) else adopt (first_account wallets) s

  unfoldable pub set_etherbase : Address → Ethereum P → Ethereum P
  set_etherbase a s =
      let s' = record s { etherbase = a } in if s.has_miner then call (miner_etherbase a) s' else s'

  -- A method of a connector that is `nil` panics at its first field.
  abbrev start_connector_at : Option Address × Ethereum P → Outcome BackendError (Ethereum P)
  start_connector_at (found, s) =
      if s.has_connector then ok (call (connector_start s.etherbase) s) else panics

  -- `Start`: the peers of the server, how many of them are for light clients, and whether these are
  -- served. Without an etherbase the connector starts with the zero address, which the field then has.
  unfoldable pub start :
      ℕ → ℕ → Bool → List (List Address) → Ethereum P → Outcome BackendError (Ethereum P)
  unfolding find_etherbase
  start max_peers light_peers serves_light wallets s =
      let peers = if serves_light then max_peers - light_peers else max_peers in
      if serves_light && leb max_peers light_peers
      then err too_many_light_peers
      else start_connector_at (find_etherbase wallets s) >>= λ s'.
          ok (call (handler_start peers) s')

  -- `Stop`, as far as it stops what the others started.
  unfoldable pub stop : Ethereum P → Outcome BackendError (Ethereum P)
  stop s =
      let s' = call handler_stop s in
      let s'' = call connector_stop s' in
      if s.has_connector
      then ok (if s.has_miner then call miner_stop (record s'' { is_mining = false }) else s'')
      else panics

  -- `isLocalBlock` for a block whose author the engine gives, with the accounts of the flag for local
  -- transactions.
  unfoldable pub is_local_block : Option Address → List Address → Ethereum P → Bool
  is_local_block none locals s = false
  is_local_block (some author) locals s =
      if author == s.etherbase then true else is_account author locals

  unfoldable pub should_preserve : Option Address → List Address → Ethereum P → Bool
  unfolding is_local_block
  should_preserve author locals s =
      if is_clique s.engine then false else is_local_block author locals s
