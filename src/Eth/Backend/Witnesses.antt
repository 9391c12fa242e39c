-- ===== src/Eth/Backend/Witnesses.antt =====
-- eth/backend.go: the theorems at a chain with an external consensus and at some caches.
use ecgeth.Base.{ℕ, ◌≡◌, ◌↔◌, true, false, none, some, [], ◌∷◌}
use ecgeth.Base.Outcome.{ok, ◌>>=◌}
use ecgeth.Params.Config.{ChainConfig}
use ecgeth.Eth.Backend.{CacheSizes, Ethereum, start}
use ecgeth.Eth.Backend.Create.{NewAnswers, new_ethereum}
use ecgeth.Eth.Backend.Life.{Runs, start-Runs}

abbrev config : ChainConfig
config = record {
  chain_id = some 7;
  homestead_block = some 0;
  dao_fork_block = none;
  dao_fork_support = false;
  eip150_block = some 0;
  eip150_hash = 0;
  eip155_block = some 0;
  eip158_block = some 0;
  byzantium_block = some 0;
  constantinople_block = some 0;
  petersburg_block = some 0;
  istanbul_block = some 0;
  muir_glacier_block = none;
  berlin_block = none;
  yolo_v3_block = none;
  ewasm_block = none;
  catalyst_block = none;
  ethash = none;
  clique = none;
  external_consensus = some (record {
    authorizer = "pon";
    consensus_protocol = "bada";
    consensus_timeout = 10;
    block_interval = 3;
  });
}

abbrev answers : NewAnswers
answers = record {
  is_light = false;
  is_valid = true;
  opens_database = true;
  sets_genesis = true;
  skips_version_check = false;
  database_version = some 8;
  supported_version = 8;
  makes_chain = true;
  makes_handler = true;
  makes_eth_iterator = true;
  makes_snap_iterator = true;
}

start-Runs_example :
    ((s : Ethereum ℕ) × (new_ethereum answers config 5 100 0 >>= start 50 10 true ((8 ∷ []) ∷ [])
        ≡ ok s))
    ↔ Runs answers config 50 10 true
start-Runs_example = start-Runs 5 100 0 answers config 50 10 true ((8 ∷ []) ∷ [])

abbrev sizes : CacheSizes
sizes = record { no_pruning = true; trie_clean = 154; trie_dirty = 256; snapshot = 102 }
