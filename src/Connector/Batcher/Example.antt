-- ===== src/Connector/Batcher/Example.antt =====
-- ecconnector/batcher.go: a small node, chain and batcher for tests.
use ecgeth.Base.{
  ℕ, ◌+◌, ◌-◌, ◌≡◌, ◌<◌, true, false, Option, none, some, List, [], ◌∷◌, length, Address, arith,
}
use ecgeth.Types.Nonce.{zero_nonce}
use ecgeth.Params.Config.{ChainConfig}
use ecgeth.Connector.Batcher.{Node, Shrinks, Environment, executed}
use ecgeth.Types.Block.{Block}
use ecgeth.Connector.Batcher.Work.{EcBatcher, Backend}

-- A node whose transactions are their hashes, whose sets are lists, and whose state counts them.
abbrev pub peek_list : List ℕ → Option ℕ
peek_list [] = none
peek_list (tx ∷ txs) = some tx

abbrev pub tail_list : List ℕ → List ℕ
tail_list [] = []
tail_list (tx ∷ txs) = txs

abbrev pub join : List (Address × List ℕ) → List ℕ
join [] = []
join ((account, txs) ∷ rest) = txs

abbrev pub node : Node ℕ ℕ ℕ (List ℕ) ℕ
node = record {
  hashing = record {
    rlp_hash = λ h. h.time;
    rlp_hash_list = λ hs. 7;
    derive_sha_txs = λ txs. 11;
    derive_sha_receipts = λ rs. 13;
    create_bloom = λ rs. 17;
    transaction_hash = λ tx. tx;
    empty_root_hash = 19;
  };
  tx_gas = 21000;
  is_protected = λ tx. false;
  receipt_logs = λ r. r ∷ [];
  peek = peek_list;
  shift = tail_list;
  pop = tail_list;
  size = λ txs. length txs;
  by_price_and_nonce = join;
  snapshot = λ s. (s, s);
  revert_to = λ snap s. snap;
  prepare_tx = λ h i s. s;
  apply_transaction = λ coinbase h tx gas s. record {
    gas_left = gas - 21000;
    state = s + 1;
    gas_used = h.gas_used + 21000;
    result = executed tx;
  };
  intermediate_root = λ delete_empty s. (s, s);
}

peek_smaller :
    (txs : List ℕ) (tx : ℕ) → peek_list txs ≡ some tx → length (tail_list txs) < length txs
peek_smaller [] tx e = cc
peek_smaller (t ∷ txs) tx e = omega arith

pub node-Shrinks : Shrinks node
node-Shrinks = record { shift_smaller = peek_smaller; pop_smaller = peek_smaller }

abbrev pub config : ChainConfig
config = record {
  chain_id = some 1337;
  homestead_block = none;
  dao_fork_block = none;
  dao_fork_support = false;
  eip150_block = none;
  eip150_hash = 0;
  eip155_block = none;
  eip158_block = none;
  byzantium_block = none;
  constantinople_block = none;
  petersburg_block = none;
  istanbul_block = none;
  muir_glacier_block = none;
  berlin_block = none;
  yolo_v3_block = none;
  ewasm_block = none;
  catalyst_block = none;
  ethash = none;
  clique = none;
  external_consensus = none;
}

-- The start of a block, and one under way that has taken up transaction 3.
abbrev pub start : Environment ℕ ℕ ℕ
start = record {
  state = 0;
  tcount = 0;
  gas_pool = none;
  header = record {
    parent_hash = 1;
    uncle_hash = 0;
    coinbase = 0;
    root = 0;
    tx_hash = 0;
    receipt_hash = 0;
    bloom = 0;
    difficulty = some 1;
    number = some 5;
    gas_limit = 0x8000000;
    gas_used = 0;
    time = 1000;
    extra = [];
    mix_digest = 0;
    nonce = zero_nonce;
  };
  txs = [];
  receipts = [];
  processed_txs = [];
  f_tcount_s = 0;
  f_tcount_c = 0;
  p_tcount_s = 0;
  p_tcount_n = 0;
  err_gas_lcnt = 0;
  err_nonce_lcnt = 0;
  err_nonce_hcnt = 0;
  err_not_supported_cnt = 0;
  err_default_cnt = 0;
}

abbrev pub under_way : Environment ℕ ℕ ℕ
under_way = record start {
  tcount = 1;
  txs = 3 ∷ [];
  receipts = 3 ∷ [];
  processed_txs = (3, 3) ∷ [];
  f_tcount_s = 1;
}

abbrev pub pool : List ℕ
pool = 3 ∷ 4 ∷ 5 ∷ []

abbrev pub quiet : ℕ → ℕ
quiet i = 0

-- A chain of one block at height 4, a pool with a local account 1 and a remote account 2; the state
-- of the chain is the number of blocks that were written.
abbrev pub parent : Block ℕ
parent = record {
  header = record start.header { number = some 4; root = 6; time = 900 };
  uncles = [];
  transactions = [];
  hash_cache = none;
  td = none;
}

abbrev pub backend : Backend ℕ ℕ ℕ ℕ ℕ
backend = record {
  current_block = λ c. parent;
  state_at = λ root c. some root;
  pending = λ c. some ((1, 3 ∷ 4 ∷ []) ∷ (2, 5 ∷ []) ∷ []);
  locals = λ c. 1 ∷ [];
  write_block = λ blk receipts logs state c. some (c + 1);
  locate = λ hash number index r. r + index;
}

-- A batcher with a candidate block of height 5 under way, and the snapshot of it.
abbrev pub snapshot : Block ℕ
snapshot = record {
  header = under_way.header;
  uncles = [];
  transactions = 3 ∷ [];
  hash_cache = none;
  td = none;
}

abbrev pub batcher : EcBatcher ℕ ℕ ℕ ℕ
batcher = record {
  currentenv = some under_way;
  pending_task = none;
  feed = [];
  coinbase = 77;
  snapshot_block = some snapshot;
  snapshot_state = some 0;
  running = true;
  new_txs = 0;
  is_build_block_processing = false;
}
