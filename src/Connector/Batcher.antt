-- ===== src/Connector/Batcher.antt =====
-- ecconnector/batcher.go: the batcher, which executes transactions on the state of a new block.
-- What it calls of the packages core, state and core/types is the record `Node`.
pub mod Execute
pub mod Loops
pub mod Pool
pub mod Work
pub mod Build
pub mod WorkLoop
pub mod Sound
pub mod Example
mod Witnesses
use ecgeth.Base.{ℕ, ◌≡◌, ◌<◌, Bool, Option, none, some, List, [], Hash, Address, Bytes, String}
use ecgeth.Types.Header.{Header}
use ecgeth.Types.Block.{Hashing, Block}

pub data TxError : Type 0 where
  gas_limit_reached nonce_too_low nonce_too_high tx_type_not_supported other_error : TxError

pub data TxResult (Receipt : Type 0) : Type 0 where
  executed : Receipt → TxResult Receipt
  failed : TxError → TxResult Receipt

-- What `core.ApplyTransaction` leaves: the gas pool, the state, `header.GasUsed`, and its result.
pub record Applied (Receipt State : Type 0) : Type 0 where
  pub gas_left : ℕ
  pub state : State
  pub gas_used : ℕ
  pub result : TxResult Receipt

-- `TxSet` is `types.TransactionsByPriceAndNonce`; `size` is the number of transactions left in it.
-- `apply_transaction` gets the coinbase, the header, the transaction, the gas pool and the state.
pub record Node (Tx Receipt State TxSet Log : Type 0) : Type 0 where
  pub hashing : Hashing Tx Receipt
  pub tx_gas : ℕ
  pub is_protected : Tx → Bool
  pub receipt_logs : Receipt → List Log
  pub peek : TxSet → Option Tx
  pub shift : TxSet → TxSet
  pub pop : TxSet → TxSet
  pub size : TxSet → ℕ
  pub by_price_and_nonce : List (Address × List Tx) → TxSet
  pub snapshot : State → ℕ × State
  pub revert_to : ℕ → State → State
  pub prepare_tx : Hash → ℕ → State → State
  pub apply_transaction : Address → Header → Tx → ℕ → State → Applied Receipt State
  pub intermediate_root : Bool → State → Hash × State

-- What core/types documents of the set: `Shift` and `Pop` take away the transaction that `Peek`
-- shows, `Pop` with those of its account that follow.
pub record Shrinks {Tx Receipt State TxSet Log : Type 0} (node : Node Tx Receipt State TxSet Log)
    : Type 0 where
  pub shift_smaller :
      (txs : TxSet) (tx : Tx) → node.peek txs ≡ some tx → node.size (node.shift txs) < node.size txs
  pub pop_smaller :
      (txs : TxSet) (tx : Tx) → node.peek txs ≡ some tx → node.size (node.pop txs) < node.size txs

-- `environment`. The signer and the start time, which only serve log lines, are left out.
pub record Environment (Tx Receipt State : Type 0) : Type 0 where
  pub state : State
  pub tcount : ℕ
  pub gas_pool : Option ℕ
  pub header : Header
  pub txs : List Tx
  pub receipts : List Receipt
  pub processed_txs : List (Hash × Tx)
  pub f_tcount_s : ℕ
  pub f_tcount_c : ℕ
  pub p_tcount_s : ℕ
  pub p_tcount_n : ℕ
  pub err_gas_lcnt : ℕ
  pub err_nonce_lcnt : ℕ
  pub err_nonce_hcnt : ℕ
  pub err_not_supported_cnt : ℕ
  pub err_default_cnt : ℕ

abbrev pub commit_interrupt_none : ℕ
commit_interrupt_none = 0

abbrev pub commit_interrupt_new_head : ℕ
commit_interrupt_new_head = 1

abbrev pub commit_interrupt_resubmit : ℕ
commit_interrupt_resubmit = 2

abbrev pub max_ready_txs : ℕ
max_ready_txs = 20480

abbrev pub gas_ceil : ℕ
gas_ceil = 0x8000000
