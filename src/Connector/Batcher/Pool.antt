-- ===== src/Connector/Batcher/Pool.antt =====
-- ecconnector/batcher.go: the split of the pool's transactions into those of local accounts and the
-- others, on a map as a list of its entries.
pub mod Split
use ecgeth.Base.{
  ℕ, zero, suc, ◌+◌, ◌≡◌, Bool, true, false, not, ◌&&◌, Option, none, some, List, [], ◌∷◌, ◌++◌,
  Hash, Address, Bytes, ◌==◌, if◌then◌else◌, leb, is_empty,
}
use ecgeth.Base.Outcome.{Outcome, ok, err, panics, ◌>>=◌}
use ecgeth.Params.Config.{ChainConfig}
use ecgeth.Types.Nonce.{zero_nonce}
use ecgeth.Types.Header.{Header}
use ecgeth.Types.Block.{Block, block_hash, new_block, number_u64}
use ecgeth.Ecpon.Engine.{prepare, finalize_and_assemble}
use ecgeth.Connector.Batcher.{Node, Environment, commit_interrupt_new_head, gas_ceil}
use ecgeth.Connector.Batcher.Loops.{
  LoopEnd, interrupted, finished, commit_transactions, update_transactions,
}

module _ {Tx : Type 0} where
  -- `txs[account]`, which is empty where the map has no such key.
  unfoldable pub txs_of : Address → List (Address × List Tx) → List Tx
  txs_of a [] = []
  txs_of a ((b, txs) ∷ rest) = if b == a then txs else txs_of a rest

  -- `delete(txs, account)`
  unfoldable pub without : Address → List (Address × List Tx) → List (Address × List Tx)
  without a [] = []
  without a ((b, txs) ∷ rest) =
      let others = without a rest in if b == a then others else ((b, txs) ∷ others)

  -- The round of the split for one local account: the local and the remote transactions.
  unfoldable pub split_account :
      Address
      → List (Address × List Tx) × List (Address × List Tx)
      → List (Address × List Tx) × List (Address × List Tx)
  split_account a (local_txs, remote_txs) =
      if is_empty (txs_of a remote_txs)
      then (local_txs, remote_txs)
      else ((a, txs_of a remote_txs) ∷ local_txs, without a remote_txs)

  unfoldable pub split_locals :
      List Address
      → List (Address × List Tx) × List (Address × List Tx)
      → List (Address × List Tx) × List (Address × List Tx)
  split_locals [] both = both
  split_locals (a ∷ accounts) both = split_locals accounts (split_account a both)
