-- ===== src/Connector/Batcher/Execute.antt =====
-- ecconnector/batcher.go: `commitTransaction`, and how the loops go on after it.
pub mod Effects
use ecgeth.Base.{
  ℕ, ◌+◌, ◌≡◌, Bool, true, false, ◌&&◌, not, Option, none, some, List, [], ◌∷◌, ◌++◌, Hash, Address,
  ◌==◌, if◌then◌else◌, ltb,
}
use ecgeth.Params.Config.{ChainConfig}
use ecgeth.Params.Config.Rules.{is_eip155}
use ecgeth.Types.Header.{Header}
use ecgeth.Connector.Batcher.{
  TxError, gas_limit_reached, nonce_too_low, nonce_too_high, tx_type_not_supported, other_error,
  TxResult, executed, failed, Applied, Node, Environment,
}

abbrev pub gas_of : Option ℕ → ℕ
gas_of none = 0
gas_of (some g) = g

module _ {Tx Receipt State TxSet Log : Type 0} (node : Node Tx Receipt State TxSet Log) where
  -- The switch on the result of `ApplyTransaction`. An error reverts the state to the snapshot; the
  -- gas pool and `header.GasUsed` stay as the call left them.
  settle :
      Environment Tx Receipt State
      → Tx
      → ℕ
      → State
      → TxResult Receipt
      → TxResult (List Log) × Environment Tx Receipt State
  settle env tx snap state (failed e) = (failed e, record env { state = node.revert_to snap state })
  settle env tx snap state (executed receipt) = (
    executed (node.receipt_logs receipt),
    record env { state = state; txs = env.txs ++ tx ∷ []; receipts = env.receipts ++ receipt ∷ [] },
  )

  unfoldable pub commit_transaction :
      Tx
      → Address
      → Environment Tx Receipt State
      → TxResult (List Log) × Environment Tx Receipt State
  unfolding settle
  commit_transaction tx coinbase env =
      let (snap, state) = node.snapshot env.state in
      let a = node.apply_transaction coinbase env.header tx (gas_of env.gas_pool) state in
      let env' = record env {
        gas_pool = some a.gas_left;
        header = record env.header { gas_used = a.gas_used };
      } in
      settle env' tx snap a.state a.result

  -- The `switch` on the error of `commitTransaction`: a counter, and `Shift` or `Pop`.
  unfoldable pub advance :
      TxResult (List Log)
      → Environment Tx Receipt State
      → TxSet
      → Environment Tx Receipt State × TxSet
  advance (failed gas_limit_reached) env txs =
      (record env { err_gas_lcnt = env.err_gas_lcnt + 1 }, node.pop txs)
  advance (failed nonce_too_low) env txs =
      (record env { err_nonce_lcnt = env.err_nonce_lcnt + 1 }, node.shift txs)
  advance (failed nonce_too_high) env txs =
      (record env { err_nonce_hcnt = env.err_nonce_hcnt + 1 }, node.pop txs)
  advance (executed logs) env txs = (record env { tcount = env.tcount + 1 }, node.shift txs)
  advance (failed tx_type_not_supported) env txs =
      (record env { err_not_supported_cnt = env.err_not_supported_cnt + 1 }, node.pop txs)
  advance (failed other_error) env txs =
      (record env { err_default_cnt = env.err_default_cnt + 1 }, node.shift txs)

  -- From `state.Prepare` to the end of the `switch`.
  unfoldable pub execute :
      Tx
      → Address
      → Environment Tx Receipt State
      → TxSet
      → TxResult (List Log) × Environment Tx Receipt State × TxSet
  execute tx coinbase env txs =
      let prepared = record env {
        state = node.prepare_tx (node.hashing.transaction_hash tx) env.tcount env.state;
      } in
      let (result, env') = commit_transaction tx coinbase prepared in
      let (env'', txs') = advance result env' txs in (result, env'', txs')

  -- `tx.Protected() && !b.chainconfig.IsEIP155(header.Number)`
  unfoldable pub is_ignored : ChainConfig → Environment Tx Receipt State → Tx → Bool
  is_ignored config env tx = node.is_protected tx && not (is_eip155 config env.header.number)

-- A nil gas pool gets the gas limit of the header.
unfoldable pub with_gas_pool :
    {Tx Receipt State : Type 0} → Environment Tx Receipt State → Environment Tx Receipt State
with_gas_pool env = elim env.gas_pool [
  | none ↦ record env { gas_pool = some env.header.gas_limit }
  | some g ↦ env
]
