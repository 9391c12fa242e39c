-- ===== src/Connector/Batcher/Loops/Fuel.antt =====
-- ecconnector/batcher.go: the two loops end, and the rule by which they keep an invariant.
use ecgeth.Base.{
  ℕ, zero, suc, ◌+◌, ◌≡◌, ◌<◌, refl, ◌≢◌, inl, inr, Option, none, some, List, [], ◌++◌, Address,
  arith, Option-cases,
}
use ecgeth.Params.Config.{ChainConfig}
use ecgeth.Connector.Batcher.{
  gas_limit_reached, nonce_too_low, nonce_too_high, tx_type_not_supported, other_error, TxResult,
  executed, failed, Node, Shrinks, Environment,
}
use ecgeth.Connector.Batcher.Execute.{execute, advance, with_gas_pool}
use ecgeth.Connector.Batcher.Loops.{
  LoopEnd, suggested, seen, counted_new, commit_loop, commit_transactions, update_loop,
  update_transactions, new_logs,
}

some_of : {A : Type 0} (o : Option A) → o ≢ none → (a : A) × (o ≡ some a)
some_of none h = absurd (h refl)
some_of (some a) h = (a, refl)

module _ {Tx Receipt State TxSet Log : Type 0} (node : Node Tx Receipt State TxSet Log)
    (shrinks : Shrinks node) where
  advance-smaller :
      (r : TxResult (List Log)) (env : Environment Tx Receipt State) (txs : TxSet) (tx : Tx)
      → node.peek txs ≡ some tx
      → node.size (advance node r env txs).1 < node.size txs
  unfolding advance
  advance-smaller (executed logs) env txs tx e = shrinks.shift_smaller txs tx e
  advance-smaller (failed gas_limit_reached) env txs tx e = shrinks.pop_smaller txs tx e
  advance-smaller (failed nonce_too_low) env txs tx e = shrinks.shift_smaller txs tx e
  advance-smaller (failed nonce_too_high) env txs tx e = shrinks.pop_smaller txs tx e
  advance-smaller (failed tx_type_not_supported) env txs tx e = shrinks.pop_smaller txs tx e
  advance-smaller (failed other_error) env txs tx e = shrinks.shift_smaller txs tx e

  execute-smaller :
      (tx : Tx) (coinbase : Address) (env : Environment Tx Receipt State) (txs : TxSet)
      → node.peek txs ≡ some tx
      → node.size (execute node tx coinbase env txs).2 < node.size txs
  unfolding execute
  execute-smaller tx coinbase env txs e = advance-smaller _ _ txs tx e

  module _ (config : ChainConfig) (coinbase : Address) where
    commit_loop-ne-none :
        (fuel : ℕ) (signal : ℕ → ℕ) (i : ℕ) (env : Environment Tx Receipt State) (txs : TxSet)
        (logs : List Log)
        → node.size txs < fuel
        → commit_loop node config coinbase fuel signal i env txs logs ≢ none
    unfolding commit_loop
    commit_loop-ne-none zero signal i env txs logs lt = absurd (omega arith)
    commit_loop-ne-none (suc fuel) signal i env txs logs lt = elim (Option-cases (node.peek txs)) [
      | inl empty ↦ ground arith
      | inr (tx, e) ↦
          let env' = suggested node config coinbase env tx in
          let step = execute node tx coinbase env' txs in
          ground (
            arith,
            shrinks.pop_smaller txs tx e,
            execute-smaller tx coinbase env' txs e,
            commit_loop-ne-none fuel signal (i + 1) env' (node.pop txs) logs,
            commit_loop-ne-none fuel signal (i + 1) step.1 step.2 (logs ++ new_logs step.0),
          )
    ]

    update_loop-ne-none :
        (fuel : ℕ) (env : Environment Tx Receipt State) (txs : TxSet)
        → node.size txs < fuel
        → update_loop node config coinbase fuel env txs ≢ none
    unfolding update_loop
    update_loop-ne-none zero env txs lt = absurd (omega arith)
    update_loop-ne-none (suc fuel) env txs lt = elim (Option-cases (node.peek txs)) [
      | inl empty ↦ ground arith
      | inr (tx, e) ↦
          let env1 = seen node config coinbase env in
          let env2 = counted_new node config coinbase env1 in
          let step = execute node tx coinbase env2 txs in
          ground (
            arith,
            shrinks.pop_smaller txs tx e,
            shrinks.shift_smaller txs tx e,
            execute-smaller tx coinbase env2 txs e,
            update_loop-ne-none fuel env1 (node.shift txs),
            update_loop-ne-none fuel env2 (node.pop txs),
            update_loop-ne-none fuel step.1 step.2,
          )
    ]

    -- Both loops end within one round more than there are transactions in the set, whatever the
    -- transactions do.
    pub loops_end :
        (signal : ℕ → ℕ) (env : Environment Tx Receipt State) (txs : TxSet)
        → ((end : LoopEnd (Environment Tx Receipt State) Log) × (commit_transactions node config
                coinbase signal env txs
              ≡ some end))
          × ((env' : Environment Tx Receipt State) × (update_transactions node config coinbase env
                  txs
                ≡ some env'))
    unfolding commit_transactions update_transactions
    loops_end signal env txs = (
      some_of _ (
          commit_loop-ne-none (suc (node.size txs)) signal 0 (with_gas_pool env) txs []
            (omega arith)),
      some_of _ (update_loop-ne-none (suc (node.size txs)) (with_gas_pool env) txs (omega arith)),
    )
