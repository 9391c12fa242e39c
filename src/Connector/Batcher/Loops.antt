-- ===== src/Connector/Batcher/Loops.antt =====
-- ecconnector/batcher.go: `commitTransactions` and `updateTransactions`, the loops that fill a block.
-- Their fuel is the number of transactions left, and one round for the test that ends the loop.
pub mod Fuel
pub mod Invariants
pub mod Counts
pub mod Fresh
use ecgeth.Base.{
  ℕ, zero, suc, ◌+◌, ◌≡◌, Bool, true, false, not, Option, none, some, List, [], ◌∷◌, ◌++◌, Hash,
  Address, ◌==◌, if◌then◌else◌, ltb, length,
}
use ecgeth.Params.Config.{ChainConfig}
use ecgeth.Connector.Batcher.{
  TxResult, executed, failed, Node, Environment, commit_interrupt_none, commit_interrupt_new_head,
  max_ready_txs,
}
use ecgeth.Connector.Batcher.Execute.{execute, is_ignored, gas_of, with_gas_pool}

-- How `commitTransactions` leaves its loop: by an interrupt, at once, or at its end, where the logs
-- are sent to the subscribers.
pub data LoopEnd (Env Log : Type 0) : Type 0 where
  interrupted : ℕ → Env → LoopEnd Env Log
  finished : Env → List Log → LoopEnd Env Log

-- The environment that the loop leaves, whichever way.
abbrev pub end_env : {Env Log : Type 0} → LoopEnd Env Log → Env
end_env (interrupted signal env) = env
end_env (finished env logs) = env

-- `_, ok := b.currentenv.processedTxs[hash]`
unfoldable pub is_processed {ℓ} : {Tx : Type ℓ} → Hash → List (Hash × Tx) → Bool
is_processed h [] = false
is_processed h ((j, tx) ∷ rest) = if j == h then true else is_processed h rest

abbrev pub new_logs : {Log : Type 0} → TxResult (List Log) → List Log
new_logs (executed logs) = logs
new_logs (failed e) = []

module _ {Tx Receipt State TxSet Log : Type 0} (node : Node Tx Receipt State TxSet Log)
    (config : ChainConfig) (coinbase : Address) where
  abbrev Env : Type 0
  Env = Environment Tx Receipt State

  -- A round that has taken `tx` from the set.
  abbrev pub suggested : Env → Tx → Env
  suggested env tx = record env {
    processed_txs = (node.hashing.transaction_hash tx, tx) ∷ env.processed_txs;
    f_tcount_s = env.f_tcount_s + 1;
  }

  -- The loop of `commitTransactions`. `signal i` is the value of the interrupt in round `i`; a `nil`
  -- interrupt is always 0. The writer sets the interrupt once, so that two reads in a round agree.
  unfoldable pub commit_loop : ℕ → (ℕ → ℕ) → ℕ → Env → TxSet → List Log → Option (LoopEnd Env Log)
  commit_loop zero signal i env txs logs = none
  commit_loop (suc fuel) signal i env txs logs = elim (not (signal i == commit_interrupt_none)) [
    | true ↦ some (interrupted (signal i) env)
    | false ↦ elim (ltb (gas_of env.gas_pool) node.tx_gas) [
      | true ↦ some (finished env logs)
      | false ↦ elim (node.peek txs) [
        | none ↦ some (finished env logs)
        | some tx ↦ elim (ltb max_ready_txs (suggested env tx).f_tcount_s) [
          | true ↦ some (finished (suggested env tx) logs)
          | false ↦ elim (is_ignored node config (suggested env tx) tx) [
            | true ↦ commit_loop fuel signal (i + 1) (suggested env tx) (node.pop txs) logs
            | false ↦
                let step = execute node tx coinbase (suggested env tx) txs in
                commit_loop fuel signal (i + 1) step.1 step.2 (logs ++ new_logs step.0)
          ]
        ]
      ]
    ]
  ]

  -- `commitTransactions` on an environment that is not `nil`.
  unfoldable pub commit_transactions : (ℕ → ℕ) → Env → TxSet → Option (LoopEnd Env Log)
  commit_transactions signal env txs =
      commit_loop (suc (node.size txs)) signal 0 (with_gas_pool env) txs []

  abbrev pub seen : Env → Env
  seen env = record env { p_tcount_s = env.p_tcount_s + 1 }

  abbrev pub counted_new : Env → Env
  counted_new env = record env { p_tcount_n = env.p_tcount_n + 1 }

  -- The loop of `updateTransactions`.
  unfoldable pub update_loop : ℕ → Env → TxSet → Option Env
  update_loop zero env txs = none
  update_loop (suc fuel) env txs = elim (ltb (gas_of env.gas_pool) node.tx_gas) [
    | true ↦ some env
    | false ↦ elim (node.peek txs) [
      | none ↦ some env
      | some tx ↦ elim (ltb max_ready_txs (env.f_tcount_s + (seen env).p_tcount_s)) [
        | true ↦ some (seen env)
        | false ↦ elim (is_processed (node.hashing.transaction_hash tx) env.processed_txs) [
          | true ↦ update_loop fuel (seen env) (node.shift txs)
          | false ↦ elim (is_ignored node config (counted_new (seen env)) tx) [
            | true ↦ update_loop fuel (counted_new (seen env)) (node.pop txs)
            | false ↦
                let step = execute node tx coinbase (counted_new (seen env)) txs in
                update_loop fuel step.1 step.2
          ]
        ]
      ]
    ]
  ]

  unfoldable pub update_transactions : Env → TxSet → Option Env
  update_transactions env txs = update_loop (suc (node.size txs)) (with_gas_pool env) txs
