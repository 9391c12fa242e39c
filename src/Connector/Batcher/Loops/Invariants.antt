-- ===== src/Connector/Batcher/Loops/Invariants.antt =====
-- ecconnector/batcher.go: the rules by which the two loops keep an invariant.
use ecgeth.Base.{
  ℕ, zero, suc, ◌+◌, ◌≡◌, ◌≤◌, false, Option, some, List, [], Address, ltb, arith, not_ltb→le,
  subst, Bool-cases, Option-cases, inl, inr, not, ◌==◌,
}
use ecgeth.Params.Config.{ChainConfig}
use ecgeth.Connector.Batcher.{Node, Environment, max_ready_txs, commit_interrupt_none}
use ecgeth.Connector.Batcher.Execute.{execute, gas_of, is_ignored, with_gas_pool}
use ecgeth.Connector.Batcher.Loops.{
  LoopEnd, end_env, suggested, seen, counted_new, is_processed, commit_loop, commit_transactions,
  update_loop, update_transactions,
}

-- A property of the environment that a loop leaves, if it ends.
pub record Leaves {Env Log : Type 0} (P : Env → Type 0) (o : Option (LoopEnd Env Log))
    : Type 0 where
  pub at : (end : LoopEnd Env Log) → o ≡ some end → P (end_env end)

pub record LeavesEnv {Env : Type 0} (P : Env → Type 0) (o : Option Env) : Type 0 where
  pub at : (env : Env) → o ≡ some env → P env

leave :
    {Env Log : Type 0} {P : Env → Type 0} {end : LoopEnd Env Log}
    → P (end_env end)
    → Leaves P (some end)
leave {P} {end = here} p = record {
  at = λ end e. let same : here ≡ end = cc in subst (λ x. P (end_env x)) same p;
}

leave_env : {Env : Type 0} {P : Env → Type 0} {env : Env} → P env → LeavesEnv P (some env)
leave_env {P} {env = here} p = record { at = λ env e. let same : here ≡ env = cc in subst P same p }

module _ {Tx Receipt State TxSet Log : Type 0} (node : Node Tx Receipt State TxSet Log)
    (config : ChainConfig) (coinbase : Address) (P : Environment Tx Receipt State → Type 0) where
  abbrev pub Env : Type 0
  Env = Environment Tx Receipt State

  abbrev pub OnSuggest : Type 0
  OnSuggest = (env : Env) (tx : Tx) → P env → P (suggested node config coinbase env tx)

  abbrev pub OnCommit : Type 0
  OnCommit =
      (env : Env) (tx : Tx) (txs : TxSet)
      → P env
      → (suggested node config coinbase env tx).f_tcount_s ≤ max_ready_txs
      → P (execute node tx coinbase (suggested node config coinbase env tx) txs).1

  commit_loop-Leaves :
      OnSuggest
      → OnCommit
      → (fuel : ℕ) (signal : ℕ → ℕ) (i : ℕ) (env : Env) (txs : TxSet) (logs : List Log) → P env
      → Leaves P (commit_loop node config coinbase fuel signal i env txs logs)
  unfolding commit_loop
  commit_loop-Leaves sug exe zero signal i env txs logs p = record { at = λ end e. cc }
  commit_loop-Leaves sug exe (suc fuel) signal i env txs logs p =
      elim (Bool-cases (not (signal i == commit_interrupt_none))) [
        | inl stop ↦ rw (stop, commit_loop) (leave p)
        | inr go ↦ elim (Bool-cases (ltb (gas_of env.gas_pool) node.tx_gas)) [
          | inl full ↦ rw (go, full, commit_loop) (leave p)
          | inr room ↦ elim (Option-cases (node.peek txs)) [
            | inl empty ↦ rw (go, room, empty, commit_loop) (leave p)
            | inr (tx, e) ↦ elim (Bool-cases (ltb max_ready_txs (env.f_tcount_s + 1))) [
              | inl many ↦ rw (go, room, e, many, commit_loop) (leave (sug env tx p))
              | inr few ↦
                  elim (Bool-cases
                    (is_ignored node config (suggested node config coinbase env tx) tx)) [
                      | inl ignored ↦
                          rw (go, room, e, few, ignored, commit_loop)
                            (commit_loop-Leaves sug exe fuel signal (i + 1) _ (node.pop txs) logs
                              (sug env tx p))
                      | inr taken ↦
                          rw (go, room, e, few, taken, commit_loop)
                            (commit_loop-Leaves sug exe fuel signal (i + 1) _ _ _
                              (exe env tx txs p (not_ltb→le _ _ few)))
                    ]
            ]
          ]
        ]
      ]

  pub commit_transactions-Leaves :
      OnSuggest
      → OnCommit
      → (signal : ℕ → ℕ) (env : Env) (txs : TxSet) → P (with_gas_pool env)
      → Leaves P (commit_transactions node config coinbase signal env txs)
  unfolding commit_transactions
  commit_transactions-Leaves sug exe signal env txs p =
      commit_loop-Leaves sug exe (suc (node.size txs)) signal 0 (with_gas_pool env) txs [] p

  abbrev pub OnSeen : Type 0
  OnSeen = (env : Env) → P env → P (seen node config coinbase env)

  abbrev pub OnNew : Type 0
  OnNew = (env : Env) → P env → P (counted_new node config coinbase env)

  abbrev pub OnUpdate : Type 0
  OnUpdate =
      (env : Env) (tx : Tx) (txs : TxSet)
      → P env
      → env.f_tcount_s + env.p_tcount_s + 1 ≤ max_ready_txs
      → is_processed (node.hashing.transaction_hash tx) env.processed_txs ≡ false
      → P
          (execute node tx coinbase
            (counted_new node config coinbase (seen node config coinbase env)) txs).1

  -- `updateTransactions` executes a transaction only if its hash is not among the processed ones.
  update_loop-Leaves :
      OnSeen
      → OnNew
      → OnUpdate
      → (fuel : ℕ) (env : Env) (txs : TxSet) → P env
      → LeavesEnv P (update_loop node config coinbase fuel env txs)
  unfolding update_loop
  update_loop-Leaves see new exe zero env txs p = record { at = λ end e. cc }
  update_loop-Leaves see new exe (suc fuel) env txs p =
      elim (Bool-cases (ltb (gas_of env.gas_pool) node.tx_gas)) [
        | inl full ↦ rw (full, update_loop) (leave_env p)
        | inr room ↦ elim (Option-cases (node.peek txs)) [
          | inl empty ↦ rw (room, empty, update_loop) (leave_env p)
          | inr (tx, e) ↦
              elim (Bool-cases (ltb max_ready_txs (env.f_tcount_s + (env.p_tcount_s + 1)))) [
                | inl many ↦ rw (room, e, many, update_loop) (leave_env (see env p))
                | inr few ↦
                    elim (Bool-cases
                      (is_processed (node.hashing.transaction_hash tx) env.processed_txs)) [
                        | inl old ↦
                            rw (room, e, few, old, update_loop)
                              (update_loop-Leaves see new exe fuel _ (node.shift txs) (see env p))
                        | inr fresh ↦
                            elim (Bool-cases (
                              is_ignored node config
                                (counted_new node config coinbase (seen node config coinbase env))
                                tx)) [
                                  | inl ignored ↦
                                      rw (room, e, few, fresh, ignored, update_loop)
                                        (update_loop-Leaves see new exe fuel _ (node.pop txs)
                                          (new _ (see env p)))
                                  | inr taken ↦
                                      rw (room, e, few, fresh, taken, update_loop)
                                        (update_loop-Leaves see new exe fuel _ _ (
                                          exe env tx txs p (omega (arith, not_ltb→le _ _ few))
                                            fresh))
                                ]
                      ]
              ]
        ]
      ]

  pub update_transactions-Leaves :
      OnSeen
      → OnNew
      → OnUpdate
      → (env : Env) (txs : TxSet) → P (with_gas_pool env)
      → LeavesEnv P (update_transactions node config coinbase env txs)
  unfolding update_transactions
  update_transactions-Leaves see new exe env txs p =
      update_loop-Leaves see new exe (suc (node.size txs)) (with_gas_pool env) txs p
