-- ===== src/Connector/Batcher/Loops/Counts.antt =====
-- ecconnector/batcher.go: the counters of the environment, and the limit on the transactions in a
-- block.
use ecgeth.Base.{
  ℕ, ◌+◌, ◌≡◌, ◌≤◌, ap, ◌∙◌, inl, inr, some, [], ◌∷◌, Address, arith, length, length-append,
}
use ecgeth.Params.Config.{ChainConfig}
use ecgeth.Connector.Batcher.{Node, Shrinks, Environment, max_ready_txs}
use ecgeth.Connector.Batcher.Execute.{execute, with_gas_pool}
use ecgeth.Connector.Batcher.Execute.Effects.{execute_cases, execute-KeepsRest}
use ecgeth.Connector.Batcher.Loops.{
  LoopEnd, end_env, suggested, seen, counted_new, commit_transactions, update_transactions,
}
use ecgeth.Connector.Batcher.Loops.Fuel.{loops_end}
use ecgeth.Connector.Batcher.Loops.Invariants.{
  Leaves, LeavesEnv, commit_transactions-Leaves, update_transactions-Leaves,
}

module _ {Tx Receipt State : Type 0} where
  -- The count, the transactions and the receipts agree, and keep the limit.
  pub record IsCounted (env : Environment Tx Receipt State) : Type 0 where
    pub txs_counted : length env.txs ≡ env.tcount
    pub receipts_counted : length env.receipts ≡ env.tcount
    pub suggested_first : env.tcount ≤ env.f_tcount_s + env.p_tcount_s
    pub limited : env.tcount ≤ max_ready_txs

  -- The first pass over a new environment.
  pub record IsFirst (env : Environment Tx Receipt State) : Type 0 where
    pub counted : IsCounted env
    pub first : env.p_tcount_s ≡ 0

module _ {Tx Receipt State TxSet Log : Type 0} (node : Node Tx Receipt State TxSet Log) where
  execute-IsCounted :
      (tx : Tx) (coinbase : Address) (env : Environment Tx Receipt State) (txs : TxSet)
      → length env.txs ≡ env.tcount
      → length env.receipts ≡ env.tcount
      → env.tcount + 1 ≤ env.f_tcount_s + env.p_tcount_s
      → env.tcount + 1 ≤ max_ready_txs
      → IsCounted (execute node tx coinbase env txs).1
  execute-IsCounted tx coinbase env txs t r s l =
      let rest = execute-KeepsRest node tx coinbase env txs in
      elim (execute_cases node tx coinbase env txs) [
        | inl a ↦ record {
          txs_counted =
              omega (arith, ap length a.txs_added, length-append env.txs (tx ∷ []), a.counted);
          receipts_counted = omega (
            arith,
            ap length a.receipts_added,
            length-append env.receipts (a.receipt ∷ []),
            a.counted,
          );
          suggested_first = omega (arith, a.counted, rest.same_f_s, rest.same_p_s);
          limited = omega (arith, a.counted);
        }
        | inr k ↦ record {
          txs_counted = omega (arith, ap length k.same_txs, k.same_count);
          receipts_counted = omega (arith, ap length k.same_receipts, k.same_count);
          suggested_first = omega (arith, k.same_count, rest.same_f_s, rest.same_p_s);
          limited = omega (arith, k.same_count);
        }
      ]

  with_gas_pool-IsCounted :
      (env : Environment Tx Receipt State) → IsCounted env → IsCounted (with_gas_pool env)
  unfolding with_gas_pool
  with_gas_pool-IsCounted env c = ground arith

  with_gas_pool-first :
      (env : Environment Tx Receipt State) → (with_gas_pool env).p_tcount_s ≡ env.p_tcount_s
  unfolding with_gas_pool
  with_gas_pool-first env = ground arith

  module _ (config : ChainConfig) (coinbase : Address) where
    commit_transactions-Leaves-IsFirst :
        (signal : ℕ → ℕ) (env : Environment Tx Receipt State) (txs : TxSet)
        → IsFirst env
        → Leaves IsFirst (commit_transactions node config coinbase signal env txs)
    commit_transactions-Leaves-IsFirst signal env txs f =
        commit_transactions-Leaves node config coinbase IsFirst
          (λ e tx p. record {
            counted = record {
              txs_counted = p.counted.txs_counted;
              receipts_counted = p.counted.receipts_counted;
              suggested_first = omega (arith, p.counted.suggested_first);
              limited = p.counted.limited;
            };
            first = p.first;
          })
          (λ e tx ts p few. record {
            counted =
                execute-IsCounted tx coinbase (suggested node config coinbase e tx) ts
                  p.counted.txs_counted p.counted.receipts_counted
                  (omega (arith, p.counted.suggested_first))
                  (omega (arith, p.counted.suggested_first, p.first));
            first =
                (execute-KeepsRest node tx coinbase (suggested node config coinbase e tx)
                  ts).same_p_s
                ∙ p.first;
          })
          signal env txs
          (record {
            counted = with_gas_pool-IsCounted env f.counted;
            first = with_gas_pool-first env ∙ f.first;
          })

    update_transactions-Leaves-IsCounted :
        (env : Environment Tx Receipt State) (txs : TxSet)
        → IsCounted env
        → LeavesEnv IsCounted (update_transactions node config coinbase env txs)
    update_transactions-Leaves-IsCounted env txs c =
        update_transactions-Leaves node config coinbase IsCounted
          (λ e p. record {
            txs_counted = p.txs_counted;
            receipts_counted = p.receipts_counted;
            suggested_first = omega (arith, p.suggested_first);
            limited = p.limited;
          })
          (λ e p. record {
            txs_counted = p.txs_counted;
            receipts_counted = p.receipts_counted;
            suggested_first = p.suggested_first;
            limited = p.limited;
          })
          (λ e tx ts p few fresh.
            execute-IsCounted tx coinbase
              (counted_new node config coinbase (seen node config coinbase e)) ts p.txs_counted
              p.receipts_counted (omega (arith, p.suggested_first))
              (omega (arith, p.suggested_first)))
          env txs (with_gas_pool-IsCounted env c)

    module _ (shrinks : Shrinks node) where
      -- `commitTransactions` ends, whatever the transactions do and whenever it is interrupted, and
      -- leaves a block under way with one receipt for each transaction, `tcount` of them, and at most
      -- 20480, if it was given such a block in its first pass.
      pub commit_transactions-IsFirst :
          (signal : ℕ → ℕ) (env : Environment Tx Receipt State) (txs : TxSet)
          → IsFirst env
          → (end : LoopEnd (Environment Tx Receipt State) Log) × (commit_transactions node config
                coinbase signal env txs
              ≡ some end)
            × IsFirst (end_env end)
      commit_transactions-IsFirst signal env txs f =
          let (end, e) = (loops_end node shrinks config coinbase signal env txs).0 in
          (end, e, (commit_transactions-Leaves-IsFirst signal env txs f).at end e)

      -- `updateTransactions` ends, and keeps the agreement and the limit of 20480 over both passes.
      pub update_transactions-IsCounted :
          (env : Environment Tx Receipt State) (txs : TxSet)
          → IsCounted env
          → (env' : Environment Tx Receipt State) × (update_transactions node config coinbase env
                txs
              ≡ some env')
            × IsCounted env'
      update_transactions-IsCounted env txs c =
          let (env', e) = (loops_end node shrinks config coinbase (λ i. 0) env txs).1 in
          (env', e, (update_transactions-Leaves-IsCounted env txs c).at env' e)
