-- ===== src/Connector/Batcher/Loops/Fresh.antt =====
-- ecconnector/batcher.go: `processedTxs`. The second pass takes none of the transactions that the
-- first pass has taken up.
use ecgeth.Base.{
  ℕ, ◌≡◌, sym, ap, ◌∙◌, inl, inr, true, false, some, List, [], ◌∷◌, ◌++◌, Address, Hash, arith, All,
  All-append, All-map, append_assoc, append-nil,
}
use ecgeth.Params.Config.{ChainConfig}
use ecgeth.Connector.Batcher.{Node, Shrinks, Environment}
use ecgeth.Connector.Batcher.Execute.{execute, with_gas_pool}
use ecgeth.Connector.Batcher.Execute.Effects.{execute_cases, execute-KeepsRest}
use ecgeth.Connector.Batcher.Loops.{
  LoopEnd, end_env, is_processed, suggested, seen, counted_new, commit_transactions,
  update_transactions,
}
use ecgeth.Connector.Batcher.Loops.Fuel.{loops_end}
use ecgeth.Connector.Batcher.Loops.Invariants.{
  LeavesEnv, commit_transactions-Leaves, update_transactions-Leaves,
}

module _ {Tx Receipt State TxSet Log : Type 0} (node : Node Tx Receipt State TxSet Log) where
  -- The transaction was taken up, or was not, as the processed ones stand.
  abbrev pub Taken : List (Hash × Tx) → Tx → Type 0
  Taken processed tx = is_processed (node.hashing.transaction_hash tx) processed ≡ true

  abbrev pub Fresh : List (Hash × Tx) → Tx → Type 0
  Fresh processed tx = is_processed (node.hashing.transaction_hash tx) processed ≡ false

  -- All transactions of the block under way are among the processed ones.
  abbrev pub AllTaken : Environment Tx Receipt State → Type 0
  AllTaken env = All (Taken env.processed_txs) env.txs

  Taken-later :
      (h : Hash) (t : Tx) (processed : List (Hash × Tx)) (tx : Tx)
      → Taken processed tx
      → Taken ((h, t) ∷ processed) tx
  unfolding is_processed
  Taken-later h t processed tx e = ground arith

  Taken-now :
      (t : Tx) (processed : List (Hash × Tx))
      → Taken ((node.hashing.transaction_hash t, t) ∷ processed) t
  unfolding is_processed
  Taken-now t processed = ground arith

  module _ (config : ChainConfig) (coinbase : Address) where
    suggested-AllTaken :
        (env : Environment Tx Receipt State) (tx : Tx)
        → AllTaken env
        → AllTaken (suggested node config coinbase env tx)
    suggested-AllTaken env tx a = All-map _ _ env.txs (Taken-later _ tx env.processed_txs) a

    execute-AllTaken :
        (env : Environment Tx Receipt State) (tx : Tx) (txs : TxSet)
        → AllTaken env
        → AllTaken (execute node tx coinbase (suggested node config coinbase env tx) txs).1
    execute-AllTaken env tx txs a =
        let env' = suggested node config coinbase env tx in
        let before : AllTaken env' = suggested-AllTaken env tx a in
        let rest = execute-KeepsRest node tx coinbase env' txs in
        elim (execute_cases node tx coinbase env' txs) [
          | inl added ↦
              rw (rest.same_processed, added.txs_added)
                (All-append (Taken env'.processed_txs) env.txs (tx ∷ []) before
                  (Taken-now tx env.processed_txs, tt))
          | inr skipped ↦ rw (rest.same_processed, skipped.same_txs) before
        ]

    with_gas_pool-same :
        (env : Environment Tx Receipt State)
        → ((with_gas_pool env).processed_txs ≡ env.processed_txs)
          × ((with_gas_pool env).txs ≡ env.txs)
    unfolding with_gas_pool
    with_gas_pool-same env = ground arith

    with_gas_pool-AllTaken :
        (env : Environment Tx Receipt State) → AllTaken env → AllTaken (with_gas_pool env)
    with_gas_pool-AllTaken env a = rw ((with_gas_pool-same env).0, (with_gas_pool-same env).1) a

    -- What a second pass makes of the environment `start`: its transactions are followed by ones that
    -- were not taken up, and the record of those taken up is not touched.
    record Extends (start env : Environment Tx Receipt State) : Type 0 where
      pub new : List Tx
      pub followed : env.txs ≡ start.txs ++ new
      pub fresh : All (Fresh start.processed_txs) new
      pub same_taken : env.processed_txs ≡ start.processed_txs

    execute-Extends :
        (start env : Environment Tx Receipt State) (tx : Tx) (txs : TxSet)
        → Extends start env
        → Fresh start.processed_txs tx
        → Extends start
            (execute node tx coinbase
              (counted_new node config coinbase (seen node config coinbase env))
              txs).1
    execute-Extends start env tx txs x fresh =
        let env' = counted_new node config coinbase (seen node config coinbase env) in
        let rest = execute-KeepsRest node tx coinbase env' txs in
        elim (execute_cases node tx coinbase env' txs) [
          | inl added ↦ record {
            new = x.new ++ tx ∷ [];
            followed =
                added.txs_added
                ∙ ap (λ l. l ++ tx ∷ []) x.followed
                ∙ append_assoc start.txs x.new (tx ∷ []);
            fresh = All-append (Fresh start.processed_txs) x.new (tx ∷ []) x.fresh (fresh, tt);
            same_taken = rest.same_processed ∙ x.same_taken;
          }
          | inr skipped ↦ record {
            new = x.new;
            followed = skipped.same_txs ∙ x.followed;
            fresh = x.fresh;
            same_taken = rest.same_processed ∙ x.same_taken;
          }
        ]

    update_transactions-Extends :
        (env : Environment Tx Receipt State) (txs : TxSet)
        → LeavesEnv (Extends env) (update_transactions node config coinbase env txs)
    update_transactions-Extends env txs =
        update_transactions-Leaves node config coinbase (Extends env)
          (λ e x. record {
            new = x.new;
            followed = x.followed;
            fresh = x.fresh;
            same_taken = x.same_taken;
          })
          (λ e x. record {
            new = x.new;
            followed = x.followed;
            fresh = x.fresh;
            same_taken = x.same_taken;
          })
          (λ e tx ts x few fresh. execute-Extends env e tx ts x (rw (sym x.same_taken) fresh)) env
          txs
          (record {
            new = [];
            followed = (with_gas_pool-same env).1 ∙ sym (append-nil env.txs);
            fresh = tt;
            same_taken = (with_gas_pool-same env).0;
          })

    module _ (shrinks : Shrinks node) where
      -- `commitTransactions` ends with all transactions of the block among those taken up, if that
      -- was so before.
      pub commit_transactions-AllTaken :
          (signal : ℕ → ℕ) (env : Environment Tx Receipt State) (txs : TxSet)
          → AllTaken env
          → (end : LoopEnd (Environment Tx Receipt State) Log) × (commit_transactions node config
                coinbase signal env txs
              ≡ some end)
            × AllTaken (end_env end)
      commit_transactions-AllTaken signal env txs a =
          let (end, e) = (loops_end node shrinks config coinbase signal env txs).0 in
          let keeps =
            commit_transactions-Leaves node config coinbase AllTaken suggested-AllTaken
              (λ e tx ts a few. execute-AllTaken e tx ts a) signal env txs
              (with_gas_pool-AllTaken env a) in
          (end, e, keeps.at end e)

      -- `updateTransactions` ends, and appends to the transactions of the block only such as
      -- `commitTransactions` has not taken up; it does not touch the record of those taken up.
      pub update_transactions-Fresh :
          (env : Environment Tx Receipt State) (txs : TxSet)
          → (env' : Environment Tx Receipt State) × (update_transactions node config coinbase env
                txs
              ≡ some env')
            × ((new : List Tx) × (env'.txs ≡ env.txs ++ new) × All (Fresh env.processed_txs) new)
            × (env'.processed_txs ≡ env.processed_txs)
      update_transactions-Fresh env txs =
          let (env', e) = (loops_end node shrinks config coinbase (λ i. 0) env txs).1 in
          let x = (update_transactions-Extends env txs).at env' e in
          (env', e, (x.new, x.followed, x.fresh), x.same_taken)
