-- ===== src/Connector/Batcher/Execute/Effects.antt =====
-- ecconnector/batcher.go: what the execution of one transaction changes in the environment.
use ecgeth.Base.{◌+◌, ◌≡◌, refl, ◌⊎◌, inl, inr, [], ◌∷◌, ◌++◌, Address, arith}
use ecgeth.Connector.Batcher.{TxError, TxResult, executed, failed, Applied, Node, Environment}
use ecgeth.Connector.Batcher.Execute.{gas_of, commit_transaction, advance, execute}

TxResult-cases :
    {A : Type 0} (r : TxResult A) → ((a : A) × (r ≡ executed a)) ⊎ ((e : TxError) × (r ≡ failed e))
TxResult-cases (executed a) = inl (a, refl)
TxResult-cases (failed e) = inr (e, refl)

module _ {Tx Receipt State : Type 0} where
  -- The transaction and its receipt are appended and counted.
  pub record Adds (tx : Tx) (env env' : Environment Tx Receipt State) : Type 0 where
    pub receipt : Receipt
    pub txs_added : env'.txs ≡ env.txs ++ tx ∷ []
    pub receipts_added : env'.receipts ≡ env.receipts ++ receipt ∷ []
    pub counted : env'.tcount ≡ env.tcount + 1

  -- No transaction is added.
  pub record Skips (env env' : Environment Tx Receipt State) : Type 0 where
    pub same_txs : env'.txs ≡ env.txs
    pub same_receipts : env'.receipts ≡ env.receipts
    pub same_count : env'.tcount ≡ env.tcount

  -- What no execution touches.
  pub record KeepsRest (env env' : Environment Tx Receipt State) : Type 0 where
    pub same_processed : env'.processed_txs ≡ env.processed_txs
    pub same_f_s : env'.f_tcount_s ≡ env.f_tcount_s
    pub same_p_s : env'.p_tcount_s ≡ env.p_tcount_s
    pub same_number : env'.header.number ≡ env.header.number
    pub same_parent : env'.header.parent_hash ≡ env.header.parent_hash
    pub same_coinbase : env'.header.coinbase ≡ env.header.coinbase

module _ {Tx Receipt State TxSet Log : Type 0} (node : Node Tx Receipt State TxSet Log) (tx : Tx)
    (coinbase : Address) (env : Environment Tx Receipt State) (txs : TxSet) where
  -- The call of `ApplyTransaction` behind `execute`.
  abbrev pub applied : Applied Receipt State
  applied =
      node.apply_transaction coinbase env.header tx (gas_of env.gas_pool)
        (node.snapshot (node.prepare_tx (node.hashing.transaction_hash tx) env.tcount env.state)).1

  execute-Adds :
      (receipt : Receipt)
      → applied.result ≡ executed receipt
      → Adds tx env (execute node tx coinbase env txs).1
  unfolding execute commit_transaction advance
  execute-Adds receipt e = record {
    receipt = receipt;
    txs_added = ground arith;
    receipts_added = ground arith;
    counted = ground arith;
  }

  execute-Skips :
      (err : TxError) → applied.result ≡ failed err → Skips env (execute node tx coinbase env txs).1
  unfolding execute commit_transaction advance
  execute-Skips err e = record {
    same_txs = ground arith;
    same_receipts = ground arith;
    same_count = ground arith;
  }

  pub execute_cases :
      Adds tx env (execute node tx coinbase env txs).1
      ⊎ Skips env (execute node tx coinbase env txs).1
  execute_cases = elim (TxResult-cases applied.result) [
    | inl (receipt, e) ↦ inl (execute-Adds receipt e)
    | inr (err, e) ↦ inr (execute-Skips err e)
  ]

  pub execute-KeepsRest : KeepsRest env (execute node tx coinbase env txs).1
  unfolding execute commit_transaction advance
  execute-KeepsRest = ground arith
