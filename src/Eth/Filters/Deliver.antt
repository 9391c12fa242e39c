-- ===== src/Eth/Filters/Deliver.antt =====
-- eth/filters/filter_system.go: what the event loop sends to the subscriptions for an event. The
-- package's `filterLogs`, of another file, and the events' hashes and headers come from outside.
pub mod Once
use ecgeth.Base.{
  ℕ, Bool, true, false, Option, none, some, List, [], ◌∷◌, ◌++◌, map, Hash, Address, is_empty,
  if◌then◌else◌,
}
use ecgeth.Base.Int.{ℤ}
use ecgeth.Types.Header.{Header}
use ecgeth.Types.Block.{Block, get_header}
use ecgeth.Eth.Filters.{
  logs_subscription, pending_logs_subscription, pending_transactions_subscription,
  blocks_subscription, Subscription,
}
use ecgeth.Eth.Filters.Index.{FilterIndex}

-- `filterLogs(logs, from, to, addresses, topics)` and the hash of a transaction.
pub record LogTools (Log Tx : Type 0) : Type 0 where
  pub filter_logs : List Log → Option ℤ → Option ℤ → List Address → List (List Hash) → List Log
  pub transaction_hash : Tx → Hash

-- What is sent on the channels `logs`, `hashes` and `headers` of a subscription.
pub data Message (Log : Type 0) : Type 0 where
  logs_message : List Log → Message Log
  hashes_message : List Hash → Message Log
  header_message : Header → Message Log

pub data NodeEvent (Log Tx : Type 0) : Type 0 where
  txs_event : List Tx → NodeEvent Log Tx
  logs_event pending_logs_event removed_logs_event : List Log → NodeEvent Log Tx
  chain_event : Block Tx → NodeEvent Log Tx

module _ {Log Tx : Type 0} (tools : LogTools Log Tx) where
  -- A message to the subscription with an id.
  abbrev pub Sent : Type 0
  Sent = ℕ × Message Log

  abbrev pub send_matched : Subscription → List Log → List Sent
  send_matched f [] = []
  send_matched f (l ∷ ls) = (f.id, logs_message (l ∷ ls)) ∷ []

  abbrev pub matched : Option ℤ → Subscription → List Log → List Log
  matched from f ev = tools.filter_logs ev from f.crit.to_block f.crit.addresses f.crit.topics

  -- A loop over the subscriptions of a map that sends what `one` says for each.
  abbrev pub for_each : (Subscription → List Sent) → List Subscription → List Sent
  for_each one [] = []
  for_each one (f ∷ fs) = one f ++ for_each one fs

  unfoldable pub handle_logs : FilterIndex → List Log → List Sent
  handle_logs filters ev =
      if is_empty ev
      then []
      else for_each (λ f. send_matched f (matched f.crit.from_block f ev))
          (filters logs_subscription)

  unfoldable pub handle_pending_logs : FilterIndex → List Log → List Sent
  handle_pending_logs filters ev =
      if is_empty ev
      then []
      else for_each (λ f. send_matched f (matched none f ev)) (filters pending_logs_subscription)

  unfoldable pub handle_removed_logs : FilterIndex → List Log → List Sent
  handle_removed_logs filters ev =
      for_each (λ f. send_matched f (matched f.crit.from_block f ev)) (filters logs_subscription)

  unfoldable pub handle_txs_event : FilterIndex → List Tx → List Sent
  handle_txs_event filters txs =
      for_each (λ f. (f.id, hashes_message (map tools.transaction_hash txs)) ∷ [])
        (filters pending_transactions_subscription)

  -- The first part of `handleChainEvent`, which is all of it but in light mode.
  unfoldable pub send_header : FilterIndex → Block Tx → List Sent
  unfolding get_header
  send_header filters block =
      for_each (λ f. (f.id, header_message (get_header block)) ∷ []) (filters blocks_subscription)

  -- The cases of `eventLoop` for the events of a full node.
  unfoldable pub deliver_event : FilterIndex → NodeEvent Log Tx → List Sent
  unfolding handle_logs handle_pending_logs handle_removed_logs handle_txs_event send_header
  deliver_event filters (txs_event txs) = handle_txs_event filters txs
  deliver_event filters (logs_event ev) = handle_logs filters ev
  deliver_event filters (pending_logs_event ev) = handle_pending_logs filters ev
  deliver_event filters (removed_logs_event ev) = handle_removed_logs filters ev
  deliver_event filters (chain_event block) = send_header filters block
