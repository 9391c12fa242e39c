-- ===== src/Eth/Filters/Deliver/Once.antt =====
-- eth/filters/filter_system.go: what one subscription is sent.
use ecgeth.Base.{
  ℕ, Option, none, some, List, [], ◌∷◌, ◌++◌, map, append-nil, ◌==◌, if◌then◌else◌, ◌≡◌, refl, sym,
  ◌∙◌, arith, Bool-cases, inl, inr, ==_iff, is_empty,
}
use ecgeth.Types.Block.{get_header}
use ecgeth.Eth.Filters.{
  SubscriptionType, logs_subscription, pending_logs_subscription, pending_transactions_subscription,
  blocks_subscription, Subscription,
}
use ecgeth.Eth.Filters.Index.{FilterIndex, find_id, IndexOp, index_after}
use ecgeth.Eth.Filters.Index.Live.{live, IsDistinct, index_after-live, index_after-IsDistinct}
use ecgeth.Eth.Filters.Deliver.{
  LogTools, Message, logs_message, hashes_message, header_message, NodeEvent, txs_event, logs_event,
  pending_logs_event, removed_logs_event, chain_event, Sent, send_matched, matched, for_each,
  handle_logs, handle_pending_logs, handle_removed_logs, handle_txs_event, send_header,
  deliver_event,
}

module _ {Log Tx : Type 0} (tools : LogTools Log Tx) where
  -- The type of subscriptions that an event concerns.
  abbrev pub audience : NodeEvent Log Tx → SubscriptionType
  audience (txs_event txs) = pending_transactions_subscription
  audience (logs_event ev) = logs_subscription
  audience (pending_logs_event ev) = pending_logs_subscription
  audience (removed_logs_event ev) = logs_subscription
  audience (chain_event block) = blocks_subscription

  abbrev pub if_any : List Log → List (Message Log)
  if_any [] = []
  if_any (l ∷ ls) = logs_message (l ∷ ls) ∷ []

  -- What one subscription of the audience wants to know of an event.
  unfoldable pub news : Subscription → NodeEvent Log Tx → List (Message Log)
  unfolding get_header
  news f (txs_event txs) = hashes_message (map tools.transaction_hash txs) ∷ []
  news f (logs_event ev) = if is_empty ev then [] else if_any (matched tools f.crit.from_block f ev)
  news f (pending_logs_event ev) = if is_empty ev then [] else if_any (matched tools none f ev)
  news f (removed_logs_event ev) = if_any (matched tools f.crit.from_block f ev)
  news f (chain_event block) = header_message (get_header block) ∷ []

  abbrev pub news_of : Option Subscription → NodeEvent Log Tx → List (Message Log)
  news_of none e = []
  news_of (some f) e = news f e

  -- What the subscription with an id receives.
  abbrev pub received : ℕ → List (Sent tools) → List (Message Log)
  received id [] = []
  received id ((k, m) ∷ sent) = let rest = received id sent in if k == id then m ∷ rest else rest

  abbrev tagged : ℕ → List (Message Log) → List (Sent tools)
  tagged k ms = map (λ m. (k, m)) ms

  received-tagged :
      (id k : ℕ) (ms : List (Message Log)) (rest : List (Sent tools))
      → received id (tagged k ms ++ rest)
        ≡ (if k == id then ms ++ received id rest else received id rest)
  received-tagged id k [] rest = ground arith
  received-tagged id k (m ∷ ms) rest = ground (arith, received-tagged id k ms rest)

  abbrev told : (Subscription → List (Message Log)) → Option Subscription → List (Message Log)
  told what none = []
  told what (some f) = what f

  for_each-received :
      (id : ℕ) (one : Subscription → List (Sent tools)) (what : Subscription → List (Message Log))
      → ((f : Subscription) → one f ≡ tagged f.id (what f))
      → (fs : List Subscription) → IsDistinct fs
      → received id (for_each tools one fs) ≡ told what (find_id id fs)
  for_each-received id one what same [] d = refl
  for_each-received id one what same (f ∷ fs) d =
      rw
        (
          same f,
          received-tagged id f.id (what f) (for_each tools one fs),
          for_each-received id one what same fs d.1,
        )
        (elim (Bool-cases (f.id == id)) [
          | inl hit ↦ rw hit (rw (sym ((==_iff f.id id).0 hit), d.0) (append-nil (what f)))
          | inr miss ↦ rw miss refl
        ])

  send_matched-tagged :
      (f : Subscription) (ls : List Log) → send_matched tools f ls ≡ tagged f.id (if_any ls)
  send_matched-tagged f [] = refl
  send_matched-tagged f (l ∷ ls) = refl

  told-news :
      (e : NodeEvent Log Tx) (o : Option Subscription) → told (λ f. news f e) o ≡ news_of o e
  told-news e none = refl
  told-news e (some f) = refl

  no_news :
      (o : Option Subscription)
      → (news_of o (logs_event []) ≡ []) × (news_of o (pending_logs_event []) ≡ [])
  unfolding news
  no_news none = (refl, refl)
  no_news (some f) = (refl, refl)

  deliver_event-received :
      (filters : FilterIndex) (id : ℕ) (e : NodeEvent Log Tx)
      → IsDistinct (filters (audience e))
      → received id (deliver_event tools filters e) ≡ news_of (find_id id (filters (audience e))) e
  unfolding deliver_event handle_logs handle_pending_logs handle_removed_logs handle_txs_event
      send_header news
  deliver_event-received filters id (txs_event txs) d =
      for_each-received id _ (λ f. news f (txs_event txs)) (λ f. refl) _ d
      ∙ told-news (txs_event txs) _
  deliver_event-received filters id (logs_event []) d = sym (no_news _).0
  deliver_event-received filters id (logs_event (l ∷ ls)) d =
      for_each-received id _ (λ f. news f (logs_event (l ∷ ls))) (λ f. send_matched-tagged f _) _ d
      ∙ told-news (logs_event (l ∷ ls)) _
  deliver_event-received filters id (pending_logs_event []) d = sym (no_news _).1
  deliver_event-received filters id (pending_logs_event (l ∷ ls)) d =
      for_each-received id _ (λ f. news f (pending_logs_event (l ∷ ls)))
        (λ f. send_matched-tagged f _) _ d
      ∙ told-news (pending_logs_event (l ∷ ls)) _
  deliver_event-received filters id (removed_logs_event ls) d =
      for_each-received id _ (λ f. news f (removed_logs_event ls)) (λ f. send_matched-tagged f _) _
        d
      ∙ told-news (removed_logs_event ls) _
  deliver_event-received filters id (chain_event block) d =
      for_each-received id _ (λ f. news f (chain_event block)) (λ f. refl) _ d
      ∙ told-news (chain_event block) _

  -- After any installations and removals, an event of the node makes the event loop of a full node
  -- send to each id exactly what its live subscription for that event is to know, in one message: the
  -- logs that match its criteria if there are any, the hashes of the transactions, or the header; and
  -- nothing to an id that has no live subscription for the event.
  pub deliver_event-received-live :
      (ops : List IndexOp) (id : ℕ) (e : NodeEvent Log Tx)
      → received id (deliver_event tools (index_after ops) e) ≡ news_of (live (audience e) id ops) e
  deliver_event-received-live ops id e =
      rw (sym (index_after-live ops (audience e) id))
        (deliver_event-received (index_after ops) id e (index_after-IsDistinct ops (audience e)))
