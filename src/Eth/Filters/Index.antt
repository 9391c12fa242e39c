-- ===== src/Eth/Filters/Index.antt =====
-- eth/filters/filter_system.go: the index of the event loop, and how subscriptions enter and leave it.
pub mod Live
use ecgeth.Base.{ℕ, Bool, true, false, Option, none, some, List, [], ◌∷◌, ◌==◌, if◌then◌else◌}
use ecgeth.Eth.Filters.{
  SubscriptionType, unknown_subscription, logs_subscription, pending_logs_subscription,
  mined_and_pending_logs_subscription, pending_transactions_subscription, blocks_subscription,
  same_type, Subscription,
}

-- `filterIndex`: for each type a map from ids, as a list without an order that counts.
abbrev pub FilterIndex : Type 0
FilterIndex = SubscriptionType → List Subscription

unfoldable pub empty_index : FilterIndex
empty_index t = []

-- `delete(m, id)`
unfoldable pub delete_id : ℕ → List Subscription → List Subscription
delete_id id [] = []
delete_id id (f ∷ fs) = let rest = delete_id id fs in if f.id == id then rest else f ∷ rest

-- `m[f.id] = f`
unfoldable pub put : Subscription → List Subscription → List Subscription
put f fs = f ∷ delete_id f.id fs

abbrev change_at :
    SubscriptionType → (List Subscription → List Subscription) → FilterIndex → FilterIndex
change_at t change ix u = if same_type t u then change (ix u) else ix u

-- The maps that the event loop changes for a subscription of a type: two for those of both logs.
change_for : SubscriptionType → (List Subscription → List Subscription) → FilterIndex → FilterIndex
change_for mined_and_pending_logs_subscription change ix =
    change_at pending_logs_subscription change (change_at logs_subscription change ix)
change_for t change ix = change_at t change ix

unfoldable pub install : Subscription → FilterIndex → FilterIndex
unfolding put change_for
install f = change_for f.typ (put f)

unfoldable pub uninstall : Subscription → FilterIndex → FilterIndex
unfolding delete_id change_for
uninstall f = change_for f.typ (delete_id f.id)

pub data IndexOp : Type 0 where
  installs uninstalls : Subscription → IndexOp

abbrev pub index_step : IndexOp → FilterIndex → FilterIndex
index_step (installs f) ix = install f ix
index_step (uninstalls f) ix = uninstall f ix

-- The index after operations, the last of which comes first.
abbrev pub index_after : List IndexOp → FilterIndex
index_after [] = empty_index
index_after (op ∷ ops) = index_step op (index_after ops)

-- `m[id]`
abbrev pub find_id : ℕ → List Subscription → Option Subscription
find_id id [] = none
find_id id (f ∷ fs) = if f.id == id then some f else find_id id fs
