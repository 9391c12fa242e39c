-- ===== src/Eth/Filters.antt =====
-- eth/filters/filter_system.go: the subscriptions of RPC clients to the events of the node.
pub mod Range
pub mod Index
pub mod Deliver
pub mod Light
mod Witnesses
use ecgeth.Base.{
  ℕ, ◌+◌, ◌≡◌, Bool, true, false, not, ◌&&◌, ◌||◌, Option, none, some, List, [], ◌∷◌, Hash, Address,
  ◌==◌, if◌then◌else◌,
}
use ecgeth.Base.Int.{ℤ, pos, negsuc, leb_ℤ, eq_ℤ}

-- The type `Type`, without its last index.
pub data SubscriptionType : Type 0 where
  unknown_subscription logs_subscription pending_logs_subscription : SubscriptionType
  mined_and_pending_logs_subscription pending_transactions_subscription : SubscriptionType
  blocks_subscription : SubscriptionType

abbrev pub same_type : SubscriptionType → SubscriptionType → Bool
same_type unknown_subscription unknown_subscription = true
same_type logs_subscription logs_subscription = true
same_type pending_logs_subscription pending_logs_subscription = true
same_type mined_and_pending_logs_subscription mined_and_pending_logs_subscription = true
same_type pending_transactions_subscription pending_transactions_subscription = true
same_type blocks_subscription blocks_subscription = true
same_type _ _ = false

-- The fields of `ethereum.FilterQuery` that are read here.
pub record FilterQuery : Type 0 where
  pub from_block : Option ℤ
  pub to_block : Option ℤ
  pub addresses : List Address
  pub topics : List (List Hash)

-- `subscription`: its id, which `rpc.NewID` makes, is a number; the channels are those of the client.
pub record Subscription : Type 0 where
  pub id : ℕ
  pub typ : SubscriptionType
  pub crit : FilterQuery

-- The constants of the package rpc and `big.Int.Int64`, which is the number itself if it fits.
pub record RpcNumbers : Type 0 where
  pub latest_block : ℤ
  pub pending_block : ℤ
  pub to_int64 : ℤ → ℤ

-- What rpc documents of its numbers: both are negative, and that of pending blocks is the lower one.
pub record AreSpecial (rpc : RpcNumbers) : Type 0 where
  pub latest : ℕ
  pub later : ℕ
  pub latest_negative : rpc.latest_block ≡ negsuc latest
  pub pending_lower : rpc.pending_block ≡ negsuc (latest + later + 1)

module _ (rpc : RpcNumbers) where
  abbrev pub or_latest : Option ℤ → ℤ
  or_latest none = rpc.latest_block
  or_latest (some b) = rpc.to_int64 b

  -- The tests of `SubscribeLogs` on the two ends; `none` is its error.
  unfoldable pub logs_type : ℤ → ℤ → Option SubscriptionType
  logs_type from to =
      if eq_ℤ from rpc.pending_block && eq_ℤ to rpc.pending_block
      then some pending_logs_subscription
      else if eq_ℤ from rpc.latest_block && eq_ℤ to rpc.latest_block
      then some logs_subscription
      else if leb_ℤ (pos 0) from && leb_ℤ (pos 0) to && leb_ℤ from to
      then some logs_subscription
      else if leb_ℤ rpc.latest_block from && eq_ℤ to rpc.pending_block
      then some mined_and_pending_logs_subscription
      else if leb_ℤ (pos 0) from && eq_ℤ to rpc.latest_block
      then some logs_subscription
      else none

  with_type : ℕ → FilterQuery → Option SubscriptionType → Option Subscription
  with_type id crit none = none
  with_type id crit (some typ) = some (record { id = id; typ = typ; crit = crit })

  -- `SubscribeLogs`, up to the installation of the subscription. `id` is the new id.
  unfoldable pub subscribe_logs : ℕ → FilterQuery → Option Subscription
  unfolding logs_type with_type
  subscribe_logs id crit =
      with_type id crit (logs_type (or_latest crit.from_block) (or_latest crit.to_block))

abbrev no_query : FilterQuery
no_query = record { from_block = none; to_block = none; addresses = []; topics = [] }

unfoldable pub subscribe_new_heads : ℕ → Subscription
subscribe_new_heads id = record { id = id; typ = blocks_subscription; crit = no_query }

unfoldable pub subscribe_pending_txs : ℕ → Subscription
subscribe_pending_txs id = record {
  id = id;
  typ = pending_transactions_subscription;
  crit = no_query;
}
