-- ===== src/Eth/Filters/Range.antt =====
-- eth/filters/filter_system.go: which ranges of blocks `SubscribeLogs` accepts.
use ecgeth.Base.{ℕ, ◌≡◌, Bool, true, false, leb, if◌then◌else◌, none, some, arith}
use ecgeth.Base.Int.{ℤ, pos}
use ecgeth.Eth.Filters.{
  SubscriptionType, logs_subscription, pending_logs_subscription,
  mined_and_pending_logs_subscription, RpcNumbers, AreSpecial, logs_type,
}

-- The end of a range as it is meant: the block with a number, the latest block, which comes after all
-- of these, or the pending one, which comes after the latest.
pub data Position : Type 0 where
  numbered : ℕ → Position
  latest_one pending_one : Position

abbrev pub not_after : Position → Position → Bool
not_after (numbered a) (numbered b) = leb a b
not_after (numbered a) latest_one = true
not_after (numbered a) pending_one = true
not_after latest_one (numbered b) = false
not_after latest_one latest_one = true
not_after latest_one pending_one = true
not_after pending_one (numbered b) = false
not_after pending_one latest_one = false
not_after pending_one pending_one = true

-- What the client is interested in: logs of the pending block, of mined blocks, or of both.
abbrev pub interest : Position → Position → SubscriptionType
interest pending_one pending_one = pending_logs_subscription
interest _ pending_one = mined_and_pending_logs_subscription
interest _ _ = logs_subscription

abbrev pub position_number : RpcNumbers → Position → ℤ
position_number rpc (numbered n) = pos n
position_number rpc latest_one = rpc.latest_block
position_number rpc pending_one = rpc.pending_block

-- `SubscribeLogs` accepts exactly the ranges whose first block is not after the last one, where the
-- latest block comes after all numbered ones and the pending block after the latest. It subscribes to
-- pending logs for the pending block alone, to both kinds for a range that ends with it, and else to
-- the logs of mined blocks.
pub logs_type_position :
    (rpc : RpcNumbers) (a b : Position)
    → AreSpecial rpc
    → logs_type rpc (position_number rpc a) (position_number rpc b)
      ≡ (if not_after a b then some (interest a b) else none)
unfolding logs_type
logs_type_position rpc (numbered a) (numbered b) s =
    rw (s.latest_negative, s.pending_lower) (ground arith)
logs_type_position rpc (numbered a) latest_one s =
    rw (s.latest_negative, s.pending_lower) (ground arith)
logs_type_position rpc (numbered a) pending_one s =
    rw (s.latest_negative, s.pending_lower) (ground arith)
logs_type_position rpc latest_one (numbered b) s =
    rw (s.latest_negative, s.pending_lower) (ground arith)
logs_type_position rpc latest_one latest_one s =
    rw (s.latest_negative, s.pending_lower) (ground arith)
logs_type_position rpc latest_one pending_one s =
    rw (s.latest_negative, s.pending_lower) (ground arith)
logs_type_position rpc pending_one (numbered b) s =
    rw (s.latest_negative, s.pending_lower) (ground arith)
logs_type_position rpc pending_one latest_one s =
    rw (s.latest_negative, s.pending_lower) (ground arith)
logs_type_position rpc pending_one pending_one s =
    rw (s.latest_negative, s.pending_lower) (ground arith)
