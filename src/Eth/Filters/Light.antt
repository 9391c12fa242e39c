-- ===== src/Eth/Filters/Light.antt =====
-- eth/filters/filter_system.go: the filtering of a light client, which walks back over the headers
-- from the old head and from the new one to where they meet. The database of headers, the node's
-- logs and receipts, and the bloom filter of the package come from outside.
pub mod Walk
pub mod Meet
pub mod Ends
use ecgeth.Base.{
  ℕ, zero, suc, ◌+◌, ◌-◌, ◌%◌, ◌==◌, ltb, leb, Bool, true, false, Option, none, some, List, [], ◌∷◌,
  ◌++◌, Hash, Address, map, not, ◌&&◌, is_empty, if◌then◌else◌, u64_mod,
}
use ecgeth.Base.Outcome.{Outcome, ok, err, panics, ◌>>=◌}
use ecgeth.Types.Header.{Header}
use ecgeth.Types.Block.{Block, get_header}
use ecgeth.Eth.Filters.{logs_subscription, Subscription}
use ecgeth.Eth.Filters.Index.{FilterIndex}
use ecgeth.Eth.Filters.Deliver.{
  LogTools, Message, logs_message, Sent, for_each, send_header, send_matched,
}

-- `Header.Hash`, `rawdb.ReadHeader` of the chain's database, `GetLogs` (by transaction) and
-- `GetReceipts` (their logs) of the backend, where `none` is an error, `bloomFilter`, the field `TxHash` of a log
-- and the copy of a log with another `Removed`.
pub record LightTools (Log : Type 0) : Type 0 where
  pub hash_of : Header → Hash
  pub read_header : Hash → ℕ → Option Header
  pub get_logs : Hash → Option (List (List Log))
  pub get_receipts : Hash → Option (List (List Log))
  pub bloom_filter : ℕ → List Address → List (List Hash) → Bool
  pub tx_hash : Log → Hash
  pub with_removed : Bool → Log → Log

-- The loop of the walk has no bound of its own: here it has fuel.
pub data WalkError : Type 0 where
  out_of_fuel : WalkError

-- The headers to roll back, and the new ones.
abbrev pub Branches : Type 0
Branches = List Header × List Header

-- `Number.Uint64()`
abbrev pub number_uint64 : Option ℕ → Outcome WalkError ℕ
number_uint64 none = panics
number_uint64 (some n) = ok (n % u64_mod)

-- `n-1` on 64 bits
abbrev number_before : ℕ → ℕ
number_before n = (n + u64_mod - 1) % u64_mod

module _ {Log : Type 0} (light : LightTools Log) where
  abbrev parent_of : Header → ℕ → Option Header
  parent_of h n = light.read_header h.parent_hash (number_before n)

  -- Without a header, the next read of a field of it panics.
  abbrev old_parent : Option Header → List Header → Outcome WalkError (Header × List Header)
  old_parent none olds = panics
  old_parent (some p) olds = ok (p, olds)

  -- The first `if` of the loop.
  unfoldable pub back_old : Header → Header → List Header → Outcome WalkError (Header × List Header)
  back_old oldh newh olds = number_uint64 oldh.number >>= λ a. number_uint64 newh.number >>= λ b.
      if leb b a then old_parent (parent_of oldh a) (olds ++ (oldh ∷ [])) else ok (oldh, olds)

  -- `happens when CHT syncing, nothing to do`: the walk ends at the old header.
  abbrev new_parent :
      Header → Option Header → List Header → Outcome WalkError (Header × List Header)
  new_parent oldh none news = ok (oldh, news)
  new_parent oldh (some p) news = ok (p, news)

  -- The second one.
  unfoldable pub back_new : Header → Header → List Header → Outcome WalkError (Header × List Header)
  back_new oldh newh news = number_uint64 oldh.number >>= λ a. number_uint64 newh.number >>= λ b.
      if ltb a b then new_parent oldh (parent_of newh b) (news ++ (newh ∷ [])) else ok (newh, news)

  unfoldable pub walk : ℕ → Header → Header → List Header → List Header → Outcome WalkError Branches
  unfolding back_old back_new
  walk zero oldh newh olds news = err out_of_fuel
  walk (suc fuel) oldh newh olds news =
      if light.hash_of oldh == light.hash_of newh
      then ok (olds, news)
      else (back_old oldh newh olds >>= λ o.
          back_new o.0 newh news >>= λ n. walk fuel o.0 n.0 o.1 n.1)

  -- The calls of `callBack`: a header, and whether its logs are removed.
  abbrev pub Calls : Type 0
  Calls = List (Header × Bool)

  abbrev rolled_back : List Header → Calls
  rolled_back [] = []
  rolled_back (h ∷ hs) = (h, true) ∷ rolled_back hs

  -- The new blocks are visited from the last to the first.
  abbrev added : List Header → Calls
  added [] = []
  added (h ∷ hs) = added hs ++ ((h, false) ∷ [])

  abbrev pub calls_of : Branches → Outcome WalkError Calls
  calls_of bs = ok (rolled_back bs.0 ++ added bs.1)

  -- `lightFilterNewHead` with the last head, which it then sets to the new one.
  unfoldable pub light_filter_new_head : ℕ → Option Header → Header → Outcome WalkError Calls
  unfolding walk
  light_filter_new_head fuel none newh = ok []
  light_filter_new_head fuel (some oldh) newh = walk fuel oldh newh [] [] >>= calls_of

  module _ {Tx : Type 0} (tools : LogTools Log Tx) where
    abbrev copies : Bool → List Log → List Log
    copies remove ls = map (light.with_removed remove) ls

    abbrev unfiltered : Bool → List (List Log) → List Log
    unfiltered remove [] = []
    unfiltered remove (ls ∷ more) = copies remove ls ++ unfiltered remove more

    abbrev filtered : Subscription → Bool → Option (List (List Log)) → List Log
    filtered f remove none = []
    filtered f remove (some lists) =
        tools.filter_logs (unfiltered remove lists) none none f.crit.addresses f.crit.topics

    -- `matching but non-derived logs` are taken from the receipts.
    abbrev derived : Subscription → Header → Bool → List Log → List Log
    derived f h remove [] = []
    derived f h remove (l ∷ ls) =
        if light.tx_hash l == 0
        then filtered f remove (light.get_receipts (light.hash_of h))
        else l ∷ ls

    unfoldable pub light_filter_logs : Subscription → (Header × Bool) → List Log
    light_filter_logs f (h, remove) =
        if light.bloom_filter h.bloom f.crit.addresses f.crit.topics
        then derived f h remove (filtered f remove (light.get_logs (light.hash_of h)))
        else []

    abbrev pub answer : FilterIndex → Calls → List (Sent tools)
    unfolding light_filter_logs
    answer filters [] = []
    answer filters (c ∷ cs) =
        for_each tools (λ f. send_matched tools f (light_filter_logs f c))
          (filters logs_subscription)
        ++ answer filters cs

    -- `handleChainEvent` with the mode and the last head: what is sent, and the next last head.
    unfoldable pub handle_chain_event :
        ℕ
        → Bool
        → FilterIndex
        → Option Header
        → Block Tx
        → Outcome WalkError (List (Sent tools) × Option Header)
    unfolding get_header send_header light_filter_new_head
    handle_chain_event fuel light_mode filters last_head block =
        if light_mode && not (is_empty (filters logs_subscription))
        then (light_filter_new_head fuel last_head (get_header block) >>= λ cs.
            ok (send_header tools filters block ++ answer filters cs, some (get_header block)))
        else ok (send_header tools filters block, last_head)
