-- ===== src/Eth/Sync.antt =====
-- eth/sync.go: `chainSyncer`, which chooses a peer to sync with, and `doSync`. What these ask of the
-- peer set, the chain, the database and the downloader is the record `SyncView`, read at one time.
pub mod Choice
pub mod Loop
mod Witnesses
use ecgeth.Base.{
  ℕ, ◌-◌, ◌≡◌, Bool, true, false, not, ◌&&◌, ◌||◌, Option, none, some, Hash, String, ltb, leb, ◌==◌,
  if◌then◌else◌,
}

pub data SyncMode : Type 0 where
  full_sync fast_sync snap_sync : SyncMode

-- `ID` and `Head` of a peer.
pub record PeerHead : Type 0 where
  pub id : String
  pub head : Hash
  pub td : ℕ

-- `chainSyncOp`
pub record SyncOp : Type 0 where
  pub mode : SyncMode
  pub peer : String
  pub td : ℕ
  pub head : Hash

-- `current_td` and `fast_td` are the total difficulties of `CurrentBlock` and `CurrentFastBlock`; the
-- chain has those of its own heads.
pub record SyncView : Type 0 where
  pub peers_len : ℕ
  pub peer_with_highest_td : Option PeerHead
  pub last_pivot : Option ℕ
  pub current_number : ℕ
  pub current_td : ℕ
  pub fast_td : ℕ

-- The flags of `handler` that a sync reads and writes, and the limit of transactions to look up, in
-- the chain and as it is stored.
pub record SyncFlags : Type 0 where
  pub fast_sync : Bool
  pub snap_sync : Bool
  pub accept_txs : Bool
  pub tx_lookup_limit : ℕ
  pub stored_limit : Option ℕ

abbrev pub default_min_sync_peers : ℕ
default_min_sync_peers = 5

-- `minPeers`
unfoldable pub min_peers : Bool → ℕ → ℕ
min_peers true max_peers = 1
min_peers false max_peers =
    if ltb max_peers default_min_sync_peers then max_peers else default_min_sync_peers

abbrev pub is_before_pivot : Option ℕ → ℕ → Bool
is_before_pivot none number = false
is_before_pivot (some pivot) number = ltb number pivot

unfoldable pub mode_and_local_head : SyncFlags → SyncView → SyncMode × ℕ
mode_and_local_head f v =
    if f.fast_sync || is_before_pivot v.last_pivot v.current_number
    then (fast_sync, v.fast_td)
    else (full_sync, v.current_td)

-- A fast sync goes via the snap protocol where that is on.
unfoldable pub with_snap : SyncMode → Bool → SyncMode
with_snap fast_sync true = snap_sync
with_snap mode _ = mode

unfoldable pub peer_to_sync_op : SyncMode → PeerHead → SyncOp
peer_to_sync_op mode p = record { mode = mode; peer = p.id; td = p.td; head = p.head }

-- The last test: `op.td - 1 <= ourTD` says that the node is in sync. At 0 the source subtracts to -1,
-- and is in sync as here.
unfoldable pub op_behind : SyncMode × ℕ → Bool → PeerHead → Option SyncOp
unfolding with_snap peer_to_sync_op
op_behind (mode, our_td) snap p =
    let op = peer_to_sync_op (with_snap mode snap) p in
    if leb (op.td - 1) our_td then none else some op

unfoldable pub op_with : SyncMode × ℕ → Bool → Option PeerHead → Option SyncOp
unfolding op_behind
op_with local snap none = none
op_with local snap (some p) = op_behind local snap p

-- `nextSyncOp`; `running` is whether `doneCh` is set.
unfoldable pub next_sync_op : Bool → Bool → ℕ → SyncFlags → SyncView → Option SyncOp
unfolding min_peers mode_and_local_head op_with
next_sync_op running forced max_peers f v =
    let found = op_with (mode_and_local_head f v) f.snap_sync v.peer_with_highest_td in
    if running then none else if ltb v.peers_len (min_peers forced max_peers) then none else found

-- What `doSync` meets: whether `Synchronise` succeeds, the head after it, and the time of a month ago.
pub record SyncResult : Type 0 where
  pub succeeds : Bool
  pub head_number : ℕ
  pub head_time : ℕ
  pub month_ago : ℕ

-- A stored limit replaces that of the chain; without one that of the chain is stored.
unfoldable pub fix_limit : Option ℕ → SyncFlags → SyncFlags
fix_limit none f = record f { stored_limit = some f.tx_lookup_limit }
fix_limit (some stored) f = record f { tx_lookup_limit = stored }

unfoldable pub prepare_limit : SyncMode → SyncFlags → SyncFlags
unfolding fix_limit
prepare_limit full_sync f = f
prepare_limit fast_sync f = fix_limit f.stored_limit f
prepare_limit snap_sync f = fix_limit f.stored_limit f

-- The flags that `doSync` leaves, and whether it announces the head to the peers.
unfoldable pub do_sync : ℕ → SyncOp → SyncResult → SyncFlags → SyncFlags × Bool
unfolding prepare_limit
do_sync checkpoint op r f =
    let f' = prepare_limit op.mode f in
    let passed = leb checkpoint r.head_number && leb r.month_ago r.head_time in
    if r.succeeds
    then (
      record f' { fast_sync = false; snap_sync = false; accept_txs = f'.accept_txs || passed },
      ltb 0 r.head_number,
    )
    else (f', false)
