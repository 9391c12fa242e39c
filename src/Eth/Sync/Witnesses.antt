-- ===== src/Eth/Sync/Witnesses.antt =====
-- eth/sync.go: the theorems on the loop, at a concrete run.
use ecgeth.Base.{◌≡◌, ◌↔◌, refl, true, false, none, some}
use ecgeth.Eth.Sync.{snap_sync, SyncOp, SyncView, SyncFlags, SyncResult, next_sync_op, do_sync}
use ecgeth.Eth.Sync.Choice.{IsDue, next_sync_op_iff}
use ecgeth.Eth.Sync.Loop.{SyncLoop, SyncReach, here, next, starts, synced, start_sync, at_select}
use ecgeth.Eth.Sync.Loop.Safe.{Passed, SyncReach-Passed}

-- A node of a fast sync via the snap protocol, with five peers of which one is ahead.
abbrev flags : SyncFlags
flags = record {
  fast_sync = true;
  snap_sync = true;
  accept_txs = false;
  tx_lookup_limit = 100;
  stored_limit = none;
}

abbrev view : SyncView
view = record {
  peers_len = 5;
  peer_with_highest_td = some (record { id = "a"; head = 77; td = 12 });
  last_pivot = none;
  current_number = 0;
  current_td = 1;
  fast_td = 1;
}

abbrev op : SyncOp
op = record { mode = snap_sync; peer = "a"; td = 12; head = 77 }

abbrev result : SyncResult
result = record { succeeds = true; head_number = 11; head_time = 2000; month_ago = 1500 }

is_chosen : next_sync_op false false 25 flags view ≡ some op
unfolding next_sync_op
is_chosen = refl

next_sync_op_iff_example :
    (next_sync_op false false 25 flags view ≡ some op) ↔ IsDue false false 25 flags view op
next_sync_op_iff_example = next_sync_op_iff false false 25 flags view op

abbrev syncing : SyncLoop
syncing = record { at = at_select; forced = false; sync = some op; finished = false; flags = flags }

abbrev done : SyncLoop
done = record syncing { finished = true; flags = (do_sync 10 op result flags).0 }

abbrev run : SyncReach 25 10 (start_sync flags) done
run = next (next here (starts view op refl is_chosen refl)) (synced op result refl refl refl)

accepts_now : (do_sync 10 op result flags).0.accept_txs ≡ true
unfolding do_sync
accepts_now = refl

SyncReach-Passed_example : Passed run
SyncReach-Passed_example = SyncReach-Passed run refl accepts_now
