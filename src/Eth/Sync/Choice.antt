-- ===== src/Eth/Sync/Choice.antt =====
-- eth/sync.go: when a sync is started, and what it leaves.
use ecgeth.Base.{
  ℕ, ◌+◌, ◌≡◌, ◌≤◌, ◌<◌, ◌↔◌, refl, sym, Bool, true, false, Option, none, some, leb, ltb, arith, ap,
  ◌-◌, ltb→lt, not_ltb→le, Bool-cases, inl, inr,
}
use ecgeth.Eth.Sync.{
  SyncMode, PeerHead, SyncOp, SyncView, SyncFlags, min_peers, mode_and_local_head, with_snap,
  peer_to_sync_op, op_behind, op_with, next_sync_op,
}

-- A sync with the peer `p` is due, and `op` is that sync.
pub record IsDue (running forced : Bool) (max_peers : ℕ) (f : SyncFlags) (v : SyncView)
    (op : SyncOp) : Type 0 where
  pub peer : PeerHead
  pub idle : running ≡ false
  pub enough : min_peers forced max_peers ≤ v.peers_len
  pub best : v.peer_with_highest_td ≡ some peer
  pub ahead : (mode_and_local_head f v).1 + 1 < peer.td
  pub chosen : op ≡ peer_to_sync_op (with_snap (mode_and_local_head f v).0 f.snap_sync) peer

op_behind_iff :
    (l : SyncMode × ℕ) (snap : Bool) (p : PeerHead) (op : SyncOp)
    → (op_behind l snap p ≡ some op)
      ↔ ((l.1 + 1 < p.td) × (op ≡ peer_to_sync_op (with_snap l.0 snap) p))
unfolding op_behind peer_to_sync_op
op_behind_iff (mode, our) snap p op = elim (Bool-cases (leb (p.td - 1) our)) [
  | inl level ↦ ((λ e. cc), (λ (far, e). absurd (ground arith)))
  | inr behind ↦ (
    (λ e. (
      ground arith,
      let same : some (peer_to_sync_op (with_snap mode snap) p) ≡ some op = rw behind at e in cc,
    )),
    λ (far, e). rw behind (ap (λ o. some o) (sym e)),
  )
]

op_with_iff :
    (l : SyncMode × ℕ) (snap : Bool) (best : Option PeerHead) (op : SyncOp)
    → (op_with l snap best ≡ some op) ↔ (
        (p : PeerHead) × (best ≡ some p)
        × (l.1 + 1 < p.td)
        × (op ≡ peer_to_sync_op (with_snap l.0 snap) p))
unfolding op_with
op_with_iff l snap none op = ((λ e. cc), (λ (p, e, far, same). cc))
op_with_iff l snap (some p) op =
    let split = op_behind_iff l snap p op in
    (
      (λ e. let (far, same) = split.0 e in (p, refl, far, same)),
      λ (q, e, far, same). let eq : p ≡ q = cc in split.1 (rw eq far, rw eq same),
    )

-- `nextSyncOp` asks for a sync exactly if none is running, there are enough peers, and the peer with
-- the highest total difficulty is ahead by more than one; the sync is then with this peer, in the
-- mode of the node, and via the snap protocol where that is on.
pub next_sync_op_iff :
    (running forced : Bool) (max_peers : ℕ) (f : SyncFlags) (v : SyncView) (op : SyncOp)
    → (next_sync_op running forced max_peers f v ≡ some op) ↔ IsDue running forced max_peers f v op
unfolding next_sync_op
next_sync_op_iff true forced max_peers f v op = ((λ e. cc), (λ d. cc))
next_sync_op_iff false forced max_peers f v op =
    let split = op_with_iff (mode_and_local_head f v) f.snap_sync v.peer_with_highest_td op in
    elim (Bool-cases (ltb v.peers_len (min_peers forced max_peers))) [
      | inl few ↦ (
        (λ e. absurd (ground (arith, rw few at e))),
        λ d. absurd (omega (arith, ltb→lt _ _ few, d.enough)),
      )
      | inr many ↦ (
        (λ e.
            let (p, best, far, same) = split.0 (rw many at e) in
            record {
              peer = p;
              idle = refl;
              enough = not_ltb→le _ _ many;
              best = best;
              ahead = far;
              chosen = same;
            }),
        λ d. rw many (split.1 (d.peer, d.best, d.ahead, d.chosen)),
      )
    ]
