-- ===== src/Eth/Handler/Admit.antt =====
-- eth/handler.go: `runEthPeer`, as the list of what it does with a peer, `defer` included, and how it
-- ends. What the other components answer is the record `Meeting`. What the timer does when it fires is
-- left out: it calls `removePeer` too, which does nothing for a peer that is gone.
pub mod Monitor
use ecgeth.Base.{
  ℕ, ◌+◌, ◌==◌, ltb, leb, Bool, true, false, not, ◌&&◌, ◌||◌, List, [], ◌∷◌, ◌++◌, if◌then◌else◌,
}
use ecgeth.Eth.Handler.{Handler}

-- The whitelist is given by its numbers, in the order of the loop over the map.
pub record Meeting : Type 0 where
  pub snap_waited : Bool
  pub has_snap : Bool
  pub is_open : Bool
  pub shakes_hands : Bool
  pub is_trusted : Bool
  pub peers_len : ℕ
  pub snap_len : ℕ
  pub max_peers : ℕ
  pub registers : Bool
  pub is_found : Bool
  pub downloader_takes : Bool
  pub snap_syncer_takes : Bool
  pub requests : ℕ → Bool
  pub whitelist : List ℕ
  pub handler_succeeds : Bool

-- The calls: of `waitSnapExtension`, of `handlePeerEvent` of the syncer, which is called twice, of
-- `Handshake`, and those that follow.
pub data PeerAction : Type 0 where
  waited_snap shook_hands : PeerAction
  registered registered_downloader registered_snap told_syncer synced_transactions : PeerAction
  requested : ℕ → PeerAction
  armed_drop handled stopped_drop removed : PeerAction

pub data RunEnd : Type 0 where
  disc_quitting disc_too_many_peers failed ended : RunEnd

abbrev pub Trace : Type 0
Trace = List PeerAction × RunEnd

abbrev pub before : PeerAction → Trace → Trace
before a t = (a ∷ t.0, t.1)

-- An action that stands under `defer`.
abbrev pub finally : PeerAction → Trace → Trace
finally a t = (t.0 ++ (a ∷ []), t.1)

module _ (m : Meeting) where
  -- `snp+5 < all-snp` on signed numbers
  unfoldable pub is_reserved : Bool → Bool
  is_reserved snap_sync =
      snap_sync && not m.has_snap && ltb (m.snap_len + 5 + m.snap_len) m.peers_len

  unfoldable pub handle : Trace
  handle = (handled ∷ [], if m.handler_succeeds then ended else failed)

  unfoldable pub request_whitelist : List ℕ → Trace
  unfolding handle
  request_whitelist [] = handle
  request_whitelist (n ∷ ns) =
      let rest = request_whitelist ns in
      if m.requests n then before (requested n) rest else ([], failed)

  unfoldable pub challenge : Handler → Trace
  unfolding request_whitelist
  challenge h =
      let rest = request_whitelist m.whitelist in
      if h.checkpoint_hash == 0
      then rest
      else if m.requests h.checkpoint_number
      then before (requested h.checkpoint_number) (before armed_drop (finally stopped_drop rest))
      else ([], failed)

  unfoldable pub after_downloader : Handler → Trace
  unfolding challenge
  after_downloader h =
      let rest = before told_syncer (before synced_transactions (challenge h)) in
      if m.has_snap
      then (if m.snap_syncer_takes then before registered_snap rest else ([], failed))
      else rest

  unfoldable pub after_registration : Handler → Trace
  unfolding after_downloader
  after_registration h =
      let rest = before registered_downloader (after_downloader h) in
      if not m.is_found then ([], failed) else if m.downloader_takes then rest else ([], failed)

  unfoldable pub run_eth_peer : Handler → Trace
  unfolding is_reserved after_registration
  run_eth_peer h =
      let rest = before registered (finally removed (after_registration h)) in
      let reject = is_reserved h.flags.snap_sync in
      let shaken : Trace =
        if not m.shakes_hands
        then ([], failed)
        else if not m.is_trusted && (reject || leb m.max_peers m.peers_len)
        then ([], disc_too_many_peers)
        else if m.registers
        then rest
        else ([], failed) in
      let told : Trace = if not m.is_open then ([], disc_quitting) else before shook_hands shaken in
      before waited_snap (if not m.snap_waited then ([], failed) else before told_syncer told)
