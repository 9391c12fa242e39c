-- ===== src/Eth/Handler/Admit/Monitor.antt =====
-- eth/handler.go: a monitor of what `runEthPeer` does with a peer.
use ecgeth.Base.{
  Bool, ℕ, ◌+◌, ◌≡◌, ◌⊎◌, ◌<◌, ◌≤◌, refl, choose, leb, ◌==◌, true, false, not, ◌&&◌, ◌||◌, List, [],
  ◌∷◌, ◌++◌, Option, none, some, arith, inl, inr,
}
use ecgeth.Eth.Handler.{Handler}
use ecgeth.Eth.Handler.Admit.{
  Meeting, PeerAction, waited_snap, shook_hands, told_syncer, registered, registered_downloader,
  armed_drop, stopped_drop, removed, Trace, before, finally, is_reserved, handle, request_whitelist,
  challenge, after_downloader, after_registration, run_eth_peer,
}

-- Where the node stands with a peer. The timer runs from `armed_drop` to `stopped_drop`.
pub data Standing : Type 0 where
  outside waiting expected shaken inside inside_timed gone : Standing

-- What may be done with a peer, and where that leads: first the wait for its extension, the word to
-- the syncer and the handshake, in this order; all else happens only between registration and removal,
-- and a timer is stopped before the removal.
abbrev pub act : Standing → PeerAction → Option Standing
act outside waited_snap = some waiting
act outside _ = none
act waiting told_syncer = some expected
act waiting _ = none
act expected shook_hands = some shaken
act expected _ = none
act shaken registered = some inside
act shaken _ = none
act inside registered = none
act inside waited_snap = none
act inside shook_hands = none
act inside armed_drop = some inside_timed
act inside stopped_drop = none
act inside removed = some gone
act inside _ = some inside
act inside_timed stopped_drop = some inside
act inside_timed registered = none
act inside_timed waited_snap = none
act inside_timed shook_hands = none
act inside_timed armed_drop = none
act inside_timed removed = none
act inside_timed _ = some inside_timed
act gone _ = none

abbrev pub act_from : Option Standing → PeerAction → Option Standing
act_from none a = none
act_from (some s) a = act s a

abbrev pub acts : Option Standing → List PeerAction → Option Standing
acts s [] = s
acts s (a ∷ more) = acts (act_from s a) more

acts-append :
    (s : Option Standing) (xs ys : List PeerAction) → acts s (xs ++ ys) ≡ acts (acts s xs) ys
acts-append s [] ys = refl
acts-append s (x ∷ xs) ys = acts-append (act_from s x) xs ys

differs : (b : Bool) → b ≡ true → not b ≡ true → ⊥
differs true e n = cc n
differs false e n = cc e

is_true : (b : Bool) → not b ≡ false → b ≡ true
is_true true e = refl
is_true false e = absurd (cc e)

-- A part of the run that starts and ends at the same standing.
Stays : Standing → Trace → Type 0
Stays s t = acts (some s) t.0 ≡ some s

finally-acts :
    (s u : Standing) (a : PeerAction) (t : Trace)
    → Stays s t
    → act s a ≡ some u
    → acts (some s) (finally a t).0 ≡ some u
unfolding Stays
finally-acts s u a t stays e = rw (acts-append (some s) t.0 (a ∷ []), stays) e

module _ (m : Meeting) where
  request_whitelist-Stays :
      (ns : List ℕ)
      → Stays inside (request_whitelist m ns) × Stays inside_timed (request_whitelist m ns)
  unfolding request_whitelist handle Stays
  request_whitelist-Stays [] = (refl, refl)
  request_whitelist-Stays (n ∷ ns) =
      let more = request_whitelist-Stays ns in
      (
        choose (Stays inside) (m.requests n) _ _ (λ asked. more.0) (λ silent. refl),
        choose (Stays inside_timed) (m.requests n) _ _ (λ asked. more.1) (λ silent. refl),
      )

  challenge-Stays : (h : Handler) → Stays inside (challenge m h)
  unfolding challenge Stays
  challenge-Stays h =
      let rest = request_whitelist-Stays m.whitelist in
      choose (Stays inside) (h.checkpoint_hash == 0) _ _ (λ unset. rest.0)
        (λ checked.
          choose (Stays inside) (m.requests h.checkpoint_number) _ _
            (λ asked.
              finally-acts inside_timed inside stopped_drop (request_whitelist m m.whitelist) rest.1
                refl)
            (λ silent. refl))

  after_registration-Stays : (h : Handler) → Stays inside (after_registration m h)
  unfolding after_registration after_downloader Stays
  after_registration-Stays h =
      let rest = challenge-Stays h in
      choose (Stays inside) (not m.is_found) _ _ (λ lost. refl)
        (λ found.
          choose (Stays inside) m.downloader_takes _ _
            (λ taken.
              choose (λ t. Stays inside (before registered_downloader t)) m.has_snap _ _
                (λ snap.
                  choose (λ t. Stays inside (before registered_downloader t)) m.snap_syncer_takes _
                    _ (λ yes_snap. rest) (λ no_snap. refl))
                (λ plain. rest))
            (λ banned. refl))

  -- There is room for the peer: it is trusted, or the peers are fewer than the limit, and, while a snap
  -- sync is on and it has no snap protocol itself, those without are at most five more than the others.
  pub record HasRoom (h : Handler) : Type 0 where
    pub limit : m.is_trusted ≡ false → m.peers_len < m.max_peers
    pub reserve :
        m.is_trusted ≡ false
        → h.flags.snap_sync ≡ true
        → m.has_snap ≡ false
        → m.peers_len ≤ m.snap_len + (m.snap_len + 5)

  has_room :
      (h : Handler)
      → (not m.is_trusted && (is_reserved m h.flags.snap_sync || leb m.max_peers m.peers_len))
        ≡ false
      → HasRoom h
  unfolding is_reserved
  has_room h e = record { limit = λ t. ground arith; reserve = λ t s n. ground arith }

  no_room :
      (h : Handler)
      → (not m.is_trusted && (is_reserved m h.flags.snap_sync || leb m.max_peers m.peers_len))
        ≡ true
      → HasRoom h
      → ⊥
  unfolding is_reserved
  no_room h e room = ground (arith, room.limit, room.reserve)

  -- The others answer well, and there is room.
  pub record Admits (h : Handler) : Type 0 where
    pub waited : m.snap_waited ≡ true
    pub opened : m.is_open ≡ true
    pub met : m.shakes_hands ≡ true
    pub room : HasRoom h
    pub registers : m.registers ≡ true

  -- The run came no further than to one of the three calls before the registration.
  abbrev pub IsBefore : Standing → Type 0
  IsBefore waiting = Unit
  IsBefore expected = Unit
  IsBefore shaken = Unit
  IsBefore _ = ⊥

  abbrev pub IsClean : Handler → Trace → Type 0
  IsClean h t =
      (((u : Standing) × (acts (some outside) t.0 ≡ some u) × IsBefore u) × ¬ Admits h)
      ⊎ ((acts (some outside) t.0 ≡ some gone) × Admits h)

  -- If the other components answer well and there is room, `runEthPeer` waits for the snap extension,
  -- tells the syncer, shakes hands, registers the peer once, does all else while it is registered,
  -- stops the timer of the checkpoint challenge where it was started, and removes the peer at the
  -- end, once. Else it makes some of the first three calls, in this order and at least the first, and
  -- nothing more: it neither registers the peer nor removes it.
  pub run_eth_peer-IsClean : (h : Handler) → IsClean h (run_eth_peer m h)
  unfolding run_eth_peer Stays
  run_eth_peer-IsClean h =
      let P = IsClean h in
      choose (λ t. P (before waited_snap t)) (not m.snap_waited) _ _
        (λ c. inl ((waiting, refl, tt), λ a. differs m.snap_waited a.waited c))
        (λ waited.
          choose (λ t. P (before waited_snap (before told_syncer t))) (not m.is_open) _ _
            (λ c. inl ((expected, refl, tt), λ a. differs m.is_open a.opened c))
            (λ opened.
              let Q =
                λ (t : Trace). P (before waited_snap (before told_syncer (before shook_hands t))) in
              choose Q (not m.shakes_hands) _ _
                (λ c. inl ((shaken, refl, tt), λ a. differs m.shakes_hands a.met c))
                (λ met.
                  choose Q
                    (not m.is_trusted
                      && (is_reserved m h.flags.snap_sync || leb m.max_peers m.peers_len))
                    _ _ (λ c. inl ((shaken, refl, tt), λ a. no_room h c a.room))
                    (λ room.
                      choose Q m.registers _ _
                        (λ in_set. inr (
                          finally-acts inside gone removed (after_registration m h)
                              (after_registration-Stays h) refl,
                          record {
                            waited = is_true m.snap_waited waited;
                            opened = is_true m.is_open opened;
                            met = is_true m.shakes_hands met;
                            room = has_room h room;
                            registers = in_set;
                          },
                        ))
                        (λ c. inl ((shaken, refl, tt), λ a. cc (c, a.registers)))))))
