-- ===== src/Eth/Handler/Witnesses.antt =====
-- eth/handler.go: the theorems on a new handler, on the admission of a peer and on the broadcasts.
use ecgeth.Base.{
  ℕ, zero, suc, ◌+◌, ◌≡◌, ◌≢◌, subst, ℕ_discrete, ◌⊎◌, refl, ltb, ◌==◌, not, ◌&&◌, Bool, true,
  false, none, some, List, [], ◌∷◌, Hash, if◌then◌else◌, arith,
}
use ecgeth.Connector.Batcher.Example.{node, snapshot}
use ecgeth.Eth.Sync.{snap_sync}
use ecgeth.Eth.Sync.Loop.{Inserted, SyncLoop, SyncStep, here, start_sync}
use ecgeth.Eth.Sync.Loop.Safe.{IsConsistent}
use ecgeth.Eth.Peer.Example.{lists, lists-SetLaws}
use ecgeth.Eth.Handler.{HandlerConfig, Handler, new_handler, inserter}
use ecgeth.Eth.Handler.Start.{Refuses, Imports, new_handler-IsConsistent, inserter-SyncStep}
use ecgeth.Eth.Handler.Admit.{Meeting, run_eth_peer}
use ecgeth.Eth.Handler.Admit.Monitor.{IsClean, run_eth_peer-IsClean}
use ecgeth.Eth.Handler.Cast.{
  Peers, Surroundings, propagated_td, mined_broadcast, broadcast_transactions,
}
use ecgeth.Eth.Handler.Cast.Listing.{count}
use ecgeth.Eth.Handler.Cast.Mined.{Lists, Told, mined_broadcast-Told}
use ecgeth.Eth.Handler.Cast.Transactions.{ListsLacking, broadcast_transactions-due}

abbrev config : HandlerConfig
config = record {
  sync = snap_sync;
  checkpoint =
      some (record { section_index = 1; section_head = 77; cht_root = 78; bloom_root = 79 });
  current_number = 0;
  fast_number = 0;
  tx_lookup_limit = 100;
  stored_limit = none;
}

abbrev begun : Handler
begun = new_handler 32768 config

new_handler-IsConsistent_example : IsConsistent (start_sync begun.flags)
new_handler-IsConsistent_example =
    new_handler-IsConsistent 32768 25 config (start_sync begun.flags) here

abbrev waiting : SyncLoop
waiting = start_sync (record begun.flags { fast_sync = false; snap_sync = false })

abbrev answer : Inserted
answer = record { count = 3; succeeds = true }

inserter-SyncStep_example :
    (Refuses 5 8 answer waiting.flags × ((inserter 5 8 answer waiting.flags).1 ≡ waiting.flags))
    ⊎ (Imports 5 8 answer waiting.flags
        × ((inserter 5 8 answer waiting.flags).0 ≡ answer)
        × ((inserter 5 8 answer waiting.flags).1.accept_txs ≡ true)
        × SyncStep 25 5 waiting (record waiting { flags = (inserter 5 8 answer waiting.flags).1 }))
inserter-SyncStep_example = inserter-SyncStep 25 5 8 answer waiting

abbrev meeting : Meeting
meeting = record {
  snap_waited = true;
  has_snap = false;
  is_open = true;
  shakes_hands = true;
  is_trusted = false;
  peers_len = 11;
  snap_len = 3;
  max_peers = 25;
  registers = true;
  is_found = true;
  downloader_takes = true;
  snap_syncer_takes = false;
  requests = λ n. ltb 9 n;
  whitelist = 12 ∷ 7 ∷ [];
  handler_succeeds = true;
}

run_eth_peer-IsClean_example : IsClean meeting begun (run_eth_peer meeting begun)
run_eth_peer-IsClean_example = run_eth_peer-IsClean meeting begun

-- The peers below a number are registered.
abbrev lacking_below : ℕ → Hash → Peers ℕ (List Hash) → List ℕ
lacking_below zero h ps = []
lacking_below (suc n) h ps =
    let rest = lacking_below n h ps in
    if not (lists.contains h (ps n).known_blocks) then n ∷ rest else rest

at_last :
    (known : Bool) (n : ℕ) (rest : List ℕ)
    → count n rest ≡ (if ltb n n && not known then 1 else 0)
    → count n (if not known then n ∷ rest else rest) ≡ (if ltb n (suc n) && not known then 1 else 0)
at_last true n rest e = ground arith
at_last false n rest e = ground arith

below_last :
    (known lacked : Bool) (n i : ℕ) (rest : List ℕ)
    → n ≢ i
    → count i rest ≡ (if ltb i n && lacked then 1 else 0)
    → count i (if not known then n ∷ rest else rest) ≡ (if ltb i (suc n) && lacked then 1 else 0)
below_last true lacked n i rest other e = ground arith
below_last false lacked n i rest other e = ground arith

lacking_below-count :
    (n : ℕ) (h : Hash) (ps : Peers ℕ (List Hash)) (i : ℕ)
    → count i (lacking_below n h ps)
      ≡ (if ltb i n && not (lists.contains h (ps i).known_blocks) then 1 else 0)
lacking_below-count zero h ps i = ground arith
lacking_below-count (suc n) h ps i = elim (ℕ_discrete n i) [
  | yes same ↦
      subst
        (λ j.
          count j (lacking_below (suc n) h ps)
          ≡ (if ltb j (suc n) && not (lists.contains h (ps j).known_blocks) then 1 else 0))
        same
        (at_last (lists.contains h (ps n).known_blocks) n (lacking_below n h ps)
          (lacking_below-count n h ps n))
  | no other ↦
      below_last (lists.contains h (ps n).known_blocks) (not (lists.contains h (ps i).known_blocks))
        n i (lacking_below n h ps) other (lacking_below-count n h ps i)
]

-- The chain has every parent, with difficulty 40, and every block; the root of any number is 1.
abbrev env : Surroundings ℕ (List Hash)
env = record {
  peers_without_block = lacking_below 3;
  peers_without_transaction = λ h. if h == 3 then 1 ∷ 0 ∷ [] else [];
  td_of = λ h n. some 40;
  has_block = λ h n. true;
  sqrt = λ n. 1;
}

env-Lists : Lists node.hashing lists env
env-Lists = record { registered = λ i. ltb i 3; listed = lacking_below-count 3 }

abbrev peers : Peers ℕ (List Hash)
peers i = record { known_blocks = []; queued_blocks = []; queued_block_anns = [] }

mined_broadcast-Told_example :
    Told node.hashing lists env lists-SetLaws snapshot env-Lists peers 41 2
      (mined_broadcast node.hashing lists env snapshot peers 2)
unfolding propagated_td
mined_broadcast-Told_example =
    mined_broadcast-Told node.hashing lists env lists-SetLaws snapshot env-Lists 41 peers 2 refl
      refl

env-ListsLacking : ListsLacking node.hashing lists env
env-ListsLacking = record { lacking = λ h i. h == 3 && ltb i 2; listed = λ h i. ground arith }

broadcast_transactions-due_example :
    count 3 ((broadcast_transactions node.hashing lists env (3 ∷ 4 ∷ [])).0 1)
      + count 3 ((broadcast_transactions node.hashing lists env (3 ∷ 4 ∷ [])).1 1)
    ≡ 1
unfolding env-ListsLacking
broadcast_transactions-due_example =
    broadcast_transactions-due node.hashing lists env env-ListsLacking 3 1 (3 ∷ 4 ∷ [])
