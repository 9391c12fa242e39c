-- ===== src/Eth/Handler/Cast/Mined.antt =====
-- eth/handler.go: the broadcast of a mined block, peer by peer.
use ecgeth.Base.{
  ℕ, ◌+◌, ◌<◌, ◌≡◌, ◌⊎◌, refl, ap, ◌∙◌, choose, ltb, ltb→lt, not, ◌&&◌, Bool, true, false, some,
  Hash, take, drop, length, if◌then◌else◌, arith, Bool-cases, inl, inr,
}
use ecgeth.Types.Block.{Hashing, Block, block_hash, number_u64}
use ecgeth.Eth.Peer.{
  MapSet, SetLaws, Peer, max_queued_blocks, max_queued_block_anns, mark_block, mark_one,
  async_send_new_block, async_send_new_block_hash,
}
use ecgeth.Eth.Handler.Cast.{
  Peers, Surroundings, propagated_td, send_to, broadcast_block, mined_broadcast,
}
use ecgeth.Eth.Handler.Cast.Listing.{count, count-split, repeat, for_peers-count}

count-small : (m n : ℕ) → m + n ≡ 1 → (m ≡ 0) ⊎ (m ≡ 1)
count-small m n e = omega (arith, e)

count-none : (m n : ℕ) → m + n ≡ 0 → m ≡ 0
count-none m n e = omega (arith, e)

repeat_if :
    {Tx S : Type 0} (f : Peer Tx S → Peer Tx S) (c : Bool) (p : Peer Tx S)
    → repeat f (if c then 1 else 0) p ≡ (if c then f p else p)
repeat_if f true p = refl
repeat_if f false p = refl

not_lacking :
    {A : Type 0} (registered known : Bool) (x y : A)
    → known ≡ true
    → (if registered && not known then x else y) ≡ y
not_lacking true true x y e = refl
not_lacking true false x y e = absurd (cc e)
not_lacking false known x y e = refl

knew : (a b : Bool) → (a && not b) ≡ false → a ≡ true → b ≡ true
knew true true e r = refl
knew true false e r = absurd (cc e)
knew false b e r = absurd (cc r)

module _ {Tx Receipt S : Type 0} (k : Hashing Tx Receipt) (set : MapSet S)
    (env : Surroundings Tx S) where
  abbrev pub knows : Hash → Peer Tx S → Bool
  knows h p = set.contains h p.known_blocks

  abbrev pub lacks : (ℕ → Bool) → Hash → Peers Tx S → ℕ → Bool
  lacks registered h ps i = registered i && not (knows h (ps i))

  -- What the peer set documents of `peersWithoutBlock`: it lists each registered peer that does not
  -- know the block, once, and no other.
  pub record Lists : Type 0 where
    pub registered : ℕ → Bool
    pub listed :
        (h : Hash) (ps : Peers Tx S) (i : ℕ)
        → count i (env.peers_without_block h ps) ≡ (if lacks registered h ps i then 1 else 0)

  module _ (laws : SetLaws set) (b : Block Tx) where
    hash : Hash
    hash = (block_hash k b).0

    -- A queue takes the block, and the peer counts as one that knows it, or nothing happens.
    send-cases :
        (td : ℕ) (p : Peer Tx S)
        → ((length p.queued_blocks < max_queued_blocks)
            × (knows hash (async_send_new_block k set b td p) ≡ true))
          ⊎ (async_send_new_block k set b td p ≡ p)
    unfolding async_send_new_block mark_block mark_one hash
    send-cases td p =
        choose
          (λ q. ((length p.queued_blocks < max_queued_blocks) × (knows hash q ≡ true)) ⊎ (q ≡ p))
          (ltb (length p.queued_blocks) max_queued_blocks) _ _
          (λ room. inl (ltb→lt _ _ room, laws.contains_added hash _)) (λ full. inr refl)

    announce-knows :
        (p : Peer Tx S)
        → length p.queued_block_anns < max_queued_block_anns
        → knows hash (async_send_new_block_hash k set b p) ≡ true
    unfolding async_send_new_block_hash mark_block mark_one hash
    announce-knows p room =
        choose (λ q. knows hash q ≡ true) (ltb (length p.queued_block_anns) max_queued_block_anns) _
          _ (λ fits. laws.contains_added hash _) (λ full. absurd (ground arith))

    module _ (lists : Lists) where
      first_round :
          (td : ℕ) (ps : Peers Tx S) (i : ℕ)
          → propagated_td k set env b ≡ some td
          → (broadcast_block k set env b true ps i ≡ ps i)
            ⊎ ((lacks lists.registered hash ps i ≡ true)
                × (broadcast_block k set env b true ps i ≡ async_send_new_block k set b td (ps i)))
      unfolding broadcast_block hash
      first_round td ps i known_td =
          let all = env.peers_without_block hash ps in
          let chosen = take (env.sqrt (length all)) all in
          let send = async_send_new_block k set b td in
          let loop =
            ap (λ t. send_to k set env t b chosen ps i) known_td
            ∙ for_peers-count send chosen ps i in
          let split = count-split i (env.sqrt (length all)) all in
          elim (Bool-cases (lacks lists.registered hash ps i)) [
            | inl lacking ↦
                elim (count-small (count i chosen) (count i (drop (env.sqrt (length all)) all))
                  (split ∙ lists.listed hash ps i ∙ rw lacking refl)) [
                    | inl none_of ↦ inl (loop ∙ ap (λ n. repeat send n (ps i)) none_of)
                    | inr one_of ↦ inr (lacking, loop ∙ ap (λ n. repeat send n (ps i)) one_of)
                  ]
            | inr other ↦ inl (
                loop
                ∙ ap (λ n. repeat send n (ps i))
                    (count-none (count i chosen) _
                      (split ∙ lists.listed hash ps i ∙ rw other refl)))
          ]

      second_round :
          (ps : Peers Tx S) (i : ℕ)
          → env.has_block hash (number_u64 b) ≡ true
          → broadcast_block k set env b false ps i ≡ (
              if lacks lists.registered hash ps i
              then async_send_new_block_hash k set b (ps i)
              else ps i)
      unfolding broadcast_block hash
      second_round ps i stored =
          let ann = async_send_new_block_hash k set b in
          let all = env.peers_without_block hash ps in
          rw stored (
            for_peers-count ann all ps i
            ∙ ap (λ n. repeat ann n (ps i)) (lists.listed hash ps i)
            ∙ repeat_if ann (lacks lists.registered hash ps i) (ps i))

      -- What has become of a peer: nothing, if it is not registered or knew the block; else the block is
      -- in its queue, or it has been sent the announcement. It knows the block if there was room for one.
      pub record Told (ps : Peers Tx S) (td i : ℕ) (q : Peer Tx S) : Type 0 where
        pub unconcerned : lacks lists.registered (block_hash k b).0 ps i ≡ false → q ≡ ps i
        pub reached :
            lacks lists.registered (block_hash k b).0 ps i ≡ true
            → ((length (ps i).queued_blocks < max_queued_blocks)
                × (q ≡ async_send_new_block k set b td (ps i)))
              ⊎ (q ≡ async_send_new_block_hash k set b (ps i))
        pub informed :
            lists.registered i ≡ true
            → length (ps i).queued_block_anns < max_queued_block_anns
            → knows (block_hash k b).0 q ≡ true

      Told-nothing :
          (ps : Peers Tx S) (td i : ℕ) (q : Peer Tx S)
          → lacks lists.registered hash ps i ≡ false
          → q ≡ ps i
          → Told ps td i q
      unfolding hash
      Told-nothing ps td i q other same = record {
        unconcerned = λ e. same;
        reached = λ e. absurd (cc (e, other));
        informed = λ reg room. ap (knows hash) same ∙ knew (lists.registered i) _ other reg;
      }

      Told-announced :
          (ps : Peers Tx S) (td i : ℕ) (q : Peer Tx S)
          → lacks lists.registered hash ps i ≡ true
          → q ≡ async_send_new_block_hash k set b (ps i)
          → Told ps td i q
      unfolding hash
      Told-announced ps td i q lacking e = record {
        unconcerned = λ other. absurd (cc (lacking, other));
        reached = λ l. inr e;
        informed = λ reg room. ap (knows hash) e ∙ announce-knows (ps i) room;
      }

      Told-sent :
          (ps : Peers Tx S) (td i : ℕ) (q : Peer Tx S)
          → lacks lists.registered hash ps i ≡ true
          → length (ps i).queued_blocks < max_queued_blocks
          → knows hash (async_send_new_block k set b td (ps i)) ≡ true
          → q ≡ async_send_new_block k set b td (ps i)
          → Told ps td i q
      unfolding hash
      Told-sent ps td i q lacking room known e = record {
        unconcerned = λ other. absurd (cc (lacking, other));
        reached = λ l. inl (room, e);
        informed = λ reg anns. ap (knows hash) e ∙ known;
      }

      -- What the second round makes of a peer.
      abbrev after : ℕ → Peer Tx S → Peer Tx S
      after i p =
          if lists.registered i && not (knows (block_hash k b).0 p)
          then async_send_new_block_hash k set b p
          else p

      after_known : (i : ℕ) (p : Peer Tx S) → knows hash p ≡ true → after i p ≡ p
      unfolding hash
      after_known i p known = not_lacking (lists.registered i) (knows hash p) _ p known

      Told-after :
          (ps : Peers Tx S) (td i : ℕ) (q : Peer Tx S) → q ≡ after i (ps i) → Told ps td i q
      unfolding hash
      Told-after ps td i q e = elim (Bool-cases (lacks lists.registered hash ps i)) [
        | inl lacking ↦ Told-announced ps td i q lacking (e ∙ rw lacking refl)
        | inr other ↦ Told-nothing ps td i q other (e ∙ rw other refl)
      ]

      -- The broadcast of a mined block, whose parent the chain has, and which it has itself by the time
      -- of the announcement, sends each registered peer that lacked the block either the block or, if
      -- that was not sent or its queue was full, the announcement, and not both. It leaves all other
      -- peers as they were; and each registered peer that has room for an announcement is left as one
      -- that knows the block. How many peers the square root selects makes no difference to that.
      pub mined_broadcast-Told :
          (td : ℕ) (ps : Peers Tx S) (i : ℕ)
          → propagated_td k set env b ≡ some td
          → env.has_block (block_hash k b).0 (number_u64 b) ≡ true
          → Told ps td i (mined_broadcast k set env b ps i)
      unfolding mined_broadcast hash
      mined_broadcast-Told td ps i known_td stored =
          let qs = broadcast_block k set env b true ps in
          let second = second_round qs i stored in
          elim (first_round td ps i known_td) [
            | inl same ↦ Told-after ps td i _ (second ∙ ap (after i) same)
            | inr (lacking, sent) ↦ elim (send-cases td (ps i)) [
              | inl (room, known) ↦
                  Told-sent ps td i _ lacking room known
                    (second ∙ ap (after i) sent ∙ after_known i _ known)
              | inr full ↦ Told-after ps td i _ (second ∙ ap (after i) (sent ∙ full))
            ]
          ]
