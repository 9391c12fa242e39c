-- ===== src/Eth/Peer/Known.antt =====
-- eth/protocols/eth/peer.go: the known hashes stay bounded, and those that were marked are known.
use ecgeth.Base.{
  ℕ, zero, suc, ◌+◌, ◌-◌, ◌≡◌, ◌≤◌, max, true, List, [], ◌∷◌, Hash, length, drop, length-append,
  All, ltb, arith, Bool-cases, inl, inr, not_ltb→le, ltb→lt, choose,
}
use ecgeth.Types.Block.{Hashing, Block, block_hash}
use ecgeth.Eth.Peer.{
  MapSet, SetLaws, evict, evict_to, add_all, mark_announced, announced_hashes, mark_all, mark_one,
  mark_block, max_known_blocks, max_queued_blocks, max_queued_block_anns, Peer, new_peer, PeerOp,
  marked, queued, announced, sent, took_block, took_ann, peer_step, after_ops, async_send_new_block,
  async_send_new_block_hash, send_new_block,
}

module _ {S : Type 0} (set : MapSet S) (laws : SetLaws set) where
  evict-le :
      (fuel bound : ℕ) (s : S)
      → set.cardinality s ≤ fuel + bound
      → set.cardinality (evict set fuel bound s) ≤ bound
  unfolding evict
  evict-le zero bound s le = omega (arith, le)
  evict-le (suc fuel) bound s le = elim (Bool-cases (ltb bound (set.cardinality s))) [
    | inl more ↦ rw more (evict-le fuel bound (set.pop s) (omega (arith, laws.pop_one s, le)))
    | inr enough ↦ rw enough (not_ltb→le _ _ enough)
  ]

  evict_to-le : (bound : ℕ) (s : S) → set.cardinality (evict_to set bound s) ≤ bound
  unfolding evict_to
  evict_to-le bound s = evict-le (set.cardinality s) bound s (omega arith)

  add_all-le :
      (hs : List Hash) (s : S) → set.cardinality (add_all set hs s) ≤ set.cardinality s + length hs
  unfolding add_all
  add_all-le [] s = omega arith
  add_all-le (h ∷ hs) s = omega (arith, add_all-le hs (set.add h s), laws.add_at_most h s)

  abbrev pub Contains : S → Hash → Type 0
  Contains s h = set.contains h s ≡ true

  add_all-keeps :
      (hs : List Hash) (j : Hash) (s : S)
      → set.contains j s ≡ true
      → set.contains j (add_all set hs s) ≡ true
  unfolding add_all
  add_all-keeps [] j s e = e
  add_all-keeps (h ∷ hs) j s e = add_all-keeps hs j (set.add h s) (laws.keeps_others h j s e)

  add_all-Contains : (hs : List Hash) (s : S) → All (λ h. Contains (add_all set hs s) h) hs
  unfolding add_all
  add_all-Contains [] s = tt
  add_all-Contains (h ∷ hs) s = (
    add_all-keeps hs h (set.add h s) (laws.contains_added h s),
    add_all-Contains hs (set.add h s),
  )

  -- After several hashes were marked, all of them are known, and the known ones are at most the limit,
  -- or as many as were marked if these are more.
  pub mark_all-Contains :
      (limit : ℕ) (hs : List Hash) (s : S)
      → All (λ h. Contains (mark_all set limit hs s) h) hs
        × (set.cardinality (mark_all set limit hs s) ≤ max limit (length hs))
  unfolding mark_all
  mark_all-Contains limit hs s =
      let start = evict_to set (limit - length hs) s in
      (
        add_all-Contains hs start,
        omega (arith, add_all-le hs start, evict_to-le (limit - length hs) s),
      )

  mark_block-le : (h : Hash) (s : S) → set.cardinality (mark_block set h s) ≤ max_known_blocks
  unfolding mark_block mark_one
  mark_block-le h s = omega (
    arith,
    laws.add_at_most h (evict_to set (max_known_blocks - 1) s),
    evict_to-le (max_known_blocks - 1) s,
  )

  module _ {Tx Receipt : Type 0} (k : Hashing Tx Receipt) where
    -- The known blocks and both queues keep their limits.
    pub record IsBounded (limit : ℕ) (p : Peer Tx S) : Type 0 where
      pub known : set.cardinality p.known_blocks ≤ limit
      pub blocks : length p.queued_blocks ≤ max_queued_blocks
      pub anns : length p.queued_block_anns ≤ max_queued_block_anns

    length-drop_one : {A : Type 0} (xs : List A) → length (drop 1 xs) ≤ length xs
    length-drop_one [] = omega arith
    length-drop_one (x ∷ xs) = omega arith

    queue-IsBounded :
        (limit : ℕ) (b : Block Tx) (td : ℕ) (p : Peer Tx S)
        → max_known_blocks ≤ limit
        → IsBounded limit p
        → IsBounded limit (async_send_new_block k set b td p)
    unfolding async_send_new_block
    queue-IsBounded limit b td p enough i =
        choose (IsBounded limit) (ltb (length p.queued_blocks) max_queued_blocks) _ _
          (λ room. record {
            known = omega (arith, mark_block-le (block_hash k b).0 p.known_blocks, enough);
            blocks = omega (arith, length-append p.queued_blocks ((b, td) ∷ []), ltb→lt _ _ room);
            anns = i.anns;
          })
          (λ full. i)

    announce-IsBounded :
        (limit : ℕ) (b : Block Tx) (p : Peer Tx S)
        → max_known_blocks ≤ limit
        → IsBounded limit p
        → IsBounded limit (async_send_new_block_hash k set b p)
    unfolding async_send_new_block_hash
    announce-IsBounded limit b p enough i =
        choose (IsBounded limit) (ltb (length p.queued_block_anns) max_queued_block_anns) _ _
          (λ room. record {
            known = omega (arith, mark_block-le (block_hash k b).0 p.known_blocks, enough);
            blocks = i.blocks;
            anns = omega (arith, length-append p.queued_block_anns (b ∷ []), ltb→lt _ _ room);
          })
          (λ full. i)

    -- How many hashes of blocks the node announces in one message.
    abbrev pub announced_at_once : PeerOp Tx → ℕ
    announced_at_once (announced_hashes hs) = length hs
    announced_at_once _ = 0

    abbrev pub known_limit : List (PeerOp Tx) → ℕ
    known_limit [] = max_known_blocks
    known_limit (op ∷ ops) = max (announced_at_once op) (known_limit ops)

    known_limit-le : (ops : List (PeerOp Tx)) → max_known_blocks ≤ known_limit ops
    known_limit-le [] = omega arith
    known_limit-le (op ∷ ops) = omega (arith, known_limit-le ops)

    IsBounded-weaken :
        {limit more : ℕ} (p : Peer Tx S) → limit ≤ more → IsBounded limit p → IsBounded more p
    IsBounded-weaken p le i = record {
      known = omega (arith, i.known, le);
      blocks = i.blocks;
      anns = i.anns;
    }

    peer_step-IsBounded :
        (limit : ℕ) (op : PeerOp Tx) (p : Peer Tx S)
        → max_known_blocks ≤ limit
        → announced_at_once op ≤ limit
        → IsBounded limit p
        → IsBounded limit (peer_step k set op p)
    unfolding peer_step send_new_block mark_announced
    peer_step-IsBounded limit (marked h) p enough most i = record {
      known = omega (arith, mark_block-le h p.known_blocks, enough);
      blocks = i.blocks;
      anns = i.anns;
    }
    peer_step-IsBounded limit (announced_hashes hs) p enough most i = record {
      known = omega (arith, (mark_all-Contains max_known_blocks hs p.known_blocks).1, enough, most);
      blocks = i.blocks;
      anns = i.anns;
    }
    peer_step-IsBounded limit (queued b td) p enough most i = queue-IsBounded limit b td p enough i
    peer_step-IsBounded limit (announced b) p enough most i = announce-IsBounded limit b p enough i
    peer_step-IsBounded limit (sent b) p enough most i = record {
      known = omega (arith, mark_block-le (block_hash k b).0 p.known_blocks, enough);
      blocks = i.blocks;
      anns = i.anns;
    }
    peer_step-IsBounded limit took_block p enough most i = record {
      known = i.known;
      blocks = omega (arith, length-drop_one p.queued_blocks, i.blocks);
      anns = i.anns;
    }
    peer_step-IsBounded limit took_ann p enough most i = record {
      known = i.known;
      blocks = i.blocks;
      anns = omega (arith, length-drop_one p.queued_block_anns, i.anns);
    }

    -- After any operations on a new peer, its known blocks are at most 1024, or as many as the node
    -- has announced in one message if these were more, and each of its queues of blocks holds at
    -- most 10.
    pub after_ops-IsBounded :
        (ops : List (PeerOp Tx)) → IsBounded (known_limit ops) (after_ops k set ops)
    unfolding after_ops new_peer
    after_ops-IsBounded [] = record {
      known = omega (arith, laws.empty_cardinality);
      blocks = omega arith;
      anns = omega arith;
    }
    after_ops-IsBounded (op ∷ ops) =
        let before = after_ops k set ops in
        peer_step-IsBounded (known_limit (op ∷ ops)) op before (known_limit-le (op ∷ ops))
          (omega arith) (IsBounded-weaken before (omega arith) (after_ops-IsBounded ops))
