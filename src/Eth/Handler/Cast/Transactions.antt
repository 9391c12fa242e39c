-- ===== src/Eth/Handler/Cast/Transactions.antt =====
-- eth/handler.go: the broadcast of transactions, counted for each peer.
use ecgeth.Base.{
  ℕ, suc, ◌+◌, ◌≡◌, refl, ap, ◌∙◌, ◌==◌, ==_iff, Bool, true, false, List, [], ◌∷◌, ◌++◌, map, Hash,
  take, drop, length, if◌then◌else◌, arith, Bool-cases, inl, inr,
}
use ecgeth.Types.Block.{Hashing}
use ecgeth.Eth.Peer.{MapSet}
use ecgeth.Eth.Handler.Cast.{
  Surroundings, Packs, add_hash, sort_transactions, broadcast_transactions,
}
use ecgeth.Eth.Handler.Cast.Listing.{count, count-append, count-split}

one_more :
    (same lack : Bool) (a b n : ℕ)
    → (same ≡ true → a + b ≡ (if lack then 1 else 0))
    → (if same then a else 0) + (if same then b else 0) + (if lack then n else 0)
      ≡ (if lack then (if same then suc n else n) else 0)
one_more true true a b n e = omega (arith, e refl)
one_more true false a b n e = omega (arith, e refl)
one_more false true a b n e = omega arith
one_more false false a b n e = omega arith

module _ {Tx Receipt S : Type 0} (k : Hashing Tx Receipt) (set : MapSet S)
    (env : Surroundings Tx S) where
  -- What the peer set documents of `peersWithoutTransaction`: a peer that lacks the transaction is
  -- listed once, and no other is.
  pub record ListsLacking : Type 0 where
    pub lacking : Hash → ℕ → Bool
    pub listed :
        (h : Hash) (i : ℕ)
        → count i (env.peers_without_transaction h) ≡ (if lacking h i then 1 else 0)

  abbrev if_same : Hash → Hash → ℕ → ℕ
  if_same g h n = if g == h then n else 0

  count-add_hash :
      (g h i : ℕ) (is : List ℕ) (packs : Packs k set env)
      → count h (add_hash k set env g is packs i) ≡ count h (packs i) + if_same g h (count i is)
  count-add_hash g h i [] packs = ground arith
  count-add_hash g h i (j ∷ is) packs =
      rw (count-add_hash g h i is (λ j'. if j == j' then packs j' ++ (g ∷ []) else packs j'))
        (elim (Bool-cases (j == i)) [
          | inl hit ↦ rw (hit, count-append h (packs i) (g ∷ [])) (ground arith)
          | inr miss ↦ rw miss refl
        ])

  -- What both kinds of packs hold of a hash for a peer.
  abbrev both : Hash → ℕ → Packs k set env × Packs k set env → ℕ
  both h i packs = count h (packs.0 i) + count h (packs.1 i)

  module _ (peers : ListsLacking) where
    abbrev due : Hash → ℕ → List Tx → ℕ
    due h i txs = if peers.lacking h i then count h (map k.transaction_hash txs) else 0

    lists_same :
        (g h i direct : ℕ)
        → (g == h) ≡ true
        → count i (take direct (env.peers_without_transaction g))
            + count i (drop direct (env.peers_without_transaction g))
          ≡ (if peers.lacking h i then 1 else 0)
    lists_same g h i direct same =
        count-split i direct (env.peers_without_transaction g)
        ∙ peers.listed g i
        ∙ ap (λ x. if peers.lacking x i then 1 else 0) ((==_iff g h).0 same)

    sort_transactions-due :
        (h i : ℕ) (txs : List Tx) (txset annos : Packs k set env)
        → both h i (sort_transactions k set env txs txset annos)
          ≡ both h i (txset, annos) + due h i txs
    unfolding sort_transactions
    sort_transactions-due h i [] txset annos = ground arith
    sort_transactions-due h i (tx ∷ txs) txset annos =
        let g = k.transaction_hash tx in
        let all = env.peers_without_transaction g in
        let direct = env.sqrt (length all) in
        let one =
          one_more (g == h) (peers.lacking h i) (count i (take direct all))
            (count i (drop direct all)) (count h (map k.transaction_hash txs))
            (lists_same g h i direct) in
        sort_transactions-due h i txs (add_hash k set env g (take direct all) txset)
          (add_hash k set env g (drop direct all) annos)
        ∙ omega (
          arith,
          one,
          count-add_hash g h i (take direct all) txset,
          count-add_hash g h i (drop direct all) annos,
        )

    -- `BroadcastTransactions` packs for each peer that lacks a transaction its hash exactly once for
    -- each time that it is in the batch, either to be sent or to be announced; for a peer that has it,
    -- not at all. How many peers the square root selects makes no difference to that.
    pub broadcast_transactions-due :
        (h i : ℕ) (txs : List Tx)
        → count h ((broadcast_transactions k set env txs).0 i)
            + count h ((broadcast_transactions k set env txs).1 i)
          ≡ (if peers.lacking h i then count h (map k.transaction_hash txs) else 0)
    unfolding broadcast_transactions
    broadcast_transactions-due h i txs =
        sort_transactions-due h i txs (λ j. []) (λ j. []) ∙ omega arith
