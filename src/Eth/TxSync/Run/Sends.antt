-- ===== src/Eth/TxSync/Run/Sends.antt =====
-- eth/sync.go: what a send of `txsyncLoop64` leaves of a sync.
use ecgeth.Base.{
  ℕ, ◌+◌, ◌<◌, ◌≡◌, refl, sym, ap, subst, ltb, leb, true, Option, none, some, List, [], ◌∷◌, ◌++◌,
  Hash, drop, length, arith, Bool-cases, inl, inr,
}
use ecgeth.Base.Outcome.{Outcome, ok}
use ecgeth.Eth.TxSync.{
  TxSync, TxSyncStart, hands_over, TxSyncLoop, set_at, eth65, txsync_pack_size, left_over,
  fill_pack, sync_transactions, send,
}

module _ {Tx : Type 0} (hash_of : Tx → Hash) (size_of : Tx → ℕ) where
  abbrev pub rest_of : Option (TxSync Tx) → List Tx
  rest_of none = []
  rest_of (some x) = x.txs

  version_of : ℕ → TxSyncStart Tx → ℕ
  version_of n (hands_over x) = x.version
  version_of n _ = n

  txs_of_start : TxSyncStart Tx → List Tx
  txs_of_start (hands_over x) = x.txs
  txs_of_start _ = []

  -- What a send leads to: the pack and what is left are what was pending.
  pub record Sent (i : ℕ) (x : TxSync Tx) (l loop : TxSyncLoop Tx) : Type 0 where
    pub left : Option (TxSync Tx)
    pub pending : loop.pending ≡ set_at i left l.pending
    pub version : (y : TxSync Tx) → left ≡ some y → y.version ≡ x.version
    pub parts : loop.pack_txs ++ rest_of left ≡ x.txs
    pub busy : loop.sending ≡ true

  version_in : ℕ → Option (TxSync Tx) → ℕ
  version_in n none = n
  version_in n (some x) = x.version

  fill_pack-append :
      (size : ℕ) (txs : List Tx)
      → fill_pack hash_of size_of size txs ++ drop (length (fill_pack hash_of size_of size txs)) txs
        ≡ txs
  unfolding fill_pack
  fill_pack-append size [] = refl
  fill_pack-append size (tx ∷ txs) = elim (Bool-cases (ltb size txsync_pack_size)) [
    | inl room ↦ rw room (ap (λ ys. tx ∷ ys) (fill_pack-append (size + size_of tx) txs))
    | inr full ↦ rw full refl
  ]

  rest_of-left_over :
      (version : ℕ) (txs : List Tx) → rest_of (left_over hash_of size_of version txs) ≡ txs
  rest_of-left_over version [] = refl
  rest_of-left_over version (tx ∷ txs) = refl

  pub sync_transactions-old :
      (version : ℕ) (txs : List Tx) (x : TxSync Tx)
      → sync_transactions hash_of size_of version txs ≡ hands_over x
      → (x.version < eth65) × (x.txs ≡ txs)
  unfolding sync_transactions version_of txs_of_start
  sync_transactions-old version [] x e = absurd (cc e)
  sync_transactions-old version (tx ∷ txs) x e = elim (Bool-cases (leb eth65 version)) [
    | inl young ↦ absurd (cc (rw young at e))
    | inr old ↦
        let same = rw old at e in
        (ground (arith, old, ap (version_of version) same), sym (ap txs_of_start same))
  ]

  left_over-version :
      (version : ℕ) (txs : List Tx) (y : TxSync Tx)
      → left_over hash_of size_of version txs ≡ some y
      → y.version ≡ version
  unfolding version_in
  left_over-version version [] y e = absurd (cc e)
  left_over-version version (tx ∷ txs) y e = sym (ap (λ o. version_in version o) e)

  abbrev pub loop_in : TxSyncLoop Tx → Outcome ⊥ (TxSyncLoop Tx) → TxSyncLoop Tx
  loop_in d (ok l) = l
  loop_in d _ = d

  pub send-Sent :
      (i : ℕ) (x : TxSync Tx) (l loop : TxSyncLoop Tx)
      → send hash_of size_of i x l ≡ ok loop
      → Sent i x l loop
  unfolding send
  send-Sent i x l loop e = elim (Bool-cases (leb eth65 x.version)) [
    | inl young ↦ absurd (cc (rw young at e))
    | inr old ↦
        let left = drop (length (fill_pack hash_of size_of 0 x.txs)) x.txs in
        subst (Sent i x l) (ap (loop_in l) (rw old at e)) (record {
          left = left_over hash_of size_of x.version left;
          pending = refl;
          version = left_over-version x.version left;
          parts = rw (rest_of-left_over x.version left) (fill_pack-append 0 x.txs);
          busy = refl;
        })
  ]
