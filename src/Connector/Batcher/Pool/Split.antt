-- ===== src/Connector/Batcher/Pool/Split.antt =====
-- ecconnector/batcher.go: the split loses no transaction and puts each on the right side.
use ecgeth.Base.{
  ◌≡◌, refl, sym, ◌∙◌, inl, inr, Bool, true, false, List, [], ◌∷◌, Address, arith, ◌==◌,
  if◌then◌else◌, is_empty, Bool-cases,
}
use ecgeth.Connector.Batcher.Pool.{txs_of, without, split_account, split_locals}

-- Whether the account is one of the pool's local ones.
unfoldable pub is_local : Address → List Address → Bool
is_local a [] = false
is_local a (b ∷ rest) = if b == a then true else is_local a rest

module _ {Tx : Type 0} where
  txs_of-without : (a : Address) (txs : List (Address × List Tx)) → txs_of a (without a txs) ≡ []
  unfolding txs_of without
  txs_of-without a [] = refl
  txs_of-without a ((b, here) ∷ rest) = ground (arith, txs_of-without a rest)

  txs_of-without_other :
      (a b : Address) (txs : List (Address × List Tx))
      → (b == a) ≡ false
      → txs_of a (without b txs) ≡ txs_of a txs
  unfolding txs_of without
  txs_of-without_other a b [] ne = refl
  txs_of-without_other a b ((c, here) ∷ rest) ne = ground (arith, txs_of-without_other a b rest ne)

  split_account-other :
      (a b : Address) (l r : List (Address × List Tx))
      → (b == a) ≡ false
      → (txs_of a (split_account b (l, r)).0 ≡ txs_of a l)
        × (txs_of a (split_account b (l, r)).1 ≡ txs_of a r)
  unfolding split_account txs_of
  split_account-other a b l r ne = elim (Bool-cases (is_empty (txs_of b r))) [
    | inl none ↦ rw none (refl, refl)
    | inr some ↦ rw (some, ne) (refl, txs_of-without_other a b r ne)
  ]

  split_account-same :
      (a : Address) (l r : List (Address × List Tx))
      → txs_of a l ≡ []
      → (txs_of a (split_account a (l, r)).0 ≡ txs_of a r)
        × (txs_of a (split_account a (l, r)).1 ≡ [])
  unfolding split_account txs_of
  split_account-same a l r none = ground (arith, txs_of-without a r)

  split_account-empty :
      (a b : Address) (l r : List (Address × List Tx))
      → txs_of a r ≡ []
      → (txs_of a (split_account b (l, r)).0 ≡ txs_of a l)
        × (txs_of a (split_account b (l, r)).1 ≡ [])
  unfolding split_account
  split_account-empty a b l r none = elim (Bool-cases (b == a)) [
    | inl same ↦
        let eq : b ≡ a = ground arith in
        let none' : txs_of b r ≡ [] = rw eq none in rw none' (refl, none)
    | inr other ↦ let (x, y) = split_account-other a b l r other in (x, y ∙ none)
  ]

  split_locals-empty :
      (a : Address) (accounts : List Address) (l r : List (Address × List Tx))
      → txs_of a r ≡ []
      → (txs_of a (split_locals accounts (l, r)).0 ≡ txs_of a l)
        × (txs_of a (split_locals accounts (l, r)).1 ≡ [])
  unfolding split_locals
  split_locals-empty a [] l r none = (refl, none)
  split_locals-empty a (b ∷ accounts) l r none =
      let (x, y) = split_account-empty a b l r none in
      let (z, w) = split_locals-empty a accounts _ _ y in (z ∙ x, w)

  split_locals-not_local :
      (a : Address) (accounts : List Address) (l r : List (Address × List Tx))
      → is_local a accounts ≡ false
      → (txs_of a (split_locals accounts (l, r)).0 ≡ txs_of a l)
        × (txs_of a (split_locals accounts (l, r)).1 ≡ txs_of a r)
  unfolding split_locals is_local
  split_locals-not_local a [] l r no_one = (refl, refl)
  split_locals-not_local a (b ∷ accounts) l r no_one =
      let (x, y) = split_account-other a b l r (ground arith) in
      let (z, w) = split_locals-not_local a accounts _ _ (ground arith) in (z ∙ x, w ∙ y)

  split_locals-local :
      (a : Address) (accounts : List Address) (l r : List (Address × List Tx))
      → txs_of a l ≡ []
      → is_local a accounts ≡ true
      → (txs_of a (split_locals accounts (l, r)).0 ≡ txs_of a r)
        × (txs_of a (split_locals accounts (l, r)).1 ≡ [])
  unfolding split_locals is_local
  split_locals-local a [] l r none one = cc
  split_locals-local a (b ∷ accounts) l r none one = elim (Bool-cases (b == a)) [
    | inl same ↦
        let eq : a ≡ b = ground arith in
        let (x, y) = split_account-same a l r none in
        let (z, w) = split_locals-empty a accounts _ _ y in rw (sym eq) (z ∙ x, w)
    | inr other ↦
        let (x, y) = split_account-other a b l r other in
        let (z, w) = split_locals-local a accounts _ _ (x ∙ none) (ground arith) in (z ∙ y, w)
  ]

  -- The transactions of a local account are all among the local ones, those of any other account all
  -- among the remote ones, in the order in which the pool has them.
  pub split_locals-txs_of :
      (a : Address) (accounts : List Address) (txs : List (Address × List Tx))
      → ((txs_of a (split_locals accounts ([], txs)).0
            ≡ (if is_local a accounts then txs_of a txs else []))
          × (txs_of a (split_locals accounts ([], txs)).1
              ≡ (if is_local a accounts then [] else txs_of a txs)))
  unfolding txs_of
  split_locals-txs_of a accounts txs = elim (Bool-cases (is_local a accounts)) [
    | inl one ↦ rw one (split_locals-local a accounts [] txs refl one)
    | inr no_one ↦ rw no_one (split_locals-not_local a accounts [] txs no_one)
  ]
