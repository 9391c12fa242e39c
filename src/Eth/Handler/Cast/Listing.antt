-- ===== src/Eth/Handler/Cast/Listing.antt =====
-- eth/handler.go: loops over lists of peers, counted.
use ecgeth.Base.{
  ℕ, zero, suc, ◌+◌, ◌≡◌, refl, ◌==◌, List, [], ◌∷◌, ◌++◌, take, drop, if◌then◌else◌, arith,
  Bool-cases, inl, inr,
}
use ecgeth.Eth.Peer.{Peer}
use ecgeth.Eth.Handler.Cast.{Peers, change_peer, for_peers}

-- How often a number is in a list.
abbrev pub count : ℕ → List ℕ → ℕ
count i [] = 0
count i (j ∷ js) = let rest = count i js in if j == i then suc rest else rest

pub count-append : (i : ℕ) (xs ys : List ℕ) → count i (xs ++ ys) ≡ count i xs + count i ys
count-append i [] ys = omega arith
count-append i (x ∷ xs) ys = ground (arith, count-append i xs ys)

pub count-split : (i n : ℕ) (xs : List ℕ) → count i (take n xs) + count i (drop n xs) ≡ count i xs
count-split i zero xs = omega arith
count-split i (suc n) [] = omega arith
count-split i (suc n) (x ∷ xs) = ground (arith, count-split i n xs)

module _ {Tx S : Type 0} (f : Peer Tx S → Peer Tx S) where
  abbrev pub repeat : ℕ → Peer Tx S → Peer Tx S
  repeat zero p = p
  repeat (suc n) p = repeat n (f p)

  -- A loop changes each peer as often as it is listed.
  pub for_peers-count :
      (is : List ℕ) (ps : Peers Tx S) (j : ℕ) → for_peers f is ps j ≡ repeat (count j is) (ps j)
  unfolding for_peers
  for_peers-count [] ps j = refl
  for_peers-count (i ∷ is) ps j =
      rw (for_peers-count is (change_peer f i ps) j)
        (elim (Bool-cases (i == j)) [ inl hit ↦ rw hit refl | inr miss ↦ rw miss refl ])
