-- ===== src/Eth/Peer/Example.antt =====
-- eth/protocols/eth/peer.go: lists as the sets of known hashes, for the examples.
use ecgeth.Base.{
  ◌+◌, ◌-◌, ◌≡◌, ◌≤◌, refl, Bool, true, false, List, [], ◌∷◌, Hash, length, drop, ◌==◌,
  if◌then◌else◌, arith, choose,
}
use ecgeth.Eth.Peer.{MapSet, SetLaws}

abbrev pub contains_list : Hash → List Hash → Bool
contains_list h [] = false
contains_list h (j ∷ js) = if j == h then true else contains_list h js

abbrev pub lists : MapSet (List Hash)
lists = record {
  empty = [];
  cardinality = λ s. length s;
  contains = contains_list;
  add = λ h s. if contains_list h s then s else (h ∷ s);
  pop = λ s. drop 1 s;
}

length-drop : (s : List Hash) → length (drop 1 s) ≡ length s - 1
length-drop [] = refl
length-drop (x ∷ xs) = omega arith

pub lists-SetLaws : SetLaws lists
lists-SetLaws = record {
  empty_cardinality = refl;
  add_at_most = λ h s.
      choose (λ t. length t ≤ length s + 1) (contains_list h s) s (h ∷ s) (λ e. omega arith)
        (λ e. omega arith);
  pop_one = length-drop;
  contains_added = λ h s.
      choose (λ t. contains_list h t ≡ true) (contains_list h s) s (h ∷ s) (λ e. e)
        (λ e. ground arith);
  keeps_others = λ h j s e.
      choose (λ t. contains_list j t ≡ true) (contains_list h s) s (h ∷ s) (λ same. e)
        (λ other. ground (arith, e));
}
