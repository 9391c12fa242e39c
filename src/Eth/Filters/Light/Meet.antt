-- ===== src/Eth/Filters/Light/Meet.antt =====
-- eth/filters/filter_system.go: the walk of a light client over two branches.
use ecgeth.Base.{
  ℕ, zero, suc, ◌+◌, ◌<◌, ◌≤◌, ◌≡◌, refl, ap, append_assoc, u64_mod, map, false, dec_lt, some, sym,
  ◌∙◌, true, List, [], ◌∷◌, ◌++◌, All-map, length, append-nil, arith, ==_refl,
}
use mathlib.Core.List.{reverse, reverse_aux}
use ecgeth.Base.Outcome.{ok, then_ok}
use ecgeth.Types.Header.{Header}
use ecgeth.Eth.Filters.Light.{LightTools, walk, light_filter_new_head, rolled_back, added, calls_of}
use ecgeth.Eth.Filters.Light.Walk.{
  Branch, here, above, Differ, Apart, Branch-number, back_old-down, back_old-stay, back_new-down,
  back_new-stay, walk-next, more_old, more_new,
}

module _ {Log : Type 0} (light : LightTools Log) (base : Header) (low : ℕ) where
  Apart-less_old :
      {o : Header} {os ns : List Header} → Apart light base (o ∷ os) ns → Apart light base os ns
  Apart-less_old far = record { branches = far.branches.1; new_ones = far.new_ones }

  Apart-less_new :
      {n : Header} {os ns : List Header} → Apart light base os (n ∷ ns) → Apart light base os ns
  Apart-less_new {os = os} far = record {
    branches = All-map _ _ os (λ o h. (h.0, h.1.1)) far.branches;
    new_ones = far.new_ones.1;
  }

  -- Only the old side has a step to take, only the new side, or both.
  step_old :
      (fuel : ℕ) (o n p : Header) (b : ℕ) (hs olds news found : List Header)
      → o.number ≡ some (suc (low + length hs))
      → suc (low + length hs) < u64_mod
      → light.read_header o.parent_hash (low + length hs) ≡ some p
      → Branch light base low p hs
      → n.number ≡ some b
      → b ≤ low + length hs
      → Differ light o n
      → walk light fuel p n (olds ++ (o ∷ [])) news ≡ ok ((olds ++ (o ∷ [])) ++ hs, found)
      → walk light (suc fuel) o n olds news ≡ ok (olds ++ (o ∷ hs), found)
  step_old fuel o n p b hs olds news found num small read rest numn le far next =
      let q = Branch-number light p hs rest in
      walk-next light fuel o n p n olds news (olds ++ (o ∷ [])) news _ far
        (back_old-down light o n p olds (low + length hs) b num small numn
          (omega (arith, le, small)) (omega (arith, le)) read)
        (back_new-stay light p n news (low + length hs) b q.0 q.1 numn le)
        (next ∙ more_old light olds hs o found)

  step_new :
      (fuel : ℕ) (o n p : Header) (a : ℕ) (olds news ks found : List Header)
      → o.number ≡ some a
      → n.number ≡ some (suc (low + length ks))
      → suc (low + length ks) < u64_mod
      → light.read_header n.parent_hash (low + length ks) ≡ some p
      → a < suc (low + length ks)
      → Differ light o n
      → walk light fuel o p olds (news ++ (n ∷ [])) ≡ ok (found, (news ++ (n ∷ [])) ++ ks)
      → walk light (suc fuel) o n olds news ≡ ok (found, news ++ (n ∷ ks))
  step_new fuel o n p a olds news ks found numo num small read lt far next =
      walk-next light fuel o n o p olds news olds (news ++ (n ∷ [])) _ far
        (back_old-stay light o n olds a (suc (low + length ks)) numo num small lt)
        (back_new-down light o n p news a (low + length ks) numo lt num small read)
        (next ∙ more_new light found news ks n)

  step_both :
      (fuel : ℕ) (o n p q : Header) (hs ks olds news : List Header)
      → o.number ≡ some (suc (low + length hs))
      → suc (low + length hs) < u64_mod
      → light.read_header o.parent_hash (low + length hs) ≡ some p
      → Branch light base low p hs
      → n.number ≡ some (suc (low + length ks))
      → suc (low + length ks) < u64_mod
      → light.read_header n.parent_hash (low + length ks) ≡ some q
      → length hs ≡ length ks
      → Differ light o n
      → walk light fuel p q (olds ++ (o ∷ [])) (news ++ (n ∷ []))
        ≡ ok ((olds ++ (o ∷ [])) ++ hs, (news ++ (n ∷ [])) ++ ks)
      → walk light (suc fuel) o n olds news ≡ ok (olds ++ (o ∷ hs), news ++ (n ∷ ks))
  step_both fuel o n p q hs ks olds news num small read rest numn smalln readn same far next =
      let at = Branch-number light p hs rest in
      walk-next light fuel o n p q olds news (olds ++ (o ∷ [])) (news ++ (n ∷ [])) _ far
        (back_old-down light o n p olds (low + length hs) (suc (low + length ks)) num small numn
          smalln (omega (arith, same)) read)
        (back_new-down light p n q news (low + length hs) (low + length ks) at.0
          (omega (arith, same)) numn smalln readn)
        (next
          ∙ more_old light olds hs o ((news ++ (n ∷ [])) ++ ks)
          ∙ more_new light (olds ++ (o ∷ hs)) news ks n)

  walk-Branch :
      (fuel : ℕ) (o n : Header) (os ns olds news : List Header)
      → Branch light base low o os
      → Branch light base low n ns
      → Apart light base os ns
      → length os + length ns < fuel
      → walk light fuel o n olds news ≡ ok (olds ++ os, news ++ ns)
  unfolding walk
  walk-Branch zero o n os ns olds news bo bn apart enough = absurd (omega (arith, enough))
  walk-Branch (suc fuel) o n [] [] olds news (here _ _) (here _ _) apart enough =
      rw (==_refl (light.hash_of base), append-nil olds, append-nil news) refl
  walk-Branch (suc fuel) o n (_ ∷ hs) [] olds news (above _ p _ num small read rest)
        (here numn smalln) apart enough =
      step_old fuel o n p low hs olds news (news ++ []) num small read rest numn (omega arith)
        apart.branches.0.0
        (walk-Branch fuel p n hs [] (olds ++ (o ∷ [])) news rest (here numn smalln)
          (Apart-less_old apart) (omega (arith, enough)))
  walk-Branch (suc fuel) o n [] (_ ∷ ks) olds news (here numo smallo)
        (above _ p _ num small read rest) apart enough =
      step_new fuel o n p low olds news ks (olds ++ []) numo num small read (omega arith)
        apart.new_ones.0
        (walk-Branch fuel o p [] ks olds (news ++ (n ∷ [])) (here numo smallo) rest
          (Apart-less_new apart) (omega (arith, enough)))
  walk-Branch (suc fuel) o n (_ ∷ hs) (_ ∷ ks) olds news (above _ p _ num small read rest)
        (above _ q _ numn smalln readn restn) apart enough =
      let far = apart.branches.0.1.0 in
      let old_too = Apart-less_old apart in
      elim (dec_lt (length hs) (length ks)) [
        | yes less ↦
            step_new fuel o n q (suc (low + length hs)) olds news ks (olds ++ (o ∷ hs)) num numn
              smalln readn (omega (arith, less)) far
              (walk-Branch fuel o q (o ∷ hs) ks olds (news ++ (n ∷ []))
                (above o p hs num small read rest) restn (Apart-less_new apart)
                (omega (arith, enough)))
        | no not_less ↦ elim (dec_lt (length ks) (length hs)) [
          | yes more ↦
              step_old fuel o n p (suc (low + length ks)) hs olds news (news ++ (n ∷ ks)) num small
                read rest numn (omega (arith, more)) far
                (walk-Branch fuel p n hs (n ∷ ks) (olds ++ (o ∷ [])) news rest
                  (above n q ks numn smalln readn restn) old_too (omega (arith, enough)))
          | no not_more ↦
              step_both fuel o n p q hs ks olds news num small read rest numn smalln readn
                (omega (arith, not_less, not_more)) far
                (walk-Branch fuel p q hs ks (olds ++ (o ∷ [])) (news ++ (n ∷ [])) rest restn
                  (Apart-less_new old_too) (omega (arith, enough)))
        ]
      ]

  added-reverse :
      (hs rest : List Header)
      → map (λ h. (h, false)) (reverse_aux hs rest) ≡ added light hs ++ map (λ h. (h, false)) rest
  added-reverse [] rest = refl
  added-reverse (h ∷ hs) rest =
      added-reverse hs (h ∷ rest) ∙ sym (append_assoc (added light hs) ((h, false) ∷ []) _)

  rolled_back-map : (hs : List Header) → rolled_back light hs ≡ map (λ h. (h, true)) hs
  rolled_back-map [] = refl
  rolled_back-map (h ∷ hs) = ap (λ cs. (h, true) ∷ cs) (rolled_back-map hs)

  -- Where the old head and the new one stand on branches over a common header, which are stored, have
  -- a number on each that is one above the parent's, and share no hash, the light client ends its walk:
  -- it rolls back exactly the old branch, from its head down, and then adds exactly the new branch, from
  -- the block over the common header up. More steps than both branches have headers are enough.
  pub light_filter_new_head-Branch :
      (fuel : ℕ) (o n : Header) (os ns : List Header)
      → Branch light base low o os
      → Branch light base low n ns
      → Apart light base os ns
      → length os + length ns < fuel
      → light_filter_new_head light fuel (some o) n
        ≡ ok (map (λ h. (h, true)) os ++ map (λ h. (h, false)) (reverse ns))
  unfolding light_filter_new_head
  light_filter_new_head-Branch fuel o n os ns bo bn apart enough =
      then_ok (calls_of light) (walk-Branch fuel o n os ns [] [] bo bn apart enough) (
        ap (λ cs. ok (rolled_back light os ++ cs))
          (sym (added-reverse ns [] ∙ append-nil (added light ns)))
        ∙ ap (λ cs. ok (cs ++ map (λ h. (h, false)) (reverse ns))) (rolled_back-map os))
