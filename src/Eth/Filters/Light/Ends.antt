-- ===== src/Eth/Filters/Light/Ends.antt =====
-- eth/filters/filter_system.go: the rounds of the walk of a light client, counted.
use ecgeth.Base.{
  ℕ, zero, suc, ◌+◌, ◌-◌, ◌<◌, ◌≤◌, ◌≡◌, ◌≢◌, refl, ap, dec_lt, ◌==◌, sym, ◌∙◌, subst, none, some,
  List, [], ◌∷◌, ◌++◌, Hash, u64_mod, arith, Bool-cases, Option-cases, inl, inr, ==_refl, lt→ltb,
}
use ecgeth.Base.Outcome.{Outcome, ok, err, panics, then_ok}
use ecgeth.Types.Header.{Header}
use ecgeth.Eth.Filters.Light.{
  LightTools, WalkError, out_of_fuel, Branches, parent_of, old_parent, new_parent, back_old,
  back_new, walk,
}
use ecgeth.Eth.Filters.Light.Walk.{
  Differ, is_leb, number_before-suc, back_old-down, back_old-stay, back_new-down, back_new-stay,
  walk-next, number_uint64-ok,
}

module _ {Log : Type 0} (light : LightTools Log) where
  -- The database stores headers under their numbers, and none has the highest number of 64 bits.
  pub record IsNumbered : Type 0 where
    pub numbered :
        (h : Hash) (n : ℕ) (x : Header) → light.read_header h n ≡ some x → x.number ≡ some n
    pub bounded : (h : Hash) → light.read_header h (u64_mod - 1) ≡ none

  Ends : Outcome WalkError Branches → Type 0
  Ends r = r ≢ err out_of_fuel

  Ends-ok : (bs : Branches) → Ends (ok bs)
  unfolding Ends
  Ends-ok bs e = cc

  Ends-panics : Ends panics
  unfolding Ends
  Ends-panics e = cc

  walk_self :
      (fuel : ℕ) (p : Header) (olds news : List Header)
      → 0 < fuel
      → Ends (walk light fuel p p olds news)
  unfolding walk
  walk_self zero p olds news more = absurd (omega (arith, more))
  walk_self (suc fuel) p olds news more = rw (==_refl (light.hash_of p)) (Ends-ok (olds, news))

  Ends-next :
      (fuel : ℕ) (o n o' n' : Header) (olds news olds' news' : List Header)
      → Differ light o n
      → back_old light o n olds ≡ ok (o', olds')
      → back_new light o' n news ≡ ok (n', news')
      → Ends (walk light fuel o' n' olds' news')
      → Ends (walk light (suc fuel) o n olds news)
  Ends-next fuel o n o' n' olds news olds' news' far old new ends =
      subst Ends (sym (walk-next light fuel o n o' n' olds news olds' news' _ far old new refl))
        ends

  old_lost :
      (o n : Header) (olds : List Header) (a b : ℕ)
      → o.number ≡ some a
      → a < u64_mod
      → n.number ≡ some b
      → b ≤ a
      → parent_of light o a ≡ none
      → back_old light o n olds ≡ panics
  unfolding back_old
  old_lost o n olds a b numo small numn le lost =
      then_ok _ (number_uint64-ok light _ a numo small) (
        then_ok _ (number_uint64-ok light _ b numn (omega (arith, le, small)))
          (rw (is_leb b a le) (ap (λ q. old_parent light q (olds ++ (o ∷ []))) lost)))

  new_lost :
      (o n : Header) (news : List Header) (a b : ℕ)
      → o.number ≡ some a
      → a < b
      → n.number ≡ some b
      → b < u64_mod
      → parent_of light n b ≡ none
      → back_new light o n news ≡ ok (o, news ++ (n ∷ []))
  unfolding back_new
  new_lost o n news a b numo lt numn small lost =
      then_ok _ (number_uint64-ok light _ a numo (omega (arith, lt, small))) (
        then_ok _ (number_uint64-ok light _ b numn small)
          (rw (lt→ltb a b lt) (ap (λ q. new_parent light o q (news ++ (n ∷ []))) lost)))

  Ends-lost :
      (fuel : ℕ) (o n : Header) (olds news : List Header)
      → Differ light o n
      → back_old light o n olds ≡ panics
      → Ends (walk light (suc fuel) o n olds news)
  unfolding walk
  Ends-lost fuel o n olds news far lost = rw (far, lost) Ends-panics

  -- The second half of a round, for the old header that the first half left.
  walk_new-Ends :
      (db : IsNumbered) (fuel : ℕ) (o o' n : Header) (a b : ℕ) (olds olds' news : List Header)
      → ((n' : Header) (k : ℕ) (seen : List Header)
          → n'.number ≡ some k
          → suc k ≤ b
          → k < u64_mod
          → Ends (walk light fuel o' n' olds' seen))
      → 0 < fuel
      → Differ light o n
      → back_old light o n olds ≡ ok (o', olds')
      → o'.number ≡ some a
      → a < b
      → n.number ≡ some b
      → b < u64_mod
      → Ends (walk light (suc fuel) o n olds news)
  walk_new-Ends db fuel o o' n a zero olds olds' news ih more far old numo lt numn small =
      absurd (omega (arith, lt))
  walk_new-Ends db fuel o o' n a (suc b) olds olds' news ih more far old numo lt numn small =
      elim (Option-cases (light.read_header n.parent_hash b)) [
        | inl lost ↦
            Ends-next fuel o n o' o' olds news olds' (news ++ (n ∷ [])) far old
              (new_lost o' n news a (suc b) numo lt numn small
                (ap (light.read_header n.parent_hash) (number_before-suc b small) ∙ lost))
              (walk_self fuel o' olds' _ more)
        | inr (p, read) ↦
            Ends-next fuel o n o' p olds news olds' (news ++ (n ∷ [])) far old
              (back_new-down light o' n p news a b numo lt numn small read)
              (ih p b (news ++ (n ∷ [])) (db.numbered _ b p read) (omega arith)
                (omega (arith, small)))
      ]

  -- The first half of a round, from an old head that is not below the new one.
  walk_old-Ends :
      (db : IsNumbered) (fuel : ℕ) (o n : Header) (a b : ℕ) (olds news : List Header)
      → ((o' n' : Header) (j k : ℕ) (gone seen : List Header)
          → o'.number ≡ some j
          → j < u64_mod
          → n'.number ≡ some k
          → k < u64_mod
          → j + k < a + b
          → Ends (walk light fuel o' n' gone seen))
      → 0 < fuel
      → Differ light o n
      → o.number ≡ some a
      → a < u64_mod
      → n.number ≡ some b
      → b ≤ a
      → Ends (walk light (suc fuel) o n olds news)
  walk_old-Ends db fuel o n zero b olds news ih more far numo small numn le =
      Ends-lost fuel o n olds news far
        (old_lost o n olds 0 b numo small numn le (db.bounded o.parent_hash))
  walk_old-Ends db fuel o n (suc a) b olds news ih more far numo small numn le =
      elim (Option-cases (light.read_header o.parent_hash a)) [
        | inl lost ↦ Ends-lost fuel o n olds news far (
            old_lost o n olds (suc a) b numo small numn le
              (ap (light.read_header o.parent_hash) (number_before-suc a small) ∙ lost))
        | inr (p, read) ↦
            let down =
              back_old-down light o n p olds a b numo small numn (omega (arith, le, small)) le
                read in
            let nump = db.numbered _ a p read in
            elim (dec_lt a b) [
              | yes lt ↦
                  walk_new-Ends db fuel o p n a b olds (olds ++ (o ∷ [])) news
                    (λ n' k seen numk below smallk.
                      ih p n' a k _ seen nump (omega (arith, small)) numk smallk
                        (omega (arith, below)))
                    more far down nump lt numn (omega (arith, le, small))
              | no not_lt ↦
                  Ends-next fuel o n p n olds news (olds ++ (o ∷ [])) news far down
                    (back_new-stay light p n news a b nump (omega (arith, small)) numn
                      (omega (arith, not_lt)))
                    (ih p n a b _ news nump (omega (arith, small)) numn (omega (arith, le, small))
                      (omega arith))
            ]
      ]

  -- With a database that stores headers under their numbers, and none with the highest number of 64
  -- bits, the walk from an old head to a new one ends, by a result or a panic: it never needs more steps
  -- than the two numbers and two, whether or not the branches meet and whichever headers are missing.
  pub walk-Ends :
      (db : IsNumbered) (fuel : ℕ) (o n : Header) (a b : ℕ) (olds news : List Header)
      → o.number ≡ some a
      → a < u64_mod
      → n.number ≡ some b
      → b < u64_mod
      → a + b + 2 ≤ fuel
      → walk light fuel o n olds news ≢ err out_of_fuel
  unfolding Ends walk
  walk-Ends db zero o n a b olds news numo smalla numn smallb enough =
      absurd (omega (arith, enough))
  walk-Ends db (suc fuel) o n a b olds news numo smalla numn smallb enough =
      elim (Bool-cases (light.hash_of o == light.hash_of n)) [
        | inl met ↦ rw met (Ends-ok (olds, news))
        | inr far ↦ elim (dec_lt a b) [
          | yes lt ↦
              walk_new-Ends db fuel o o n a b olds olds news
                (λ n' k seen numk below smallk.
                  walk-Ends db fuel o n' a k olds seen numo smalla numk smallk
                    (omega (arith, enough, below)))
                (omega (arith, enough)) far (back_old-stay light o n olds a b numo numn smallb lt)
                numo lt numn smallb
          | no not_lt ↦
              walk_old-Ends db fuel o n a b olds news
                (λ o' n' j k gone seen numj smallj numk smallk less.
                  walk-Ends db fuel o' n' j k gone seen numj smallj numk smallk
                    (omega (arith, enough, less)))
                (omega (arith, enough)) far numo smalla numn (omega (arith, not_lt))
        ]
      ]
