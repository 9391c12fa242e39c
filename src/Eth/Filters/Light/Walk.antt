-- ===== src/Eth/Filters/Light/Walk.antt =====
-- eth/filters/filter_system.go: the steps of the walk of a light client.
use ecgeth.Base.{
  ℕ, suc, ◌+◌, ◌%◌, ◌<◌, ◌≤◌, ◌≡◌, refl, ap, ◌∙◌, ◌==◌, ltb, leb, true, false, Option, some, List,
  [], ◌∷◌, ◌++◌, All, length, append_assoc, u64_mod, lt→ltb, arith,
}
use ecgeth.Base.Outcome.{Outcome, ok, then_ok}
use ecgeth.Types.Header.{Header}
use ecgeth.Eth.Filters.Light.{
  LightTools, WalkError, Branches, number_uint64, number_before, parent_of, old_parent, new_parent,
  back_old, back_new, walk,
}

pub mod_small : (a : ℕ) → a < u64_mod → a % u64_mod ≡ a
mod_small a small = omega (arith, small)

pub number_before-suc : (a : ℕ) → suc a < u64_mod → number_before (suc a) ≡ a
number_before-suc a small = omega (arith, small)

pub is_leb : (a b : ℕ) → a ≤ b → leb a b ≡ true
is_leb a b le = ground arith

pub not_leb : (a b : ℕ) → a < b → leb b a ≡ false
not_leb a b lt = ground arith

not_ltb : (a b : ℕ) → b ≤ a → ltb a b ≡ false
not_ltb a b le = ground arith

module _ {Log : Type 0} (light : LightTools Log) where
  -- The headers from `h` down to `base`, which has number `low` and is not among them: the parent of
  -- each is stored, one number lower.
  pub data Branch (base : Header) (low : ℕ) : Header → List Header → Type 0 where
    here : base.number ≡ some low → low < u64_mod → Branch base low base []
    above :
        (h p : Header) (hs : List Header)
        → h.number ≡ some (suc (low + length hs))
        → suc (low + length hs) < u64_mod
        → light.read_header h.parent_hash (low + length hs) ≡ some p
        → Branch base low p hs
        → Branch base low h (h ∷ hs)

  pub Branch-number :
      {base : Header} {low : ℕ} (h : Header) (hs : List Header)
      → Branch base low h hs
      → (h.number ≡ some (low + length hs)) × (low + length hs < u64_mod)
  Branch-number h [] (here num small) = (rw num (ap some (omega arith)), omega (arith, small))
  Branch-number h (_ ∷ hs) (above _ p _ num small read rest) =
      (rw num (ap some (omega arith)), omega (arith, small))

  abbrev pub Differ : Header → Header → Type 0
  Differ o n = (light.hash_of o == light.hash_of n) ≡ false

  -- The branches have no hash in common, with each other or with the base.
  pub record Apart (base : Header) (os ns : List Header) : Type 0 where
    pub branches : All (λ o. All (Differ o) (base ∷ ns)) os
    pub new_ones : All (Differ base) ns

  pub number_uint64-ok :
      (number : Option ℕ) (n : ℕ) → number ≡ some n → n < u64_mod → number_uint64 number ≡ ok n
  number_uint64-ok number n e small = rw e (ap ok (mod_small n small))

  pub parent-read :
      (h p : Header) (n : ℕ)
      → suc n < u64_mod
      → light.read_header h.parent_hash n ≡ some p
      → parent_of light h (suc n) ≡ some p
  parent-read h p n small read =
      ap (light.read_header h.parent_hash) (number_before-suc n small) ∙ read

  pub back_old-down :
      (o n p : Header) (olds : List Header) (a b : ℕ)
      → o.number ≡ some (suc a)
      → suc a < u64_mod
      → n.number ≡ some b
      → b < u64_mod
      → b ≤ suc a
      → light.read_header o.parent_hash a ≡ some p
      → back_old light o n olds ≡ ok (p, olds ++ (o ∷ []))
  unfolding back_old
  back_old-down o n p olds a b numo smalla numn smallb le read =
      then_ok _ (number_uint64-ok _ (suc a) numo smalla) (
        then_ok _ (number_uint64-ok _ b numn smallb) (
          rw (is_leb b (suc a) le)
            (ap (λ q. old_parent light q (olds ++ (o ∷ []))) (parent-read o p a smalla read))))

  pub back_old-stay :
      (o n : Header) (olds : List Header) (a b : ℕ)
      → o.number ≡ some a
      → n.number ≡ some b
      → b < u64_mod
      → a < b
      → back_old light o n olds ≡ ok (o, olds)
  unfolding back_old
  back_old-stay o n olds a b numo numn smallb lt =
      then_ok _ (number_uint64-ok _ a numo (omega (arith, lt, smallb)))
        (then_ok _ (number_uint64-ok _ b numn smallb) (rw (not_leb a b lt) refl))

  pub back_new-down :
      (o n p : Header) (news : List Header) (a b : ℕ)
      → o.number ≡ some a
      → a < suc b
      → n.number ≡ some (suc b)
      → suc b < u64_mod
      → light.read_header n.parent_hash b ≡ some p
      → back_new light o n news ≡ ok (p, news ++ (n ∷ []))
  unfolding back_new
  back_new-down o n p news a b numo lt numn smallb read =
      then_ok _ (number_uint64-ok _ a numo (omega (arith, lt, smallb))) (
        then_ok _ (number_uint64-ok _ (suc b) numn smallb) (
          rw (lt→ltb a (suc b) lt)
            (ap (λ q. new_parent light o q (news ++ (n ∷ []))) (parent-read n p b smallb read))))

  pub back_new-stay :
      (o n : Header) (news : List Header) (a b : ℕ)
      → o.number ≡ some a
      → a < u64_mod
      → n.number ≡ some b
      → b ≤ a
      → back_new light o n news ≡ ok (n, news)
  unfolding back_new
  back_new-stay o n news a b numo smalla numn le =
      then_ok _ (number_uint64-ok _ a numo smalla) (
        then_ok _ (number_uint64-ok _ b numn (omega (arith, le, smalla)))
          (rw (not_ltb a b le) refl))

  pub walk-next :
      (fuel : ℕ) (o n o' n' : Header) (olds news olds' news' : List Header)
      (r : Outcome WalkError Branches)
      → Differ o n
      → back_old light o n olds ≡ ok (o', olds')
      → back_new light o' n news ≡ ok (n', news')
      → walk light fuel o' n' olds' news' ≡ r
      → walk light (suc fuel) o n olds news ≡ r
  unfolding walk
  walk-next fuel o n o' n' olds news olds' news' r far old new rest =
      rw far (then_ok _ old (then_ok _ new rest))

  pub more_old :
      (olds hs : List Header) (o : Header) (news : List Header)
      → Path
          (Outcome WalkError Branches)
          (ok ((olds ++ (o ∷ [])) ++ hs, news))
          (ok (olds ++ (o ∷ hs), news))
  more_old olds hs o news = ap (λ x. ok (x, news)) (append_assoc olds (o ∷ []) hs)

  pub more_new :
      (olds news hs : List Header) (n : Header)
      → Path
          (Outcome WalkError Branches)
          (ok (olds, (news ++ (n ∷ [])) ++ hs))
          (ok (olds, news ++ (n ∷ hs)))
  more_new olds news hs n = ap (λ x. ok (olds, x)) (append_assoc news (n ∷ []) hs)
