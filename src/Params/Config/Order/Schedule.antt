-- ===== src/Params/Config/Order/Schedule.antt =====
-- params/config.go: the schedules that `CheckConfigForkOrder` accepts, and their rules.
use ecgeth.Base.{
  ℕ, ◌≤◌, ◌≡◌, refl, ◌↔◌, Bool, true, false, Option, none, some, List, String, [], ◌∷◌, arith,
}
use ecgeth.Params.Config.{ChainConfig, is_forked}
use ecgeth.Params.Config.Rules.{
  is_homestead, is_eip150, is_eip155, is_eip158, is_byzantium, is_constantinople, is_petersburg,
  is_istanbul,
}
use ecgeth.Params.Config.Order.{Fork, check_order, required, optionally, check_config_fork_order}

-- The later fork may be set only together with the earlier one, and not to a lower block.
abbrev pub NotAfter : Option ℕ → Option ℕ → Type 0
NotAfter earlier none = Unit
NotAfter none (some b) = ⊥
NotAfter (some a) (some b) = a ≤ b

-- The same for an optional earlier fork, which constrains nothing while it is not set.
abbrev pub NotAfterSet : Option ℕ → Option ℕ → Type 0
NotAfterSet none later = Unit
NotAfterSet (some a) none = Unit
NotAfterSet (some a) (some b) = a ≤ b

-- The schedule that the client supports.
pub record InOrder (c : ChainConfig) : Type 0 where
  pub homestead_dao : NotAfter c.homestead_block c.dao_fork_block
  pub dao_eip150 : NotAfterSet c.dao_fork_block c.eip150_block
  pub homestead_eip150 : NotAfter c.homestead_block c.eip150_block
  pub eip150_eip155 : NotAfter c.eip150_block c.eip155_block
  pub eip155_eip158 : NotAfter c.eip155_block c.eip158_block
  pub eip158_byzantium : NotAfter c.eip158_block c.byzantium_block
  pub byzantium_constantinople : NotAfter c.byzantium_block c.constantinople_block
  pub constantinople_petersburg : NotAfter c.constantinople_block c.petersburg_block
  pub petersburg_istanbul : NotAfter c.petersburg_block c.istanbul_block
  pub istanbul_muir_glacier : NotAfter c.istanbul_block c.muir_glacier_block
  pub muir_glacier_berlin : NotAfterSet c.muir_glacier_block c.berlin_block
  pub istanbul_berlin : NotAfter c.istanbul_block c.berlin_block

abbrev Passes : Fork → List Fork → Type 0
Passes last rest = check_order (some last) rest ≡ none

module _ (l name : String) (o : Bool) (rest : List Fork) where
  abbrev last_fork : Option ℕ → Fork
  last_fork a = record { name = l; block = a; optional = o }

  required_iff :
      (a b : Option ℕ)
      → Passes (last_fork a) (required name b ∷ rest)
        ↔ (NotAfter a b × Passes (required name b) rest)
  unfolding check_order required
  required_iff none none = ((λ h. (tt, h)), (λ h. h.1))
  required_iff none (some b) = ((λ h. cc), (λ h. absurd h.0))
  required_iff (some a) none = ((λ h. (tt, h)), (λ h. h.1))
  required_iff (some a) (some b) = ((λ h. ground arith), (λ h. ground arith))

  optionally_iff :
      (a b c : Option ℕ) (name' : String)
      → Passes (last_fork a) (optionally name b ∷ required name' c ∷ rest)
        ↔ (NotAfter a b × NotAfterSet b c × NotAfter a c × Passes (required name' c) rest)
  unfolding check_order required optionally
  optionally_iff none none none name' = ((λ h. (tt, tt, tt, h)), (λ h. h.3))
  optionally_iff none none (some c) name' = ((λ h. cc), (λ h. absurd h.2))
  optionally_iff none (some b) c name' = ((λ h. cc), (λ h. absurd h.0))
  optionally_iff (some a) none none name' = ((λ h. (tt, tt, tt, h)), (λ h. h.3))
  optionally_iff (some a) none (some c) name' = ((λ h. ground arith), (λ h. ground arith))
  optionally_iff (some a) (some b) none name' = ((λ h. ground arith), (λ h. ground arith))
  optionally_iff (some a) (some b) (some c) name' = ((λ h. ground arith), (λ h. ground arith))

-- The steps of the loop over the required forks, each with the list that is left after it.
module _ (c : ChainConfig) where
  abbrev from_muir_glacier : List Fork
  from_muir_glacier =
      optionally "muirGlacierBlock" c.muir_glacier_block
      ∷ required "berlinBlock" c.berlin_block
      ∷ []

  abbrev from_istanbul : List Fork
  from_istanbul = required "istanbulBlock" c.istanbul_block ∷ from_muir_glacier

  abbrev from_petersburg : List Fork
  from_petersburg = required "petersburgBlock" c.petersburg_block ∷ from_istanbul

  abbrev from_constantinople : List Fork
  from_constantinople = required "constantinopleBlock" c.constantinople_block ∷ from_petersburg

  abbrev from_byzantium : List Fork
  from_byzantium = required "byzantiumBlock" c.byzantium_block ∷ from_constantinople

  abbrev from_eip158 : List Fork
  from_eip158 = required "eip158Block" c.eip158_block ∷ from_byzantium

  abbrev from_eip155 : List Fork
  from_eip155 = required "eip155Block" c.eip155_block ∷ from_eip158

  dao_step :
      Passes (required "homesteadBlock" c.homestead_block) (
        optionally "daoForkBlock" c.dao_fork_block
        ∷ required "eip150Block" c.eip150_block
        ∷ from_eip155)
      ↔ (NotAfter c.homestead_block c.dao_fork_block
          × NotAfterSet c.dao_fork_block c.eip150_block
          × NotAfter c.homestead_block c.eip150_block
          × Passes (required "eip150Block" c.eip150_block) from_eip155)
  unfolding required
  dao_step =
      optionally_iff "homesteadBlock" "daoForkBlock" false from_eip155 c.homestead_block
        c.dao_fork_block c.eip150_block "eip150Block"

  muir_glacier_step : Passes (required "istanbulBlock" c.istanbul_block) from_muir_glacier ↔ (
      NotAfter c.istanbul_block c.muir_glacier_block
      × NotAfterSet c.muir_glacier_block c.berlin_block
      × NotAfter c.istanbul_block c.berlin_block
      × Passes (required "berlinBlock" c.berlin_block) [])
  unfolding required
  muir_glacier_step =
      optionally_iff "istanbulBlock" "muirGlacierBlock" false [] c.istanbul_block
        c.muir_glacier_block c.berlin_block "berlinBlock"

  step :
      (l name : String) (rest : List Fork) (a b : Option ℕ)
      → Passes (required l a) (required name b ∷ rest)
        ↔ (NotAfter a b × Passes (required name b) rest)
  unfolding required
  step l name rest a b = required_iff l name false rest a b

  -- `CheckConfigForkOrder` accepts a configuration exactly when its forks are in order.
  pub check_config_fork_order_iff : (check_config_fork_order c ≡ none) ↔ InOrder c
  unfolding check_config_fork_order check_order
  check_config_fork_order_iff =
      let eip155_step =
        step "eip150Block" "eip155Block" from_eip158 c.eip150_block c.eip155_block in
      let eip158_step =
        step "eip155Block" "eip158Block" from_byzantium c.eip155_block c.eip158_block in
      let byzantium_step =
        step "eip158Block" "byzantiumBlock" from_constantinople c.eip158_block c.byzantium_block in
      let constantinople_step =
        step "byzantiumBlock" "constantinopleBlock" from_petersburg c.byzantium_block
          c.constantinople_block in
      let petersburg_step =
        step "constantinopleBlock" "petersburgBlock" from_istanbul c.constantinople_block
          c.petersburg_block in
      let istanbul_step =
        step "petersburgBlock" "istanbulBlock" from_muir_glacier c.petersburg_block
          c.istanbul_block in
      (
        (λ h.
            let (hd, d1, h1, s1) = dao_step.0 h in
            let (a1, s2) = eip155_step.0 s1 in
            let (a2, s3) = eip158_step.0 s2 in
            let (a3, s4) = byzantium_step.0 s3 in
            let (a4, s5) = constantinople_step.0 s4 in
            let (a5, s6) = petersburg_step.0 s5 in
            let (a6, s7) = istanbul_step.0 s6 in
            let (im, mb, ib, last) = muir_glacier_step.0 s7 in
            record {
              homestead_dao = hd;
              dao_eip150 = d1;
              homestead_eip150 = h1;
              eip150_eip155 = a1;
              eip155_eip158 = a2;
              eip158_byzantium = a3;
              byzantium_constantinople = a4;
              constantinople_petersburg = a5;
              petersburg_istanbul = a6;
              istanbul_muir_glacier = im;
              muir_glacier_berlin = mb;
              istanbul_berlin = ib;
            }),
        λ i.
            let s7 =
              muir_glacier_step.1
                (i.istanbul_muir_glacier, i.muir_glacier_berlin, i.istanbul_berlin, refl) in
            let s6 = istanbul_step.1 (i.petersburg_istanbul, s7) in
            let s5 = petersburg_step.1 (i.constantinople_petersburg, s6) in
            let s4 = constantinople_step.1 (i.byzantium_constantinople, s5) in
            let s3 = byzantium_step.1 (i.eip158_byzantium, s4) in
            let s2 = eip158_step.1 (i.eip155_eip158, s3) in
            let s1 = eip155_step.1 (i.eip150_eip155, s2) in
            dao_step.1 (i.homestead_dao, i.dao_eip150, i.homestead_eip150, s1),
      )

  module _ (n : ℕ) where
    earlier_on :
        (a b : Option ℕ) → NotAfter a b → is_forked b (some n) ≡ true → is_forked a (some n) ≡ true
    unfolding is_forked
    earlier_on a none le on = cc
    earlier_on none (some b) le on = absurd le
    earlier_on (some a) (some b) le on = ground arith

    -- In a configuration that `CheckConfigForkOrder` accepts, a block under the Istanbul rules is
    -- under those of Homestead, EIP150, EIP155, EIP158, Byzantium, Constantinople and Petersburg.
    pub istanbul_implies_earlier :
        check_config_fork_order c ≡ none
        → is_istanbul c (some n) ≡ true
        → (is_homestead c (some n) ≡ true)
          × (is_eip150 c (some n) ≡ true)
          × (is_eip155 c (some n) ≡ true)
          × (is_eip158 c (some n) ≡ true)
          × (is_byzantium c (some n) ≡ true)
          × (is_constantinople c (some n) ≡ true)
          × (is_petersburg c (some n) ≡ true)
    unfolding is_homestead is_eip150 is_eip155 is_eip158 is_byzantium is_constantinople
        is_petersburg is_istanbul
    istanbul_implies_earlier ok on =
        let i = check_config_fork_order_iff.0 ok in
        let petersburg = earlier_on c.petersburg_block c.istanbul_block i.petersburg_istanbul on in
        let constantinople = earlier_on _ _ i.constantinople_petersburg petersburg in
        let byzantium = earlier_on _ _ i.byzantium_constantinople constantinople in
        let eip158 = earlier_on _ _ i.eip158_byzantium byzantium in
        let eip155 = earlier_on _ _ i.eip155_eip158 eip158 in
        let eip150 = earlier_on _ _ i.eip150_eip155 eip155 in
        (
          earlier_on _ _ i.homestead_eip150 eip150,
          eip150,
          eip155,
          eip158,
          byzantium,
          constantinople,
          rw petersburg refl,
        )
