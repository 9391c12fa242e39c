-- ===== src/Params/Config/Agreement.antt =====
-- params/config.go: what a passed `checkCompatible` says of the rules of the blocks so far.
use mathlib.Core.Path.{ap₂}
use ecgeth.Base.{
  ℕ, ◌≤◌, ◌<◌, ◌&&◌, ◌≡◌, refl, Bool, true, false, not, ◌||◌, Option, none, some, List, [], ◌∷◌,
  arith,
}
use ecgeth.Params.Config.{
  ChainConfig, ConfigCompatError, is_forked, config_num_equal, is_fork_incompatible, first_error,
  guards, check_compatible_at, bool_ne,
}
use ecgeth.Params.Config.Rules.{
  is_homestead, is_eip150, is_eip155, is_eip158, is_byzantium, is_constantinople, is_petersburg,
  is_istanbul, is_berlin, is_muir_glacier, is_ewasm, is_dao_fork,
}

abbrev Silent : List (Bool × ConfigCompatError) → Type 0
Silent [] = Unit
Silent ((test, err) ∷ rest) = (test ≡ false) × Silent rest

first_error-Silent : (gs : List (Bool × ConfigCompatError)) → first_error gs ≡ none → Silent gs
unfolding first_error
first_error-Silent [] e = tt
first_error-Silent ((true, x) ∷ gs) e = cc
first_error-Silent ((false, x) ∷ gs) e = (refl, first_error-Silent gs e)

first_error-none : (gs : List (Bool × ConfigCompatError)) → Silent gs → first_error gs ≡ none
unfolding first_error
first_error-none [] s = refl
first_error-none ((true, x) ∷ gs) s = cc (s.0)
first_error-none ((false, x) ∷ gs) s = first_error-none gs s.1

-- A fork that may stay as it is scheduled is on, or off, in both configurations.
compatible_fork :
    (s1 s2 : Option ℕ) (head n : ℕ)
    → is_fork_incompatible s1 s2 (some head) ≡ false
    → n ≤ head
    → is_forked s1 (some n) ≡ is_forked s2 (some n)
unfolding is_fork_incompatible
compatible_fork none none head n h le = refl
compatible_fork none (some b) head n h le = ground arith
compatible_fork (some a) none head n h le = ground arith
compatible_fork (some a) (some b) head n h le = ground arith

self_compatible : (s head : Option ℕ) → is_fork_incompatible s s head ≡ false
unfolding is_fork_incompatible
self_compatible none head = ground arith
self_compatible (some a) none = ground arith
self_compatible (some a) (some b) = ground arith

-- The same rules at block `n`, but for Petersburg and for the forks that are not compared.
abbrev pub SameForks : ChainConfig → ChainConfig → ℕ → Type 0
SameForks c d n =
    (is_homestead c (some n) ≡ is_homestead d (some n))
    × (is_dao_fork c (some n) ≡ is_dao_fork d (some n))
    × (is_eip150 c (some n) ≡ is_eip150 d (some n))
    × (is_eip155 c (some n) ≡ is_eip155 d (some n))
    × (is_eip158 c (some n) ≡ is_eip158 d (some n))
    × (is_byzantium c (some n) ≡ is_byzantium d (some n))
    × (is_constantinople c (some n) ≡ is_constantinople d (some n))
    × (is_istanbul c (some n) ≡ is_istanbul d (some n))
    × (is_muir_glacier c (some n) ≡ is_muir_glacier d (some n))
    × (is_berlin c (some n) ≡ is_berlin d (some n))
    × (is_ewasm c (some n) ≡ is_ewasm d (some n))

module _ (c d : ChainConfig) (head n : ℕ) (le : n ≤ head) where
  -- If `checkCompatible` passes at `head`, the stored and the new configuration switch the forks
  -- Homestead, DAO, EIP150, EIP155, EIP158, Byzantium, Constantinople, Istanbul, Muir Glacier,
  -- Berlin (with YOLOv3) and EWASM alike at every block up to `head`.
  pub check_compatible-SameForks : check_compatible_at c d (some head) ≡ none → SameForks c d n
  unfolding check_compatible_at guards is_homestead is_dao_fork is_eip150 is_eip155 is_eip158
      is_byzantium is_constantinople is_istanbul is_muir_glacier is_berlin is_ewasm
  check_compatible-SameForks e =
      let same = λ (s1 s2 : Option ℕ) (h : is_fork_incompatible s1 s2 (some head) ≡ false).
        compatible_fork s1 s2 head n h le in
      let s = first_error-Silent (guards c d (some head)) e in
      (
        same _ _ s.0,
        same _ _ s.1.0,
        same _ _ s.1.1.1.0,
        same _ _ s.1.1.1.1.0,
        same _ _ s.1.1.1.1.1.0,
        same _ _ s.1.1.1.1.1.1.1.0,
        same _ _ s.1.1.1.1.1.1.1.1.0,
        same _ _ s.1.1.1.1.1.1.1.1.1.1.0,
        same _ _ s.1.1.1.1.1.1.1.1.1.1.1.0,
        ap₂ ◌||◌ (same _ _ s.1.1.1.1.1.1.1.1.1.1.1.1.0) (same _ _ s.1.1.1.1.1.1.1.1.1.1.1.1.1.0),
        same _ _ s.1.1.1.1.1.1.1.1.1.1.1.1.1.1.0,
      )

bool_ne_self : (b : Bool) → bool_ne b b ≡ false
unfolding bool_ne
bool_ne_self true = refl
bool_ne_self false = refl

config_num_equal_self : (x : Option ℕ) → config_num_equal x x ≡ true
unfolding config_num_equal
config_num_equal_self none = refl
config_num_equal_self (some n) = ground arith

and_false : (a b : Bool) → b ≡ false → (a && b) ≡ false
and_false a b h = ground arith

not-true : (b : Bool) → b ≡ true → not b ≡ false
not-true b h = ground arith

abbrev pub with_petersburg : ChainConfig → Option ℕ → ChainConfig
with_petersburg c p = record c { petersburg_block = p }

-- The other guards compare `c` with itself.
module _ (c : ChainConfig) (head p : Option ℕ) where
  with_petersburg_compatible :
      is_fork_incompatible c.petersburg_block p head ≡ false
      → check_compatible_at c (with_petersburg c p) head ≡ none
  unfolding check_compatible_at guards
  with_petersburg_compatible h =
      let self = λ (s : Option ℕ). self_compatible s head in
      first_error-none (guards c (with_petersburg c p) head) (
        self _,
        (
          self _,
          (
            and_false (is_forked c.dao_fork_block head) _ (bool_ne_self c.dao_fork_support),
            (
              self _,
              (
                self _,
                (
                  self _,
                  (
                    and_false (is_forked c.eip158_block head) _
                        (not-true _ (config_num_equal_self c.chain_id)),
                    (
                      self _,
                      (
                        self _,
                        (ground (arith, h), (self _, (self _, (self _, (self _, (self _, tt)))))),
                      ),
                    ),
                  ),
                ),
              ),
            ),
          ),
        ),
      )

-- No configuration conflicts with itself, at any head.
pub check_compatible_at_self :
    (c : ChainConfig) (head : Option ℕ) → check_compatible_at c c head ≡ none
check_compatible_at_self c head =
    with_petersburg_compatible c head c.petersburg_block (self_compatible c.petersburg_block head)

module _ (c : ChainConfig) (k n head p : ℕ) where
  -- Where the stored configuration leaves Petersburg unset and Constantinople is on at block `n`,
  -- `checkCompatible` accepts at `head` a new configuration that puts Petersburg beyond `head`,
  -- although the Petersburg rules are on at block `n` in the stored one and off in the new one.
  pub petersburg_postponed :
      c.petersburg_block ≡ none
      → c.constantinople_block ≡ some k
      → k ≤ n
      → n ≤ head
      → head < p
      → (check_compatible_at c (with_petersburg c (some p)) (some head) ≡ none)
        × (is_petersburg c (some n) ≡ true)
        × (is_petersburg (with_petersburg c (some p)) (some n) ≡ false)
  unfolding is_petersburg is_fork_incompatible
  petersburg_postponed unset on kn nh hp = (
    with_petersburg_compatible c (some head) (some p) (rw unset (ground arith)),
    rw (unset, on) (ground arith),
    ground arith,
  )
