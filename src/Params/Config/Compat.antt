-- ===== src/Params/Config/Compat.antt =====
-- params/config.go: `CheckCompatible` ends, and the block to which it rewinds resolves the conflict.
use ecgeth.Base.{
  ℕ, zero, suc, ◌+◌, ◌≤◌, ◌<◌, ◌≡◌, refl, ◌⊎◌, inl, inr, Bool, true, false, Option, none, some,
  List, [], ◌∷◌, ◌&&◌, String, arith, subst, u64_mod, ◌==◌, Bool-cases, Option-cases,
}
use ecgeth.Params.Config.{
  ChainConfig, ConfigCompatError, is_forked, is_fork_incompatible, new_compat_error, first_error,
  guards, check_compatible_at, check_compatible_from, check_compatible,
}

-- What rewinding from block `h` to `n` gains: a lower block, unless `n` is the genesis.
abbrev pub Lowers : ℕ → ℕ → Type 0
Lowers h n = (n < h) ⊎ (n ≡ 0)

earlier-Lowers :
    (what : String) (s1 s2 : Option ℕ) (h : ℕ)
    → h < u64_mod
    → (is_forked s1 (some h) ≡ true) ⊎ (is_forked s2 (some h) ≡ true)
    → Lowers h (new_compat_error what s1 s2).rewind_to
unfolding is_forked new_compat_error
earlier-Lowers what none none h lt f = ground arith
earlier-Lowers what none (some b) h lt f = ground arith
earlier-Lowers what (some a) none h lt f = ground arith
earlier-Lowers what (some a) (some b) h lt f = ground arith

module _ (what : String) (s1 s2 : Option ℕ) (h : ℕ) (lt : h < u64_mod) where
  incompatible-Lowers :
      is_fork_incompatible s1 s2 (some h) ≡ true → Lowers h (new_compat_error what s1 s2).rewind_to
  unfolding is_fork_incompatible
  incompatible-Lowers f = earlier-Lowers what s1 s2 h lt (ground arith)

  -- The guards that test the stored fork and one thing more.
  forked-Lowers :
      (b : Bool)
      → (is_forked s1 (some h) && b) ≡ true
      → Lowers h (new_compat_error what s1 s2).rewind_to
  forked-Lowers b f = earlier-Lowers what s1 s2 h lt (ground arith)

-- `P` holds of each error whose test holds.
abbrev Fires : (ConfigCompatError → Type 0) → List (Bool × ConfigCompatError) → Type 0
Fires P [] = Unit
Fires P ((test, err) ∷ rest) = (test ≡ true → P err) × Fires P rest

first_error-Fires :
    (P : ConfigCompatError → Type 0) (gs : List (Bool × ConfigCompatError))
    {err : ConfigCompatError}
    → Fires P gs
    → first_error gs ≡ some err
    → P err
unfolding first_error
first_error-Fires P [] f e = cc
first_error-Fires P ((true, x) ∷ gs) f e = subst P (cc) (f.0 refl)
first_error-Fires P ((false, x) ∷ gs) f e = first_error-Fires P gs f.1 e

petersburg-test : (a b : Bool) → (a && b) ≡ true → a ≡ true
petersburg-test a b h = ground arith

-- Below block 2^64 a refused check rewinds to a lower block, or to the genesis.
check_compatible_at-Lowers :
    (c newcfg : ChainConfig) (h : ℕ) {err : ConfigCompatError}
    → h < u64_mod
    → check_compatible_at c newcfg (some h) ≡ some err
    → Lowers h err.rewind_to
unfolding check_compatible_at guards
check_compatible_at-Lowers c newcfg h lt =
    first_error-Fires (λ err. Lowers h err.rewind_to) (guards c newcfg (some h))
      (
        incompatible-Lowers _ _ _ h lt,
        (
          incompatible-Lowers _ _ _ h lt,
          (
            forked-Lowers _ _ _ h lt _,
            (
              incompatible-Lowers _ _ _ h lt,
              (
                incompatible-Lowers _ _ _ h lt,
                (
                  incompatible-Lowers _ _ _ h lt,
                  (
                    forked-Lowers _ _ _ h lt _,
                    (
                      incompatible-Lowers _ _ _ h lt,
                      (
                        incompatible-Lowers _ _ _ h lt,
                        (
                          λ f. incompatible-Lowers _ _ _ h lt (petersburg-test _ _ f),
                          (
                            incompatible-Lowers _ _ _ h lt,
                            (
                              incompatible-Lowers _ _ _ h lt,
                              (
                                incompatible-Lowers _ _ _ h lt,
                                (
                                  incompatible-Lowers _ _ _ h lt,
                                  (incompatible-Lowers _ _ _ h lt, tt),
                                ),
                              ),
                            ),
                          ),
                        ),
                      ),
                    ),
                  ),
                ),
              ),
            ),
          ),
        ),
      )

-- The conflict is settled at the block to which the error rewinds, unless that is the genesis.
abbrev pub Settled : ChainConfig → ChainConfig → ConfigCompatError → Type 0
Settled c newcfg err =
    (check_compatible_at c newcfg (some err.rewind_to) ≡ none) ⊎ (err.rewind_to ≡ 0)

module _ (c newcfg : ChainConfig) where
  -- A round of the loop after a first error.
  check_compatible_from-Settled :
      (fuel : ℕ) (last : ConfigCompatError)
      → last.rewind_to < u64_mod
      → last.rewind_to < fuel
      → (r : ConfigCompatError) × (check_compatible_from fuel c newcfg (some last) last.rewind_to
          ≡ some (some r))
        × (r.rewind_to ≤ last.rewind_to)
        × Settled c newcfg r
  unfolding check_compatible_from
  check_compatible_from-Settled zero last lt enough = absurd (omega arith)
  check_compatible_from-Settled (suc fuel) last lt enough =
      elim (Option-cases (check_compatible_at c newcfg (some last.rewind_to))) [
        | inl e ↦ (last, rw (e, check_compatible_from), omega arith, inl e)
        | inr (err, e) ↦
            let low : Lowers last.rewind_to err.rewind_to =
              check_compatible_at-Lowers c newcfg last.rewind_to lt e in
            elim (Bool-cases (err.rewind_to == last.rewind_to)) [
              | inl same ↦
                  (last, rw (e, check_compatible_from, same), omega arith, inr (ground arith))
              | inr other ↦
                  let (r, found, le, settled) =
                    check_compatible_from-Settled fuel err (ground arith) (ground arith) in
                  (r, rw (e, check_compatible_from, other) found, ground arith, settled)
            ]
      ]

  -- What `CheckCompatible` promises of its answer at block `height`.
  abbrev pub Resolves : ℕ → Option ConfigCompatError → Type 0
  Resolves height none = check_compatible_at c newcfg (some height) ≡ none
  Resolves height (some err) = Lowers height err.rewind_to × Settled c newcfg err

  -- For every two configurations and every height below 2^64, `CheckCompatible` ends within
  -- `height + 2` rounds. It answers `nil` only if `checkCompatible` finds no conflict at `height`.
  -- An error rewinds to a lower block or to block 0, and at the block to which it rewinds
  -- `checkCompatible` finds no conflict any more, unless that is block 0.
  pub check_compatible-Resolves :
      (height : ℕ)
      → height < u64_mod
      → (r : Option ConfigCompatError) × (check_compatible c newcfg height ≡ some r)
        × Resolves height r
  unfolding check_compatible check_compatible_from
  check_compatible-Resolves height lt =
      let two : height + 2 ≡ suc (height + 1) = omega arith in
      elim (Option-cases (check_compatible_at c newcfg (some height))) [
        | inl e ↦ (none, rw (two, e, check_compatible_from), e)
        | inr (err, e) ↦
            let low : Lowers height err.rewind_to =
              check_compatible_at-Lowers c newcfg height lt e in
            let (r, found, le, settled) =
              check_compatible_from-Settled (height + 1) err (ground arith) (ground arith) in
            (some r, rw (two, e, check_compatible_from) found, (ground arith, settled))
      ]
