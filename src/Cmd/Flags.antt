-- ===== src/Cmd/Flags.antt =====
-- cmd/utils/flags.go: `CheckExclusive`, `SplitAndTrim`, `SplitTagsFlag`, `setWhitelist` and `setLes`.
-- The flags and their values come from the package cli, and the functions on strings and numbers from
-- the packages strings, strconv and common. `Fatalf`, which ends the program, is an error.
pub mod Exclusive
use ecgeth.Base.{
  ℕ, ◌==◌, leb, ltb, Bool, true, false, ◌&&◌, not, Option, none, some, List, [], ◌∷◌, String, Hash,
  length, if◌then◌else◌,
}
use ecgeth.Base.Int.{ℤ, pos, leb_ℤ, ltb_ℤ}
use ecgeth.Base.Outcome.{Outcome, ok, err, panics, ◌>>=◌}

-- An argument of `CheckExclusive`: a flag by its name, a string, or a value of another type.
pub data Arg : Type 0 where
  flag option : String → Arg
  other : Arg

-- A flag that counts as set, and the value that it was asked for.
pub record SetFlag : Type 0 where
  pub name : String
  pub value : Option String

pub data Fatal : Type 0 where
  not_exclusive : List SetFlag → Fatal
  bad_entry bad_number bad_hash : Fatal

-- `GlobalIsSet`, whether `GlobalString` is a string, and the functions on strings.
pub record Context : Type 0 where
  pub is_set : String → Bool
  pub has_value : String → String → Bool
  pub split : String → String → List String
  pub trim : String → String
  pub is_empty_string : String → Bool
  pub parse_uint : String → Option ℕ
  pub unmarshal_hash : String → Option Hash

module _ (ctx : Context) where
  abbrev prepend_if : Bool → SetFlag → List SetFlag → Outcome Fatal (List SetFlag)
  prepend_if true f fs = ok (f ∷ fs)
  prepend_if false f fs = ok fs

  -- The loop over the arguments: the flags that count as set.
  unfoldable pub set_flags : List Arg → Outcome Fatal (List SetFlag)
  set_flags [] = ok []
  set_flags (option o ∷ args) = panics
  set_flags (other ∷ args) = panics
  set_flags (flag f ∷ []) = prepend_if (ctx.is_set f) (record { name = f; value = none }) []
  set_flags (flag f ∷ other ∷ args) = panics
  set_flags (flag f ∷ option o ∷ args) =
      set_flags args >>= prepend_if (ctx.has_value f o) (record { name = f; value = some o })
  set_flags (flag f ∷ flag g ∷ args) =
      set_flags (flag g ∷ args) >>= prepend_if (ctx.is_set f) (record { name = f; value = none })

  abbrev at_most_one : List SetFlag → Outcome Fatal Bool
  at_most_one fs = if ltb 1 (length fs) then err (not_exclusive fs) else ok true

  -- `true` stands for the return.
  unfoldable pub check_exclusive : List Arg → Outcome Fatal Bool
  unfolding set_flags
  check_exclusive args = set_flags args >>= at_most_one

  abbrev trimmed : List String → List String
  trimmed [] = []
  trimmed (s ∷ ss) =
      let rest = trimmed ss in if ctx.is_empty_string (ctx.trim s) then rest else ctx.trim s ∷ rest

  unfoldable pub split_and_trim : String → List String
  split_and_trim input = trimmed (ctx.split input ",")

  -- A map as a list, of which the last entry for a key counts.
  abbrev tag : List String → List (String × String) → List (String × String)
  tag (k ∷ v ∷ []) tags = (k, v) ∷ tags
  tag _ tags = tags

  abbrev tags_of : List String → List (String × String)
  tags_of [] = []
  tags_of (t ∷ ts) =
      let rest = tags_of ts in if ctx.is_empty_string t then rest else tag (ctx.split t "=") rest

  unfoldable pub split_tags_flag : String → List (String × String)
  split_tags_flag flags = tags_of (ctx.split flags ",")

  abbrev numbered : Option ℕ → Option Hash → Outcome Fatal (ℕ × Hash)
  numbered none hash = err bad_number
  numbered (some n) none = err bad_hash
  numbered (some n) (some hash) = ok (n, hash)

  abbrev whitelist_entry : List String → Outcome Fatal (ℕ × Hash)
  whitelist_entry (n ∷ hash ∷ []) = numbered (ctx.parse_uint n) (ctx.unmarshal_hash hash)
  whitelist_entry _ = err bad_entry

  abbrev whitelist_of : List String → Outcome Fatal (List (ℕ × Hash))
  whitelist_of [] = ok []
  whitelist_of (e ∷ es) =
      whitelist_entry (ctx.split e "=") >>= λ entry. whitelist_of es >>= λ rest. ok (entry ∷ rest)

  -- The new whitelist, or none if the flag is empty.
  unfoldable pub set_whitelist : String → Outcome Fatal (Option (List (ℕ × Hash)))
  set_whitelist flag_value =
      if ctx.is_empty_string flag_value
      then ok none
      else whitelist_of (ctx.split flag_value ",") >>= λ entries. ok (some entries)

-- The test of `setLes` on the fraction, and the default.
unfoldable pub ultra_light_fraction : ℤ → ℤ → ℤ
ultra_light_fraction default fraction =
    if leb_ℤ fraction (pos 0) && ltb_ℤ (pos 100) fraction then default else fraction
