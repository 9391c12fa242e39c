-- ===== src/Cmd/Flags/Exclusive.antt =====
-- cmd/utils/flags.go: the arguments of `CheckExclusive`, as they are meant.
use ecgeth.Base.{
  ◌≡◌, refl, ltb, Bool, true, false, none, some, List, [], ◌∷◌, String, length, if◌then◌else◌,
}
use ecgeth.Base.Outcome.{ok, err, then_ok}
use ecgeth.Cmd.Flags.{
  Arg, flag, option, SetFlag, not_exclusive, Context, prepend_if, set_flags, at_most_one,
  check_exclusive,
}

-- What a caller means: a flag, or a flag with a value.
pub data Choice : Type 0 where
  plain : String → Choice
  valued : String → String → Choice

abbrev pub arguments : List Choice → List Arg
arguments [] = []
arguments (plain f ∷ cs) = flag f ∷ arguments cs
arguments (valued f o ∷ cs) = flag f ∷ option o ∷ arguments cs

module _ (ctx : Context) where
  -- The choices that the user has made.
  abbrev pub chosen : List Choice → List SetFlag
  chosen [] = []
  chosen (plain f ∷ cs) =
      let rest = chosen cs in
      if ctx.is_set f then record { name = f; value = none } ∷ rest else rest
  chosen (valued f o ∷ cs) =
      let rest = chosen cs in
      if ctx.has_value f o then record { name = f; value = some o } ∷ rest else rest

  prepend_if-if :
      (c : Bool) (f : SetFlag) (fs : List SetFlag)
      → prepend_if ctx c f fs ≡ ok (if c then f ∷ fs else fs)
  prepend_if-if true f fs = refl
  prepend_if-if false f fs = refl

  set_flags-chosen : (cs : List Choice) → set_flags ctx (arguments cs) ≡ ok (chosen cs)
  unfolding set_flags
  set_flags-chosen [] = refl
  set_flags-chosen (valued f o ∷ cs) =
      then_ok _ (set_flags-chosen cs) (prepend_if-if (ctx.has_value f o) _ (chosen cs))
  set_flags-chosen (plain f ∷ []) = prepend_if-if (ctx.is_set f) _ []
  set_flags-chosen (plain f ∷ plain g ∷ cs) =
      then_ok _ (set_flags-chosen (plain g ∷ cs))
        (prepend_if-if (ctx.is_set f) _ (chosen (plain g ∷ cs)))
  set_flags-chosen (plain f ∷ valued g o ∷ cs) =
      then_ok _ (set_flags-chosen (valued g o ∷ cs))
        (prepend_if-if (ctx.is_set f) _ (chosen (valued g o ∷ cs)))

  -- For any list of flags, some of them with a value, `CheckExclusive` reads its untyped arguments as
  -- they are meant, without a panic: it ends the program exactly if more than one choice was made, where
  -- a flag with a value counts only if it has that value, and names all choices that were made.
  pub check_exclusive-chosen :
      (cs : List Choice)
      → check_exclusive ctx (arguments cs)
        ≡ (if ltb 1 (length (chosen cs)) then err (not_exclusive (chosen cs)) else ok true)
  unfolding check_exclusive
  check_exclusive-chosen cs = then_ok (at_most_one ctx) (set_flags-chosen cs) refl
