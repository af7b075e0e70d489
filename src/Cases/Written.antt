-- ===== src/Cases/Written.antt =====
-- The macros `CASE_` and `ARGS__MAP` of cases.h: what stands between the case that they create and its
-- function. `literal` is the string literal that `#` makes of a text, one token.
use libmandrews.Prelude.{
  ◌≤◌, ◌≡◌, refl, sym, ap, ◌∙◌, ℕ, Option, some, List, [], ◌∷◌, ◌++◌, append-nil, arith, length,
  ◌>>=◌,
}
use libmandrews.Macro.{Tokens, limit, present, space_separate, default, map_reduce}
use libmandrews.Macro.Count.{length-present, given, default-given}
use libmandrews.Macro.Reduce.{foldr1, map_reduce-foldr1}

abbrev pub parens : Tokens
parens = b'(' ∷ b')' ∷ []

present-given :
    (args : List Tokens) → present (given parens (present args)) ≡ given parens (present args)
present-given [] = refl
present-given ([] ∷ []) = refl
present-given ([] ∷ b ∷ args) = refl
present-given ((t ∷ a) ∷ args) = refl

length-given : (args : List Tokens) → length args ≤ limit → length (given parens args) ≤ limit
length-given [] h = omega arith
length-given (a ∷ args) h = h

module _ (literal : Tokens → ℕ) where
  -- `[#a] a`
  unfoldable pub args__map : Tokens → Tokens
  args__map a = b'[' ∷ literal a ∷ b']' ∷ a

  -- `MAP_REDUCE(ARGS__MAP, SPACE_SEPARATE, DEFAULT((), …))`
  unfoldable pub case_lists : List Tokens → Option Tokens
  unfolding args__map default map_reduce
  case_lists args = do lists ← default parens args; map_reduce args__map space_separate lists

  -- A name and an argument list after another.
  abbrev pub declared : List Tokens → Tokens
  declared [] = []
  declared (a ∷ args) = (b'[' ∷ literal a ∷ b']' ∷ a) ++ declared args

  foldr1-declared : (args : List Tokens) → foldr1 args__map space_separate args ≡ declared args
  unfolding args__map
  foldr1-declared [] = refl
  foldr1-declared (a ∷ []) = sym (append-nil _)
  foldr1-declared (a ∷ b ∷ args) =
      ap (λ l. (b'[' ∷ literal a ∷ b']' ∷ a) ++ l) (foldr1-declared (b ∷ args))

  -- For up to 43 argument lists CASE expands to each list behind its text in brackets, in their
  -- order, and for none to the empty list under its own text.
  pub case_lists_lem :
      (args : List Tokens)
      → length args ≤ limit
      → case_lists args ≡ some (declared (given parens (present args)))
  unfolding case_lists
  case_lists_lem args h =
      let fits = length-given (present args) (omega (arith, h, length-present args)) in
      rw (default-given parens args h) (
        map_reduce-foldr1 args__map space_separate (given parens (present args)) fits
        ∙ ap (λ l. some (foldr1 args__map space_separate l)) (present-given args)
        ∙ ap some (foldr1-declared (given parens (present args))))
