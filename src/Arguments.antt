-- ===== src/Arguments.antt =====
-- The class template `Arguments` of arguments.h: a column for each parameter of a test, and a row for
-- each argument list. The parameters' types are one type of values here. `none` is a row of the wrong
-- length, which the compiler refuses, or a list that was not added.
pub mod Rows
pub mod Kinds
use libmandrews.Prelude.{
  ℕ, zero, suc, Option, none, some, List, [], ◌∷◌, ◌++◌, length, get_elem?, ◌>>=◌,
}

module _ {V : Type 0} where
  -- `Add`: one value to each column.
  unfoldable pub add : List (List V) → List V → Option (List (List V))
  add [] [] = some []
  add [] (a ∷ args) = none
  add (m ∷ ms) [] = none
  add (m ∷ ms) (a ∷ args) = do rest ← add ms args; some ((m ++ a ∷ []) ∷ rest)

  -- `CallHelper`: the values of a row are gathered behind `args`, and are what the function is given.
  unfoldable pub call_helper : ℕ → List (List V) → List V → Option (List V)
  call_helper list [] args = some args
  call_helper list (m ∷ ms) args = do a ← get_elem? m list; call_helper list ms (args ++ a ∷ [])

  unfoldable pub call : ℕ → List (List V) → Option (List V)
  unfolding call_helper
  call list ms = call_helper list ms []

  -- `Num`, which is 1 without parameters.
  unfoldable pub num : List (List V) → ℕ
  num [] = 1
  num (m ∷ ms) = length m

  -- The columns of a test with `k` parameters.
  abbrev pub blank : ℕ → List (List V)
  blank zero = []
  blank (suc k) = [] ∷ blank k

  -- `TemplatedCase::operator()`, once for each list.
  unfoldable pub add_all : List (List V) → List (List V) → Option (List (List V))
  unfolding add
  add_all ms [] = some ms
  add_all ms (row ∷ rows) = do ms ← add ms row; add_all ms rows
