-- ===== src/Macro/Tests.antt =====
-- Macros of a few arguments, and of one too many.
use libmandrews.Prelude.{◌≡◌, some, List, [], ◌∷◌, arith, replicate}
use libmandrews.Macro.{Tokens, arg, num_args}
use libmandrews.Macro.Count.{num_args-overflow}

abbrev two : List Tokens
two = (b'a' ∷ []) ∷ (b'b' ∷ b'c' ∷ []) ∷ []

abbrev many : List Tokens
many = replicate 44 (b'a' ∷ [])

num_args-overflow_example : (a : Tokens) × (num_args many ≡ some (arg a))
num_args-overflow_example = num_args-overflow many (omega arith)
