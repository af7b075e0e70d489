-- ===== src/Output/Ask.antt =====
-- The class `Prompt` of output.h, a line that readline has read. What it answers is an argument: null at
-- the end of the input. `none` is a use of the null pointer.
use libmandrews.Prelude.{
  ◌≡◌, refl, ℕ, Option, none, some, List, [], ◌∷◌, ◌++◌, append_assoc, append-nil, ◌>>=◌, map,
}

pub record Prompt : Type 0 where
  pub line : List ℕ

-- The constructor, with the history of readline.
unfoldable pub prompt : Option (List ℕ) → List (List ℕ) → Option (Prompt × List (List ℕ))
prompt none history = none
prompt (some line) history = some (record { line = line }, history ++ line ∷ [])

-- `operator>>`, and the conversion to a string.
unfoldable pub extract : Prompt → List ℕ
extract p = p.line

-- One prompt after another, and the lines that they give.
unfoldable pub ask_all :
    List (Option (List ℕ)) → List (List ℕ) → Option (List (List ℕ) × List (List ℕ))
unfolding prompt extract
ask_all [] history = some ([], history)
ask_all (answer ∷ answers) history = do
  (p, history) ← prompt answer history
  (lines, history) ← ask_all answers history
  some (extract p ∷ lines, history)

-- Prompts that are all answered give the lines in their order, and the history has them behind its own.
pub ask_all_lem :
    (lines history : List (List ℕ))
    → ask_all (map some lines) history ≡ some (lines, history ++ lines)
unfolding ask_all prompt extract
ask_all_lem [] history = rw (append-nil history) refl
ask_all_lem (line ∷ lines) history =
    rw (ask_all_lem lines (history ++ line ∷ []), append_assoc history (line ∷ []) lines) refl
