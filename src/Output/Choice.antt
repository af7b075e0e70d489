-- ===== src/Output/Choice.antt =====
-- The class `Choice` of output.h: a question with its options, and the answer. What a stream makes of an
-- option is a parameter.
use libmandrews.Prelude.{
  ℕ, ◌+◌, ◌≡◌, refl, ap, Bool, false, ◌||◌, Option, none, some, List, [], ◌∷◌, ◌++◌, append-nil,
  arith, ◌==◌, if◌then◌else◌,
}
use libmandrews.Output.Channel.{codes}
use libmandrews.Output.Dump.{choose}

abbrev pub is_option : List ℕ → ℕ → Bool
is_option [] t = false
is_option (o ∷ options) t = (t == o) || is_option options t

-- The loop of the constructor, from option `i` on.
unfoldable pub list_from : (ℕ → List ℕ) → ℕ → List ℕ → List ℕ
list_from show i [] = []
list_from show i (o ∷ options) =
    let rest = list_from show (i + 1) options in
    (if i == 0 then [] else codes "/") ++ (show o ++ rest)

unfoldable pub ask : (ℕ → List ℕ) → List ℕ → List ℕ → List ℕ
unfolding list_from
ask show question options = question ++ (codes " (" ++ (list_from show 0 options ++ codes ") "))

-- `operator>>`: it reads until an option comes.
unfoldable pub choose_from : List ℕ → List ℕ → Option ℕ
choose_from options [] = none
choose_from options (t ∷ input) =
    let again = choose_from options input in if is_option options t then some t else again

-- The question that `flush` asks is such a choice.
pub choose-yes_no : (input : List ℕ) → choose input ≡ choose_from (b'y' ∷ b'n' ∷ []) input
unfolding choose choose_from
choose-yes_no [] = refl
choose-yes_no (t ∷ input) = ground (arith, choose-yes_no input)

-- The first option of the input is the answer, if what stands before it are no options.
abbrev pub NoOption : List ℕ → List ℕ → Type 0
NoOption options [] = Unit
NoOption options (t ∷ input) = (is_option options t ≡ false) × NoOption options input

pub choose_from-append :
    (options before input : List ℕ)
    → NoOption options before
    → choose_from options (before ++ input) ≡ choose_from options input
unfolding choose_from
choose_from-append options [] input n = refl
choose_from-append options (t ∷ before) input (no_t, n) =
    rw no_t (choose_from-append options before input n)

-- The options with strokes between them.
abbrev pub with_strokes : (ℕ → List ℕ) → ℕ → List ℕ → List ℕ
with_strokes show o [] = show o
with_strokes show o (p ∷ options) = show o ++ (codes "/" ++ with_strokes show p options)

list_from-strokes :
    (show : ℕ → List ℕ) (i o : ℕ) (options : List ℕ)
    → list_from show (i + 1) (o ∷ options) ≡ codes "/" ++ with_strokes show o options
unfolding list_from
list_from-strokes show i o [] =
    let later : (i + 1 == 0) ≡ false = ground arith in
    rw later (ap (λ t. codes "/" ++ t) (append-nil (show o)))
list_from-strokes show i o (p ∷ options) =
    let later : (i + 1 == 0) ≡ false = ground arith in
    rw later (ap (λ t. codes "/" ++ (show o ++ t)) (list_from-strokes show (i + 1) p options))

-- A choice with at least one option asks its question with the options in parentheses and strokes
-- between them.
pub ask-strokes :
    (show : ℕ → List ℕ) (question : List ℕ) (o : ℕ) (options : List ℕ)
    → ask show question (o ∷ options)
      ≡ question ++ (codes " (" ++ (with_strokes show o options ++ codes ") "))
unfolding ask list_from
ask-strokes show question o [] =
    ap (λ t. question ++ (codes " (" ++ (t ++ codes ") "))) (append-nil (show o))
ask-strokes show question o (p ∷ options) =
    ap (λ t. question ++ (codes " (" ++ ((show o ++ t) ++ codes ") ")))
      (list_from-strokes show 0 p options)
