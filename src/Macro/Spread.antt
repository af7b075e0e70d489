-- ===== src/Macro/Spread.antt =====
-- `REVERSE`, `LAST`, `APPEND` and `REPEAT`.
use mathlib.Core.List
use libmandrews.Prelude.{
  ℕ, zero, suc, ◌≤◌, ◌≡◌, ◌≢◌, refl, sym, ap, ◌∙◌, true, some, List, [], ◌∷◌, ◌++◌, append-nil,
  arith, length, length-append, leb, replicate,
}
use libmandrews.Macro.{
  Tokens, comma, identity, reverse__reduce, comma_separate, space_separate, rest, limit, present,
  map_reduce, repeat_at,
}
use libmandrews.Macro
use libmandrews.Macro.Reduce.{foldr1, map_reduce-foldr1, commas, commas-snoc}

-- The same, for any list with a last member.
commas-snoc_of :
    (l : List Tokens) (a : Tokens) → l ≢ [] → commas (l ++ a ∷ []) ≡ commas l ++ comma ∷ a
commas-snoc_of [] a ne = absurd (ne refl)
commas-snoc_of (b ∷ l) a ne = commas-snoc b l a

reverse-ne : (b : Tokens) (args : List Tokens) → List.reverse (b ∷ args) ≢ []
reverse-ne b args e = omega (
  arith,
  ap length (sym (List.reverse-cons b args) ∙ e),
  length-append (List.reverse args) (b ∷ []),
)

foldr1-reverse :
    (args : List Tokens) → foldr1 identity reverse__reduce args ≡ commas (List.reverse args)
foldr1-reverse [] = refl
foldr1-reverse (a ∷ []) = refl
foldr1-reverse (a ∷ b ∷ args) =
    ap (λ l. l ++ comma ∷ a) (foldr1-reverse (b ∷ args))
    ∙ sym (commas-snoc_of (List.reverse (b ∷ args)) a (reverse-ne b args))
    ∙ ap commas (sym (List.reverse-append (a ∷ []) (b ∷ args)))

-- REVERSE of up to 43 arguments expands to the arguments in reverse order, with commas between
-- them.
pub reverse-commas :
    (args : List Tokens)
    → length args ≤ limit
    → Macro.reverse args ≡ some (commas (List.reverse (present args)))
unfolding Macro.reverse
reverse-commas args h =
    map_reduce-foldr1 identity reverse__reduce args h ∙ ap some (foldr1-reverse (present args))

abbrev pub concat : List Tokens → Tokens
concat [] = []
concat (a ∷ args) = a ++ concat args

foldr1-concat : (args : List Tokens) → foldr1 identity space_separate args ≡ concat args
foldr1-concat [] = refl
foldr1-concat (a ∷ []) = sym (append-nil a)
foldr1-concat (a ∷ b ∷ args) = ap (λ l. a ++ l) (foldr1-concat (b ∷ args))

-- The last of the arguments, and nothing if there are none.
abbrev pub final : List Tokens → Tokens
final [] = []
final (a ∷ []) = a
final (a ∷ b ∷ args) = final (b ∷ args)

foldr1-final : (args : List Tokens) → foldr1 identity rest args ≡ final args
foldr1-final [] = refl
foldr1-final (a ∷ []) = refl
foldr1-final (a ∷ b ∷ args) = foldr1-final (b ∷ args)

concat-present : (args : List Tokens) → concat (present args) ≡ concat args
concat-present [] = refl
concat-present ([] ∷ []) = refl
concat-present ([] ∷ b ∷ args) = refl
concat-present ((t ∷ a) ∷ args) = refl

final-present : (args : List Tokens) → final (present args) ≡ final args
final-present [] = refl
final-present ([] ∷ []) = refl
final-present ([] ∷ b ∷ args) = refl
final-present ((t ∷ a) ∷ args) = refl

-- Of up to 43 arguments, APPEND expands to all their tokens in order and LAST to the last of
-- them.
pub append-last :
    (args : List Tokens)
    → length args ≤ limit
    → (Macro.append args ≡ some (concat args)) × (Macro.last args ≡ some (final args))
unfolding Macro.append Macro.last
append-last args h = (
  map_reduce-foldr1 identity space_separate args h
      ∙ ap some (foldr1-concat (present args) ∙ concat-present args),
  map_reduce-foldr1 identity rest args h
      ∙ ap some (foldr1-final (present args) ∙ final-present args),
)

repeat_at-commas :
    (n : ℕ) (a : Tokens) → repeat_at n identity comma_separate a ≡ commas (replicate n a)
unfolding repeat_at
repeat_at-commas zero a = refl
repeat_at-commas (suc zero) a = refl
repeat_at-commas (suc (suc n)) a = ap (λ l. a ++ comma ∷ l) (repeat_at-commas (suc n) a)

-- REPEAT up to 43 times expands to so many copies of its argument with commas between them.
pub repeat-commas :
    (n : ℕ) (a : Tokens) → n ≤ limit → Macro.repeat n a ≡ some (commas (replicate n a))
unfolding Macro.repeat
repeat-commas n a h =
    let fits : leb n limit ≡ true = ground arith in rw fits (ap some (repeat_at-commas n a))
