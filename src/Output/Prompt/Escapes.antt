-- ===== src/Output/Prompt/Escapes.antt =====
-- How wide a text looks on a terminal: the characters outside the escape sequences.
use libmandrews.Prelude.{
  ℕ, zero, suc, ◌+◌, ◌-◌, ◌≤◌, ◌≡◌, ◌≢◌, refl, Bool, true, false, List, [], ◌∷◌, ◌++◌, arith, ◌==◌,
  if◌then◌else◌, length, length-append, length-replicate, drop, replicate, Bool-cases, inl, inr,
}
use libmandrews.Output.Channel.{Channel, out, err, ftl, brk, dbg, dmy, buf, channel_color, escape}
use libmandrews.Output.Prompt.{space, bold, colon, pad, base_name, dots}

-- Inside an escape sequence, up to its `m`.
abbrev pub inside : Bool → ℕ → Bool
inside true c = if c == b'm' then false else true
inside false c = if c == escape then true else false

abbrev pub shown : Bool → ℕ → ℕ
shown true c = 0
shown false c = if c == escape then 0 else 1

unfoldable pub width_from : Bool → List ℕ → ℕ
width_from b [] = 0
width_from b (c ∷ text) = shown b c + width_from (inside b c) text

abbrev pub width : List ℕ → ℕ
width text = width_from false text

abbrev pub NoEscape : List ℕ → Type 0
NoEscape [] = Unit
NoEscape (c ∷ text) = (c ≢ escape) × NoEscape text

pub width-plain : (xs ys : List ℕ) → NoEscape xs → width (xs ++ ys) ≡ length xs + width ys
unfolding width_from
width-plain [] ys p = omega arith
width-plain (x ∷ xs) ys (ne, p) =
    let other : (x == escape) ≡ false = ground arith in
    rw other (omega (arith, width-plain xs ys p))

pub NoEscape-replicate : (n : ℕ) → NoEscape (replicate n space)
NoEscape-replicate zero = tt
NoEscape-replicate (suc n) = (omega arith, NoEscape-replicate n)

pub NoEscape-append : (xs ys : List ℕ) → NoEscape xs → NoEscape ys → NoEscape (xs ++ ys)
NoEscape-append [] ys p q = q
NoEscape-append (x ∷ xs) ys (ne, p) q = (ne, NoEscape-append xs ys p q)

pub NoEscape-drop : (n : ℕ) (xs : List ℕ) → NoEscape xs → NoEscape (drop n xs)
NoEscape-drop zero xs p = p
NoEscape-drop (suc n) [] p = tt
NoEscape-drop (suc n) (x ∷ xs) (ne, p) = NoEscape-drop n xs p

pub NoEscape-base_name :
    (name file : List ℕ) → NoEscape name → NoEscape file → NoEscape (base_name name file)
unfolding base_name
NoEscape-base_name name [] p q = p
NoEscape-base_name name (c ∷ file) p (ne, q) = elim (Bool-cases (c == b'/')) [
  | inl slash ↦ rw slash (NoEscape-base_name file file q q)
  | inr other ↦ rw other (NoEscape-base_name name file p q)
]

pub NoEscape-pad : (n : ℕ) (xs : List ℕ) → NoEscape xs → NoEscape (pad n xs)
NoEscape-pad n xs p =
    NoEscape-append (replicate (n - length xs) space) xs (NoEscape-replicate (n - length xs)) p

pub length-pad : (n : ℕ) (xs : List ℕ) → length xs ≤ n → length (pad n xs) ≡ n
length-pad n xs h = omega (
  arith,
  length-append (replicate (n - length xs) space) xs,
  length-replicate (n - length xs) space,
)

-- The colour of a channel takes seven characters and does not show.
pub width-color : (c : Channel) (ys : List ℕ) → width (channel_color c ++ ys) ≡ width ys
unfolding width_from channel_color
width-color out ys = omega arith
width-color err ys = omega arith
width-color ftl ys = omega arith
width-color brk ys = omega arith
width-color dbg ys = omega arith
width-color dmy ys = omega arith
width-color buf ys = omega arith

pub length-color : (c : Channel) → length (channel_color c) ≡ 7
unfolding channel_color
length-color out = refl
length-color err = refl
length-color ftl = refl
length-color brk = refl
length-color dbg = refl
length-color dmy = refl
length-color buf = refl

pub width-bold : (ys : List ℕ) → width (bold ++ ys) ≡ width ys
unfolding width_from
width-bold ys = omega arith

pub width-colon : (ys : List ℕ) → width (colon ++ ys) ≡ 1 + width ys
unfolding width_from
width-colon ys = omega arith

pub width-dots : (ys : List ℕ) → width (dots (bold ++ ys)) ≡ 7 + width ys
unfolding width_from
width-dots ys = omega arith
