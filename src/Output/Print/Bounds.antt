-- ===== src/Output/Print/Bounds.antt =====
-- How long the lines of `Dump::Print` are, and how much they hold.
use libmandrews.Prelude.{
  ℕ, zero, suc, ◌+◌, ◌-◌, ◌≤◌, ◌≡◌, ◌≢◌, refl, sym, ap, ◌∙◌, Bool, true, false, not, List, [], ◌∷◌,
  arith, ◌==◌, if◌then◌else◌, length, length-append, drop, Bool-cases, inl, inr, dec_lt, Returns,
}
use libmandrews.Output.Print.{newline, get, c_string, Line, after, print}
use libmandrews.Output.Print.Lines.{lines_of, print-lines_of}
use libmandrews.Output.Print.Rejoin.{get-drop}

abbrev pub NoNewline : List ℕ → Type 0
NoNewline [] = Unit
NoNewline (c ∷ text) = (c ≢ newline) × NoNewline text

-- Lines of text of at most `w` characters, no newline among them.
abbrev pub Short : ℕ → List Line → Type 0
Short w [] = Unit
Short w (l ∷ ls) = (length l.text ≤ w) × NoNewline l.text × Short w ls

abbrev pub characters : List Line → ℕ
characters [] = 0
characters (l ∷ ls) = length l.text + characters ls

-- The prompt stands before no line; or before none but the first, and before that just if `first`.
abbrev pub Indented : List Line → Type 0
Indented [] = Unit
Indented (l ∷ ls) = (l.first ≡ false) × Indented ls

abbrev pub Prompted : Bool → List Line → Type 0
Prompted first [] = Unit
Prompted first (l ∷ ls) = (l.first ≡ first) × Indented ls

Prompted-false : (ls : List Line) → Prompted false ls → Indented ls
Prompted-false [] v = tt
Prompted-false (l ∷ ls) v = v

get-short : (n : ℕ) (text : List ℕ) → (length (get n text) ≤ n) × NoNewline (get n text)
unfolding get
get-short zero text = (omega arith, tt)
get-short (suc n) [] = (omega arith, tt)
get-short (suc n) (c ∷ text) = elim (Bool-cases (c == newline)) [
  | inl nl ↦ rw nl (omega arith, tt)
  | inr other ↦ let (le, plain) = get-short n text in rw other (omega arith, (ground arith, plain))
]

c_string-short :
    (text : List ℕ)
    → (length (c_string text) ≤ length text) × (NoNewline text → NoNewline (c_string text))
unfolding c_string
c_string-short [] = (omega arith, λ u. u)
c_string-short (c ∷ text) = elim (Bool-cases (c == 0)) [
  | inl nul ↦ rw nul (omega arith, λ u. tt)
  | inr other ↦ let (le, keep) = c_string-short text in rw other (omega arith, λ u. (u.0, keep u.1))
]

after-le : (b : Bool) (text : List ℕ) → length (after b text) ≤ length text
after-le true text = omega arith
after-le false [] = omega arith
after-le false (c ∷ text) = omega arith

-- Lines that hold at most `n` characters, with the prompt before the first line at most, if `first`.
record Within (w n : ℕ) (first : Bool) (ls : List Line) : Type 0 where
  short : Short w ls
  held : characters ls ≤ n
  prompted : Prompted first ls

Within-or :
    {w n : ℕ} {first : Bool} (b : Bool) (l : Line) (ls : List Line)
    → l.first ≡ first
    → length l.text ≤ w
    → NoNewline l.text
    → Within w (n - length l.text) false ls
    → length l.text ≤ n
    → Within w n first (if b then [] else l ∷ ls)
Within-or true l ls e le plain v h = record { short = tt; held = omega arith; prompted = tt }
Within-or false l ls e le plain v h = record {
  short = (le, plain, v.short);
  held = omega (arith, v.held);
  prompted = (e, Prompted-false ls v.prompted);
}

Within-mono :
    {w n m : ℕ} {first : Bool} {ls : List Line} → n ≤ m → Within w n first ls → Within w m first ls
Within-mono le v = record { short = v.short; held = omega (arith, v.held); prompted = v.prompted }

lines_of-Within :
    (fuel w : ℕ) (ss : List ℕ) (starts first : Bool)
    → Within w (length ss) first (lines_of fuel w ss starts first)
unfolding lines_of
lines_of-Within zero w ss starts first = record { short = tt; held = omega arith; prompted = tt }
lines_of-Within (suc fuel) w ss starts first =
    let buffer = get w ss in
    let text = c_string buffer in
    let wrap = length text == w in
    let left = after wrap (drop (length buffer) ss) in
    let (le, plain) = get-short w ss in
    let (less, keep) = c_string-short buffer in
    let both : length buffer + length (drop (length buffer) ss) ≡ length ss =
      sym (length-append buffer (drop (length buffer) ss)) ∙ ap length (get-drop w ss) in
    Within-or (length buffer == 0) (record { first = first; carat = starts; text = text })
      (lines_of fuel w left (not wrap) false) refl (omega (arith, le, less)) (keep plain)
      (Within-mono (omega (arith, less, both, after-le wrap (drop (length buffer) ss)))
        (lines_of-Within fuel w left (not wrap) false))
      (omega (arith, less, both))

-- The lines below a total length, each behind its prompt or blanks and two columns.
abbrev pub Fit : ℕ → ℕ → List Line → Type 0
Fit total prefix [] = Unit
Fit total prefix (l ∷ ls) =
    (prefix + 2 + length l.text ≤ total) × NoNewline l.text × Fit total prefix ls

Short-Fit :
    (total prefix : ℕ) (ls : List Line)
    → prefix + 2 ≤ total
    → Short (total - prefix - 2) ls
    → Fit total prefix ls
Short-Fit total prefix [] h v = tt
Short-Fit total prefix (l ∷ ls) h (le, plain, v) =
    (omega arith, plain, Short-Fit total prefix ls h v)

-- For every message, width and prefix that leave room for at most the 1024 characters of the
-- buffer, Print returns; each line printed has with the prefix that Print is given and two
-- columns at most the width and holds no newline, the lines hold no more characters than the
-- message, and the prompt stands before the first line and before no other.
pub print-Fit :
    (total prefix : ℕ) (ss : List ℕ)
    → total ≤ prefix + 1026
    → Returns
        (print total prefix ss)
        (λ lines. Fit total prefix lines × (characters lines ≤ length ss) × Prompted true lines)
unfolding lines_of get
print-Fit total prefix ss fits =
    rw (print-lines_of total prefix ss fits) (elim (dec_lt total (prefix + 2)) [
      | yes narrow ↦
          let none_left : total - prefix - 2 ≡ 0 = omega arith in rw none_left (tt, omega arith, tt)
      | no room ↦
          let v = lines_of-Within (suc (length ss)) (total - prefix - 2) ss true true in
          (Short-Fit total prefix _ (omega arith) v.short, v.held, v.prompted)
    ])
