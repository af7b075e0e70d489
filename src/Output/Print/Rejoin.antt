-- ===== src/Output/Print/Rejoin.antt =====
-- The lines of `Dump::Print`, put together again.
use libmandrews.Prelude.{
  ℕ, zero, suc, ◌+◌, ◌-◌, ◌<◌, ◌≡◌, ◌≢◌, refl, ap, ◌∙◌, Bool, true, false, not, List, [], ◌∷◌, ◌++◌,
  arith, ◌==◌, if◌then◌else◌, length, length-append, drop, Bool-cases, inl, inr, Returns, ◌≤◌,
}
use libmandrews.Output.Print.{newline, get, c_string, Line, after, print}
use libmandrews.Output.Print.Lines.{lines_of, print-lines_of}
use libmandrews.Output.Print.Truncation.{get-nil, stop-at}

-- The lines put together again: a carat stands for a newline before its line.
abbrev pub rejoin : List Line → List ℕ
rejoin [] = []
rejoin (l ∷ ls) = if l.carat then newline ∷ (l.text ++ rejoin ls) else l.text ++ rejoin ls

abbrev pub column : ℕ → ℕ → ℕ
column w c = if c + 1 == w then 0 else c + 1

-- A message, read from column `c` of a line of output, in which no line but the last has a length that
-- is a multiple of `w`, which does not end in a newline and holds no NUL.
abbrev pub Printable : ℕ → ℕ → List ℕ → Type 0
Printable w c [] = Unit
Printable w c (x ∷ text) =
    if x == newline
    then (c ≢ 0) × (text ≢ []) × Printable w 0 text
    else (x ≢ 0) × Printable w (column w c) text

-- How one read of at most `n` characters, from column `c`, leaves a printable message.
data Cut (w c n : ℕ) (buffer rest : List ℕ) : Type 0 where
  full : length buffer ≡ n → Printable w 0 rest → Cut w c n buffer rest
  ended : length buffer < n → rest ≡ [] → Cut w c n buffer rest
  broken :
      (later : List ℕ)
      → length buffer < n
      → c + length buffer ≢ 0
      → rest ≡ newline ∷ later
      → later ≢ []
      → Printable w 0 later
      → Cut w c n buffer rest

Cut-cons :
    {w c n : ℕ} {buffer rest : List ℕ} (x : ℕ)
    → Cut w (c + 1) n buffer rest
    → Cut w c (suc n) (x ∷ buffer) rest
Cut-cons x (full e p) = full (omega arith) p
Cut-cons x (ended h e) = ended (omega arith) e
Cut-cons x (broken later h ne e some_left p) =
    broken later (omega arith) (omega arith) e some_left p

Cut-lem :
    (w c m : ℕ) (text : List ℕ)
    → c + suc m ≡ w
    → Printable w c text
    → Cut w c (suc m) (get (suc m) text) (drop (length (get (suc m) text)) text)
unfolding get
Cut-lem w c m [] e p = ended (omega arith) refl
Cut-lem w c zero (x ∷ text) e p = elim (Bool-cases (x == newline)) [
  | inl nl ↦
      let (ne, some_left, p') = (rw nl at p) in
      rw nl (broken text (omega arith) (omega arith) (ground arith) some_left p')
  | inr other ↦
      let (_, p') = (rw other at p) in
      let col : (c + 1 == w) ≡ true = ground arith in rw other (full refl (rw col at p'))
]
Cut-lem w c (suc m) (x ∷ text) e p = elim (Bool-cases (x == newline)) [
  | inl nl ↦
      let (ne, some_left, p') = (rw nl at p) in
      rw nl (broken text (omega arith) (omega arith) (ground arith) some_left p')
  | inr other ↦
      let (_, p') = (rw other at p) in
      let col : (c + 1 == w) ≡ false = ground arith in
      rw other (Cut-cons x (Cut-lem w (c + 1) m text (omega arith) (rw col at p')))
]

-- What a read takes and what it leaves are the message.
pub get-drop : (n : ℕ) (text : List ℕ) → get n text ++ drop (length (get n text)) text ≡ text
unfolding get
get-drop zero text = refl
get-drop (suc n) [] = refl
get-drop (suc n) (x ∷ text) = ground (arith, get-drop n text)

-- No NUL is read from a printable message.
c_string-get : (n w c : ℕ) (text : List ℕ) → Printable w c text → c_string (get n text) ≡ get n text
unfolding get c_string
c_string-get zero w c text p = refl
c_string-get (suc n) w c [] p = refl
c_string-get (suc n) w c (x ∷ text) p = elim (Bool-cases (x == newline)) [
  | inl nl ↦ rw nl refl
  | inr other ↦
      let (no_nul, p') = (rw other at p) in
      let nz : (x == 0) ≡ false = ground arith in
      rw (other, nz) (ap (λ l. x ∷ l) (c_string-get n w (column w c) text p'))
]

-- A message as `rejoin` gives it back: behind a newline if its first line begins with a carat.
abbrev pub marked : Bool → List ℕ → List ℕ
marked starts [] = []
marked true (x ∷ text) = newline ∷ x ∷ text
marked false (x ∷ text) = x ∷ text

marked-false : (text : List ℕ) → marked false text ≡ text
marked-false [] = refl
marked-false (x ∷ text) = refl

marked-true : (text : List ℕ) → text ≢ [] → marked true text ≡ newline ∷ text
marked-true [] ne = absurd (ne refl)
marked-true (x ∷ text) ne = refl

module _ (m : ℕ) where
  abbrev w : ℕ
  w = suc m

  get-other : (x : ℕ) (text : List ℕ) → (x == newline) ≡ false → get w (x ∷ text) ≡ x ∷ get m text
  unfolding get
  get-other x text other = rw other refl

  one_line :
      (fuel x : ℕ) (buffer text rest : List ℕ) (starts first : Bool)
      → get w text ≡ x ∷ buffer
      → drop (length (x ∷ buffer)) text ≡ rest
      → c_string (x ∷ buffer) ≡ x ∷ buffer
      → lines_of (suc fuel) w text starts first
        ≡ (record { first = first; carat = starts; text = x ∷ buffer })
          ∷ lines_of fuel w
              (after (length (x ∷ buffer) == w) rest)
              (not (length (x ∷ buffer) == w))
              false
  unfolding lines_of
  one_line fuel x buffer text rest starts first got left same =
      let some_read : (suc (length buffer) == 0) ≡ false = ground arith in
      rw (got, same, left, some_read) refl

  -- The lines after the first give back what the first leaves.
  rejoin-tail :
      (fuel x : ℕ) (buffer rest : List ℕ)
      → length rest < fuel
      → ((t : List ℕ) (b : Bool)
          → length t < fuel
          → Printable w 0 t
          → rejoin (lines_of fuel w t b false) ≡ marked b t)
      → Cut w 0 w (x ∷ buffer) rest
      → rejoin (
          lines_of fuel w
            (after (length (x ∷ buffer) == w) rest)
            (not (length (x ∷ buffer) == w))
            false)
        ≡ rest
  rejoin-tail fuel x buffer rest h ih (full e p) =
      let wrap : (suc (length buffer) == w) ≡ true = ground arith in
      rw wrap (ih rest false h p ∙ marked-false rest)
  rejoin-tail fuel x buffer rest h ih (ended e none_left) =
      let wrap : (suc (length buffer) == w) ≡ false = ground arith in
      rw (wrap, none_left) (ih [] true (omega arith) tt)
  rejoin-tail fuel x buffer rest h ih (broken later e ne left some_left p) =
      let wrap : (suc (length buffer) == w) ≡ false = ground arith in
      let fits : length later < fuel = omega (arith, ap length left) in
      rw (wrap, left) (ih later true fits p ∙ marked-true later some_left)

  by_start :
      (b : Bool) (x : ℕ) (l : List ℕ) → (if b then newline ∷ x ∷ l else x ∷ l) ≡ marked b (x ∷ l)
  by_start true x l = refl
  by_start false x l = refl

  rejoin-loop :
      (fuel : ℕ) (text : List ℕ) (starts first : Bool)
      → length text < fuel
      → Printable w 0 text
      → rejoin (lines_of fuel w text starts first) ≡ marked starts text
  rejoin-loop zero text starts first h p = absurd (omega arith)
  rejoin-loop (suc fuel) [] starts first h p =
      ap rejoin (stop-at (suc fuel) w [] starts first (get-nil w))
  rejoin-loop (suc fuel) (x ∷ text) starts first h p = elim (Bool-cases (x == newline)) [
    | inl nl ↦ let (ne, _, _) = (rw nl at p) in absurd (ne refl)
    | inr other ↦
        let buffer = get m text in
        let rest = drop (length buffer) text in
        let got : get w (x ∷ text) ≡ x ∷ buffer = get-other x text other in
        let left : drop (length (x ∷ buffer)) (x ∷ text) ≡ rest = refl in
        let same : c_string (x ∷ buffer) ≡ x ∷ buffer =
          (rw got at (c_string-get w w 0 (x ∷ text) p)) in
        let cut : Cut w 0 w (x ∷ buffer) rest =
          (rw got at (Cut-lem w 0 m (x ∷ text) (omega arith) p)) in
        let tail =
          rejoin-tail fuel x buffer rest
            (omega (arith, ap length (get-drop m text), length-append buffer rest))
            (λ t b. rejoin-loop fuel t b false) cut in
        ap rejoin (one_line fuel x buffer (x ∷ text) rest starts first got left same)
        ∙ rw (tail, get-drop m text) (by_start starts x text)
  ]

-- With room for at least one character and at most the 1024 of the buffer, a non-empty message in
-- which no line but the last has a length that is a multiple of the room, with no NUL and no
-- newline at its end, is printed whole: Print returns, and the lines printed give the message
-- back.
pub print-rejoin :
    (total prefix : ℕ) (ss : List ℕ)
    → prefix + 2 < total
    → total ≤ prefix + 1026
    → ss ≢ []
    → Printable (total - prefix - 2) 0 ss
    → Returns (print total prefix ss) (λ lines. rejoin lines ≡ newline ∷ ss)
print-rejoin total prefix ss room fits ne p =
    let e : total - prefix - 2 ≡ suc (total - prefix - 3) = omega arith in
    let q : Printable (suc (total - prefix - 3)) 0 ss = (rw e at p) in
    rw (print-lines_of total prefix ss fits, e)
      (rejoin-loop (total - prefix - 3) (suc (length ss)) ss true true (omega arith) q
        ∙ marked-true ss ne)
