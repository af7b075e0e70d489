-- ===== src/Loops/Reverse.antt =====
-- FOR and IFOR.
use libmandrews.Prelude.{
  ℕ, zero, suc, ◌+◌, ◌-◌, ◌≤◌, ◌<◌, ◌≡◌, refl, sym, ap, ◌∙◌, true, false, some, List, [], ◌∷◌, ◌++◌,
  reverse, append-nil, arith, ltb,
}
use mathlib.Core.List.{reverse_aux}
use libmandrews.Loops.{int_max, cons_to, step, for_loop, istep, ifor}

-- The numbers from `l` on, `n` of them.
abbrev pub up : ℕ → ℕ → List ℕ
up l zero = []
up l (suc n) = l ∷ up (l + 1) n

-- The numbers below `l + n`, down to `l`.
abbrev pub down : ℕ → ℕ → List ℕ
down l zero = []
down l (suc n) = (l + n) ∷ down l n

for_loop-up : (fuel l n : ℕ) → l + n ≤ int_max → n < fuel → step fuel l (l + n) 1 ≡ some (up l n)
unfolding step
for_loop-up zero l n fits enough = absurd (omega arith)
for_loop-up (suc fuel) l zero fits enough =
    let ended : ltb l (l + 0) ≡ false = ground arith in rw ended refl
for_loop-up (suc fuel) l (suc n) fits enough =
    let within : ltb l (l + suc n) ≡ true = ground arith in
    let small : ltb int_max (l + 1) ≡ false = ground arith in
    let shift : l + suc n ≡ l + 1 + n = omega arith in
    rw (within, small)
      (ap (λ h. cons_to l (step fuel (l + 1) h 1)) shift
        ∙ ap (cons_to l) (for_loop-up fuel (l + 1) n (omega arith) (omega arith)))

ifor-down : (fuel l n : ℕ) → n < fuel → istep fuel l (l + n) 1 ≡ some (down l n)
unfolding istep
ifor-down zero l n enough = absurd (omega arith)
ifor-down (suc fuel) l zero enough =
    let ended : ltb l (l + 0) ≡ false = ground arith in rw ended refl
ifor-down (suc fuel) l (suc n) enough =
    let within : ltb l (l + suc n) ≡ true = ground arith in
    let less : l + suc n - 1 ≡ l + n = omega arith in
    rw (within, less) (ap (cons_to (l + n)) (ifor-down fuel l n (omega arith)))

down-shift : (l n : ℕ) (rest : List ℕ) → down (l + 1) n ++ l ∷ rest ≡ down l (suc n) ++ rest
down-shift l zero rest = ap (λ x. x ∷ rest) (omega arith)
down-shift l (suc n) rest =
    let first : l + 1 + n ≡ l + suc n = omega arith in
    rw first (ap (λ r. (l + suc n) ∷ r) (down-shift l n rest))

reverse_aux-up : (l n : ℕ) (rest : List ℕ) → reverse_aux (up l n) rest ≡ down l n ++ rest
reverse_aux-up l zero rest = refl
reverse_aux-up l (suc n) rest = reverse_aux-up (l + 1) n (l ∷ rest) ∙ down-shift l n rest

-- FOR from `l` to below `l + n`, all of them ints, ends with a round for each value and one more, and
-- its values are the numbers from `l` on; those of IFOR are the same in reverse.
pub ifor-reverse :
    (fuel l n : ℕ)
    → l + n ≤ int_max
    → n < fuel
    → (for_loop fuel l (l + n) ≡ some (up l n)) × (ifor fuel l (l + n) ≡ some (reverse (up l n)))
unfolding for_loop ifor
ifor-reverse fuel l n fits enough = (
  for_loop-up fuel l n fits enough,
  ifor-down fuel l n enough ∙ ap some (sym (reverse_aux-up l n [] ∙ append-nil (down l n))),
)
