-- ===== src/Loops.antt =====
-- The loop macros of macro.h: the values of the loop's variable, in their order. `none` is a loop that
-- has not ended within the rounds that the first argument allows, or a variable above the largest int.
pub mod Bits
pub mod Subsets
pub mod Steps
pub mod Reverse
mod Tests
use Prim.Native.Nat.{bit_and}
use libmandrews.Prelude.{
  ℕ, zero, suc, ◌+◌, ◌-◌, ◌%◌, ◌^◌, Bool, true, false, not, ◌||◌, Option, none, some, List, [], ◌∷◌,
  ◌==◌, ltb, if◌then◌else◌, ◌>>=◌,
}

abbrev pub word : ℕ
word = 2 ^ 64

abbrev pub cons_to {ℓ} : {A : Type ℓ} → A → Option (List A) → Option (List A)
cons_to a none = none
cons_to a (some rest) = some (a ∷ rest)

-- `i = (i-1) & (s)`, on uint64
abbrev pub before : ℕ → ℕ → ℕ
before s i = bit_and ((i + word - 1) % word) s

-- SUBSETS
unfoldable pub subsets_from : ℕ → ℕ → ℕ → Bool → Option (List ℕ)
subsets_from zero s i null_flag = none
subsets_from (suc fuel) s i null_flag =
    let rest = subsets_from fuel s (before s i) false in
    if not (i == 0) || null_flag then cons_to i rest else some []

unfoldable pub subsets : ℕ → ℕ → Option (List ℕ)
unfolding subsets_from
subsets fuel s = subsets_from fuel s 0 true

abbrev pub int_max : ℕ
int_max = 2 ^ 31 - 1

-- STEP, for bounds that are not negative, and FOR and REP, which use it.
unfoldable pub step : ℕ → ℕ → ℕ → ℕ → Option (List ℕ)
step zero l h s = none
step (suc fuel) l h s =
    let rest = step fuel (l + s) h s in
    if ltb l h then (if ltb int_max (l + s) then none else cons_to l rest) else some []

unfoldable pub for_loop : ℕ → ℕ → ℕ → Option (List ℕ)
unfolding step
for_loop fuel l h = step fuel l h 1

unfoldable pub rep : ℕ → ℕ → Option (List ℕ)
unfolding for_loop
rep fuel h = for_loop fuel 0 h

-- ISTEP, for bounds that are not negative, by one more than the variable: the loop ends as it falls
-- below the lower bound, below zero too. IFOR and IREP use it.
unfoldable pub istep : ℕ → ℕ → ℕ → ℕ → Option (List ℕ)
istep zero l h s = none
istep (suc fuel) l h s =
    let rest = istep fuel l (h - s) s in if ltb l h then cons_to (h - 1) rest else some []

unfoldable pub ifor : ℕ → ℕ → ℕ → Option (List ℕ)
unfolding istep
ifor fuel l h = istep fuel l h 1

unfoldable pub irep : ℕ → ℕ → Option (List ℕ)
unfolding ifor
irep fuel h = ifor fuel 0 h
