-- ===== src/Loops/Steps.antt =====
-- STEP, FOR and REP.
use libmandrews.Prelude.{
  ℕ, zero, suc, ◌+◌, ◌*◌, ◌≤◌, ◌<◌, ◌≡◌, refl, sym, ap, ◌∙◌, true, false, Option, none, some, List,
  arith, ltb, if◌then◌else◌, get_elem?, Returns, Returns-some, Bool-cases, inl, inr,
}
use libmandrews.Loops.{int_max, cons_to, step, for_loop, rep}

-- Value `k` of a loop from `l` by `s`, if it is below `h`.
abbrev pub value_at : ℕ → ℕ → ℕ → ℕ → Option ℕ
value_at l h s k = if ltb (l + k * s) h then some (l + k * s) else none

value_at-beyond : (l h s k : ℕ) → ltb l h ≡ false → value_at l h s k ≡ none
value_at-beyond l h s k beyond = let far : ltb (l + k * s) h ≡ false = ground arith in rw far refl

value_at-next : (l h s k : ℕ) → value_at (l + s) h s k ≡ value_at l h s (suc k)
value_at-next l h s k =
    let same : l + s + k * s ≡ l + suc k * s = omega arith in
    ap (λ v. if ltb v h then some v else none) same

-- One value more.
cons_to-value :
    (rest : Option (List ℕ)) (l h s k : ℕ)
    → ltb l h ≡ true
    → ((j : ℕ) → Returns rest (λ is. get_elem? is j ≡ value_at (l + s) h s j))
    → Returns (cons_to l rest) (λ is. get_elem? is k ≡ value_at l h s k)
cons_to-value none l h s k within v = v 0
cons_to-value (some is) l h s zero within v =
    let here : l + 0 * s ≡ l = omega arith in rw (here, within) refl
cons_to-value (some is) l h s (suc k) within v = v k ∙ value_at-next l h s k

-- Enough rounds for a loop: one for each value, and the last test.
step_value :
    (fuel l h s k : ℕ)
    → 0 < s
    → h + s ≤ suc int_max
    → h ≤ l + fuel
    → Returns (step (suc fuel) l h s) (λ is. get_elem? is k ≡ value_at l h s k)
unfolding step
step_value zero l h s k pos fits enough =
    let beyond : ltb l h ≡ false = ground arith in rw beyond (sym (value_at-beyond l h s k beyond))
step_value (suc fuel) l h s k pos fits enough = elim (Bool-cases (ltb l h)) [
  | inl within ↦
      let small : ltb int_max (l + s) ≡ false = ground arith in
      rw (within, small)
        (cons_to-value (step (suc fuel) (l + s) h s) l h s k within
          (λ j. step_value fuel (l + s) h s j pos fits (omega arith)))
  | inr beyond ↦ rw beyond (sym (value_at-beyond l h s k beyond))
]

-- STEP by a positive step over bounds for which the variable stays an int ends, with a round for
-- each value and one more, and its values are those of the progression below the upper bound, in
-- order.
pub step_lem :
    (fuel l h s k : ℕ)
    → 0 < s
    → h + s ≤ suc int_max
    → h < l + fuel
    → 0 < fuel
    → Returns (step fuel l h s) (λ is. get_elem? is k ≡ value_at l h s k)
step_lem zero l h s k pos fits enough some_round = absurd (omega arith)
step_lem (suc fuel) l h s k pos fits enough some_round =
    step_value fuel l h s k pos fits (omega arith)

-- REP counts.
pub rep_lem :
    (h k : ℕ)
    → h < int_max
    → Returns (rep (suc h) h) (λ is. get_elem? is k ≡ (if ltb k h then some k else none))
unfolding rep for_loop
rep_lem h k fits =
    let (is, e, v) =
      Returns-some (step (suc h) 0 h 1)
        (step_lem (suc h) 0 h 1 k (omega arith) (omega arith) (omega arith) (omega arith)) in
    let same : 0 + k * 1 ≡ k = omega arith in
    rw e (v ∙ ap (λ x. if ltb x h then some x else none) same)
