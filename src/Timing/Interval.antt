-- ===== src/Timing/Interval.antt =====
-- `interval_callback` keeps to its times.
use libmandrews.Prelude.{
  ℕ, zero, suc, ◌+◌, ◌-◌, ◌*◌, ◌%◌, ◌^◌, ◌<◌, ◌≡◌, refl, ap, ◌∙◌, Bool, true, false, Option, none,
  some, List, [], ◌∷◌, ◌++◌, append_assoc, append-nil, arith, ltb, if◌then◌else◌, length, get_elem?,
  Bool-cases, inl, inr, Returns,
}
use libmandrews.Timing.{word, pause, Turn, interval_loop, interval_callback}

-- The turns before the first one that does not go on, and whether there is such a one.
abbrev pub going : List Turn → List Turn
going [] = []
going (t ∷ turns) = if t.goes_on then t ∷ going turns else []

abbrev pub ends : List Turn → Bool
ends [] = false
ends (t ∷ turns) = if t.goes_on then ends turns else true

-- What is left until a deadline, in the 32 bits that usleep takes.
abbrev pub due : ℕ → ℕ → Option ℕ
due deadline clock = if ltb clock deadline then some ((deadline - clock) % 2 ^ 32) else none

abbrev pub due_at : ℕ → ℕ → ℕ → Option Turn → Option (Option ℕ)
due_at start period k none = none
due_at start period k (some t) = some (due (start + suc k * period) t.clock)

-- Times are below the half of the word.
abbrev pub InTime : List Turn → Type 0
InTime [] = Unit
InTime (t ∷ turns) = (t.clock < 2 ^ 63) × InTime turns

pause-due :
    (deadline clock : ℕ)
    → deadline < 2 ^ 63
    → clock < 2 ^ 63
    → pause deadline clock ≡ due deadline clock
pause-due deadline clock h k = ground arith

pauses : ℕ → ℕ → List Turn → List (Option ℕ)
pauses period next [] = []
pauses period next (t ∷ turns) =
    if t.goes_on then due (next + period) t.clock ∷ pauses period (next + period) turns else []

interval_loop-pauses :
    (period next : ℕ) (turns : List Turn) (slept : List (Option ℕ))
    → period < 2 ^ 31
    → next + length turns * period < 2 ^ 63
    → InTime turns
    → interval_loop period next turns slept ≡ some (ends turns, slept ++ pauses period next turns)
unfolding interval_loop pauses
interval_loop-pauses period next [] slept int h i = rw (append-nil slept) refl
interval_loop-pauses period next (t ∷ turns) slept int h (k, i) =
    let exact_int : ltb period (2 ^ 31) ≡ true = ground arith in
    let later = next + period in
    let room : later + length turns * period < 2 ^ 63 = omega arith in
    let exact : (next + period) % word ≡ later = omega arith in
    let rest = slept ++ due later t.clock ∷ [] in
    elim (Bool-cases t.goes_on) [
      | inl go ↦
          rw (go, exact_int, exact, pause-due later t.clock (omega arith) k)
            (interval_loop-pauses period later turns rest int room i
              ∙ ap (λ l. some (ends turns, l))
                  (append_assoc slept (due later t.clock ∷ []) (pauses period later turns)))
      | inr stop ↦ rw (stop, append-nil slept) refl
    ]

due_at-shift :
    (next period k : ℕ) (o : Option Turn)
    → due_at (next + period) period k o ≡ due_at next period (suc k) o
due_at-shift next period k none = refl
due_at-shift next period k (some t) =
    let one_on : next + period + suc k * period ≡ next + suc (suc k) * period = omega arith in
    ap (λ d. some (due d t.clock)) one_on

get-pauses :
    (period next k : ℕ) (turns : List Turn)
    → get_elem? (pauses period next turns) k ≡ due_at next period k (get_elem? (going turns) k)
unfolding pauses
get-pauses period next k [] = refl
get-pauses period next zero (t ∷ turns) = elim (Bool-cases t.goes_on) [
  | inl go ↦ let first : next + suc 0 * period ≡ next + period = omega arith in rw (go, first) refl
  | inr stop ↦ rw stop refl
]
get-pauses period next (suc k) (t ∷ turns) = elim (Bool-cases t.goes_on) [
  | inl go ↦ rw go (
      get-pauses period (next + period) k turns
      ∙ due_at-shift next period k (get_elem? (going turns) k))
  | inr stop ↦ rw stop refl
]

length-pauses :
    (period next : ℕ) (turns : List Turn) → length (pauses period next turns) ≡ length (going turns)
unfolding pauses
length-pauses period next [] = refl
length-pauses period next (t ∷ turns) = elim (Bool-cases t.goes_on) [
  | inl go ↦ rw go (ap suc (length-pauses period (next + period) turns))
  | inr stop ↦ rw stop refl
]

-- If ms is not negative and ms * 1000 fits an int, then while times stay below 2^63
-- interval_callback ends just when a call of the callback answers no, and has paused once after
-- each call before; the pause after call k, counted from 0, is what is left until k + 1 intervals
-- after the start, in the 32 bits of the argument of usleep, or none if that is over, so lateness
-- does not add up.
pub interval_callback_lem :
    (ms start : ℕ) (turns : List Turn) (k : ℕ)
    → ms * 1000 < 2 ^ 31
    → start + length turns * (ms * 1000) < 2 ^ 63
    → InTime turns
    → Returns (interval_callback ms start turns) (λ r.
      (r.0 ≡ ends turns)
      × (length r.1 ≡ length (going turns))
      × (get_elem? r.1 k ≡ due_at start (ms * 1000) k (get_elem? (going turns) k)))
unfolding interval_callback
interval_callback_lem ms start turns k int room i =
    rw (interval_loop-pauses (ms * 1000) start turns [] int room i)
      (refl, length-pauses (ms * 1000) start turns, get-pauses (ms * 1000) start k turns)
