-- ===== src/Profiler.antt =====
-- The class `Profiler` of taskmaster.h: each adds its lifetime to a total that all threads share. Clocks
-- are numbers below 2^64, and a profiler has a number below a bound.
use mathlib.Core.Path.{subst}
use libmandrews.Prelude.{
  ℕ, ◌+◌, ◌-◌, ◌%◌, ◌^◌, ◌<◌, ◌≡◌, refl, ap, Option, none, some, arith, ◌>>=◌, update, total,
  total-update, total-eq-zero, Returns,
}

abbrev pub word : ℕ
word = 2 ^ 64

-- `start` of each live profiler, and `time()`. The sums of the clocks that constructors and destructors
-- have read are kept beside them for the proofs.
pub record State : Type 0 where
  pub start : ℕ → Option ℕ
  pub time : ℕ
  pub begun : ℕ
  pub ended : ℕ

unfoldable pub construct : ℕ → ℕ → State → State
construct i clock s = record s { start = update s.start i (some clock); begun = s.begun + clock }

unfoldable pub destruct : ℕ → ℕ → State → Option State
destruct i clock s = do
  start ← s.start i
  some (record s {
    start = update s.start i none;
    time = (s.time + (clock + word - start) % word) % word;
    ended = s.ended + clock;
  })

abbrev pub init : State
init = record { start = λ i. none; time = 0; begun = 0; ended = 0 }

pub data Reach (n : ℕ) : State → Type 0 where
  init_reach : Reach n init
  constructs :
      {s : State} (i clock : ℕ)
      → Reach n s
      → i < n
      → clock < word
      → s.start i ≡ none
      → Reach n (construct i clock s)
  destructs :
      {s t : State} (i clock start : ℕ)
      → Reach n s
      → i < n
      → clock < word
      → s.start i ≡ some start
      → destruct i clock s ≡ some t
      → Reach n t

abbrev pub since : Option ℕ → ℕ
since none = 0
since (some start) = start

-- The total is what the clocks at the ends exceed the clocks at the beginnings by.
record Balance (n : ℕ) (s : State) : Type 0 where
  sums : (s.time + s.begun) % word ≡ (s.ended + total since n s.start) % word
  low : (i start : ℕ) → s.start i ≡ some start → start < word

construct-Balance :
    (n i clock : ℕ) (s : State)
    → i < n
    → clock < word
    → s.start i ≡ none
    → Balance n s
    → Balance n (construct i clock s)
unfolding construct
construct-Balance n i clock s h k e v = record {
  sums = omega (arith, v.sums, total-update since n s.start i (some clock) h, ap since e);
  low = λ j start q. ground (arith, v.low j start);
}

destruct-Balance :
    (n i clock start : ℕ) (s : State)
    → i < n
    → clock < word
    → s.start i ≡ some start
    → Balance n s
    → Returns (destruct i clock s) (Balance n)
unfolding destruct
destruct-Balance n i clock start s h k e v = rw e (record {
  sums = omega (arith, v.sums, v.low i start e, total-update since n s.start i none h, ap since e);
  low = λ j start q. ground (arith, v.low j start);
})

Reach-Balance : {n : ℕ} {s : State} → Reach n s → Balance n s
Reach-Balance {n = n} init_reach = record {
  sums = omega (arith, total-eq-zero since n (λ i. none) (λ i h. refl));
  low = λ i start e. cc;
}
Reach-Balance {n = n} (constructs {s = s} i clock r h k e) =
    construct-Balance n i clock s h k e (Reach-Balance r)
Reach-Balance {n = n} (destructs {s = s} i clock start r h k e d) =
    subst (λ o. Returns o (Balance n)) d
      (destruct-Balance n i clock start s h k e (Reach-Balance r))

-- However the lives of any number of profilers overlap, in any threads, the total is always what the
-- clocks at the ends of those that are over exceed the clocks at their beginnings by, modulo 2^64.
pub elapsed-Reach :
    {n : ℕ} {s : State}
    → Reach n s
    → (s.time + s.begun) % word ≡ (s.ended + total since n s.start) % word
elapsed-Reach r = (Reach-Balance r).sums
