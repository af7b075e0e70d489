-- ===== src/SemaphoreTest.antt =====
-- `SemaphoreTest` of semaphore.cpp: threads that pass a `Semaphore` of 5 and count themselves in `c`.
mod Tests
use libmandrews.Prelude.{
  ℕ, zero, suc, ◌+◌, ◌-◌, ◌%◌, ◌≤◌, ◌<◌, ◌≡◌, refl, Bool, true, false, Option, none, some, arith,
  update, total, total-update, total-eq-zero, total-le, le-total, Bool-cases, inl, inr, ltb,
  if◌then◌else◌,
}
use libmandrews.Semaphore.{Semaphore, word}
use mathlib.Core.Path.{subst}
use libmandrews.Semaphore

-- The lambda `thr`: in `sem.wait()`, after it, after `--c` (where the assertion stands), after `++c`,
-- and returned.
pub data Thread : Type 0 where
  waiting passed inside leaving returned : Thread

-- `c` is `5 + ups - downs`.
pub record State : Type 0 where
  pub sem : Semaphore
  pub ups : ℕ
  pub downs : ℕ
  pub thread : ℕ → Thread

abbrev pub permits : ℕ
permits = 5

unfoldable pub init : State
unfolding Semaphore.create
init = record { sem = Semaphore.create permits; ups = 0; downs = 0; thread = λ _. waiting }

abbrev pub after : Bool → Thread
after true = passed
after false = returned

unfoldable pub woken : Option (Semaphore × Bool) → ℕ → State → Option State
woken none i s = none
woken (some (sem, ok)) i s = some (record s { sem = sem; thread = update s.thread i (after ok) })

-- The next step of thread `i`.
unfoldable pub advance : Thread → ℕ → State → Option State
unfolding woken Semaphore.wait Semaphore.notify
advance waiting i s = woken (Semaphore.wait s.sem) i s
advance passed i s = some (record s { downs = s.downs + 1; thread = update s.thread i inside })
advance inside i s = some (record s { ups = s.ups + 1; thread = update s.thread i leaving })
advance leaving i s =
    some (record s { sem = Semaphore.notify s.sem; thread = update s.thread i waiting })
advance returned i s = none

-- `n` threads; `sem.teardown()` may come at any time.
pub data Reach (n : ℕ) : State → Type 0 where
  begin : Reach n init
  moves : {s t : State} (i : ℕ) → Reach n s → i < n → advance (s.thread i) i s ≡ some t → Reach n t
  tears : {s : State} → Reach n s → Reach n (record s { sem = Semaphore.teardown s.sem })

abbrev pub held : Thread → ℕ
held passed = 1
held inside = 1
held leaving = 1
held _ = 0

abbrev present : Thread → ℕ
present inside = 1
present _ = 0

record Inv (n : ℕ) (s : State) : Type 0 where
  exact : s.sem.running ≡ true → s.sem.count + total held n s.thread ≡ permits
  bounded : total held n s.thread ≤ permits
  inner : s.ups + total present n s.thread ≡ s.downs

present-le-held : (n : ℕ) (f : ℕ → Thread) → total present n f ≤ total held n f
unfolding total
present-le-held zero f = omega arith
present-le-held (suc n) f = ground (arith, present-le-held n f)

module _ {n : ℕ} (s : State) (i : ℕ) (h : i < n) (v : Inv n s) where
  abbrev Keeps : Option State → Type 0
  Keeps none = Unit
  Keeps (some t) = Inv n t

  advance-Inv : (w : Thread) → s.thread i ≡ w → Keeps (advance w i s)
  unfolding advance Semaphore.awake
  advance-Inv waiting e = elim (Bool-cases s.sem.running) [
    | inl r ↦ elim (Bool-cases (ltb 0 s.sem.count)) [
      | inl pos ↦
          rw (r, pos)
            (record {
              exact = λ _. ground (arith, v.exact r, total-update held n s.thread i passed h);
              bounded = ground (arith, v.exact r, total-update held n s.thread i passed h);
              inner = ground (arith, v.inner, total-update present n s.thread i passed h);
            })
      | inr dry ↦ rw (r, dry) tt
    ]
    | inr r ↦ rw r (record {
      exact = λ k. cc;
      bounded = ground (arith, v.bounded, total-update held n s.thread i returned h);
      inner = ground (arith, v.inner, total-update present n s.thread i returned h);
    })
  ]
  advance-Inv passed e = record {
    exact = λ r. ground (arith, v.exact r, total-update held n s.thread i inside h);
    bounded = ground (arith, v.bounded, total-update held n s.thread i inside h);
    inner = ground (arith, v.inner, total-update present n s.thread i inside h);
  }
  advance-Inv inside e = record {
    exact = λ r. ground (arith, v.exact r, total-update held n s.thread i leaving h);
    bounded = ground (arith, v.bounded, total-update held n s.thread i leaving h);
    inner = ground (arith, v.inner, total-update present n s.thread i leaving h);
  }
  advance-Inv leaving e = record {
    exact = λ r.
        ground (
          arith,
          v.exact r,
          le-total held n s.thread i h,
          total-update held n s.thread i waiting h,
        );
    bounded = ground (arith, v.bounded, total-update held n s.thread i waiting h);
    inner = ground (arith, v.inner, total-update present n s.thread i waiting h);
  }
  advance-Inv returned e = tt

Reach-Inv : {n : ℕ} {s : State} → Reach n s → Inv n s
unfolding init Semaphore.create Semaphore.teardown
Reach-Inv {n} begin =
    let none_held = total-eq-zero held n (λ _. waiting) (λ i h. refl) in
    let none_present = total-eq-zero present n (λ _. waiting) (λ i h. refl) in
    record {
      exact = λ _. omega (arith, none_held);
      bounded = omega (arith, none_held);
      inner = omega (arith, none_present);
    }
Reach-Inv {n} (moves {s} i r h e) =
    subst (Keeps s i h (Reach-Inv r)) e (advance-Inv s i h (Reach-Inv r) (s.thread i) refl)
Reach-Inv (tears r) =
    let v = Reach-Inv r in record { exact = λ q. cc; bounded = v.bounded; inner = v.inner }

-- In every interleaving of any number of threads of SemaphoreTest, c is not negative and at most
-- 5 threads are between a successful wait and their notify.
pub c_nonneg :
    {n : ℕ} {s : State}
    → Reach n s
    → (s.downs ≤ permits + s.ups) × (total held n s.thread ≤ permits)
c_nonneg {n} {s} r =
    let v = Reach-Inv r in
    (omega (arith, v.inner, v.bounded, present-le-held n s.thread), v.bounded)
