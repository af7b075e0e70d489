-- ===== src/Semaphore/Permits.antt =====
-- What a sequence of calls on a `Semaphore` grants.
use libmandrews.Prelude.{ℕ, suc, ◌+◌, ◌-◌, ◌%◌, ◌≤◌, ◌<◌, ◌≡◌, refl, true, false, none, some, arith}
use libmandrews.Semaphore.{Semaphore, word, create, notify, wait, teardown}

-- The calls on a semaphore made with `n`, in any order and by any threads: `posted` calls of `notify`
-- and `granted` calls of `wait` that returned true.
pub data Calls (n : ℕ) : ℕ → ℕ → Semaphore → Type 0 where
  made : {p g : ℕ} → p ≡ 0 → g ≡ 0 → Calls n p g (create n)
  posts : {p g : ℕ} {s : Semaphore} → Calls n p g s → Calls n (suc p) g (notify s)
  grants :
      {p g : ℕ} {s t : Semaphore} → Calls n p g s → wait s ≡ some (t, true) → Calls n p (suc g) t
  refuses : {p g : ℕ} {s t : Semaphore} → Calls n p g s → wait s ≡ some (t, false) → Calls n p g t
  closes : {p g : ℕ} {s : Semaphore} → Calls n p g s → Calls n p g (teardown s)

pub record Balance (n p g : ℕ) (s : Semaphore) : Type 0 where
  pub exact : s.running ≡ true → s.count + g ≡ n + p
  pub bounded : g ≤ n + p

-- After any calls on a semaphore whose permits fit the counter, no more waits have returned true
-- than the initial and posted permits, and while it runs its count is those permits less the ones
-- granted.
pub Calls-Balance : {n p g : ℕ} {s : Semaphore} → n + p < word → Calls n p g s → Balance n p g s
unfolding create notify wait teardown
Calls-Balance h (made a b) = record { exact = λ _. omega arith; bounded = omega arith }
Calls-Balance h (posts {s} c) =
    let b = Calls-Balance (omega arith) c in
    record { exact = λ r. omega (arith, b.exact r); bounded = omega (arith, b.bounded) }
Calls-Balance h (grants {s} c e) =
    let b = Calls-Balance h c in
    record { exact = λ r. ground (arith, b.exact); bounded = ground (arith, b.exact) }
Calls-Balance h (refuses {s} c e) =
    let b = Calls-Balance h c in record { exact = λ r. ground arith; bounded = b.bounded }
Calls-Balance h (closes c) =
    let b = Calls-Balance h c in record { exact = λ r. cc; bounded = b.bounded }

-- After `teardown` no call of `wait` blocks or returns true: it returns false at once, whatever the
-- count, and takes 1 from the count modulo 2^64.
pub wait-teardown :
    (s : Semaphore)
    → wait (teardown s)
      ≡ some (record { count = (s.count + word - 1) % word; running = false }, false)
unfolding wait teardown
wait-teardown s = refl

-- `wait` blocks exactly while the semaphore is running with no permit.
pub wait-none :
    (s : Semaphore)
    → (wait s ≡ none → (s.running ≡ true) × (s.count ≡ 0))
      × ((s.running ≡ true) → (s.count ≡ 0) → wait s ≡ none)
unfolding wait
wait-none s = (λ e. ground arith, λ r e. ground arith)
