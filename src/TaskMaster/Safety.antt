-- ===== src/TaskMaster/Safety.antt =====
-- What holds in every reachable state of a `TaskMaster`.
use libmandrews.Prelude.{
  ℕ, ◌+◌, ◌≤◌, ◌<◌, ◌≡◌, ◌≢◌, refl, sym, ap, ◌∙◌, Bool, true, false, not, ◌⊎◌, inl, inr, Option,
  none, some, [], ◌∷◌, ◌++◌, append-nil, arith, length, length-append, tally, total, total-eq-zero,
  total-eq_self, find_below, ltb, leb, if◌then◌else◌, Bool-cases,
}
use libmandrews.TaskMaster.{
  Worker, idle, waiting, granted, taking, busy, stopped, crashed, draining, tearing, System, assign,
  occupied, occupy, advance, check, Reach,
}
use libmandrews.TaskMaster.Invariant.{demand, counted, working, parked, settled, Inv, Reach-Inv}

module _ {T : Type 0} where
  -- In no reachable state has a worker called front() on an empty queue.
  pub never_crashes : {s : System T} → Reach s → (i : ℕ) → s.worker i ≢ crashed
  never_crashes r = (Reach-Inv r).sound

  -- In every reachable state the tasks taken by workers followed by the tasks queued are the
  -- assigned tasks in their order.
  pub taken-tasks : {s : System T} → Reach s → s.taken ++ s.tasks ≡ s.assigned
  taken-tasks r = (Reach-Inv r).fifo

  not-working : (p : T → Bool) (w : Worker T) → parked w ≡ true → working p w ≡ 0
  not-working p w e = ground arith

  -- In every reachable state after cleanup has left its loop, no task is queued, every worker is
  -- blocked in wait or has stopped, and the finished tasks are the assigned ones, counted by any
  -- test.
  pub cleanup_complete :
      {s : System T}
      → Reach s
      → settled s.phase ≡ true
      → (s.tasks ≡ [])
        × ((i : ℕ) → i < s.threads → parked (s.worker i) ≡ true)
        × ((p : T → Bool) → tally p s.finished ≡ tally p s.assigned)
  cleanup_complete {s} r e =
      (v.empty e, v.quiet e, λ p. omega (arith, v.handled p, idle_now p, all p))
    where
      v : Inv s
      v = Reach-Inv r

      idle_now : (p : T → Bool) → total (working p) s.threads s.worker ≡ 0
      idle_now p =
          total-eq-zero (working p) s.threads s.worker
            (λ i h. not-working p (s.worker i) (v.quiet e i h))

      all : (p : T → Bool) → tally p s.taken ≡ tally p s.assigned
      all p =
          ap (tally p)
            (sym (append-nil s.taken) ∙ ap (λ l. s.taken ++ l) (sym (v.empty e)) ∙ v.fifo)

  abbrev steps : Option (System T) → Bool
  steps none = false
  steps (some _) = true

  blocked-waiting :
      (s : System T) (i : ℕ) (w : Worker T)
      → s.sem.running ≡ true
      → w ≢ stopped
      → w ≢ crashed
      → steps (advance w i s) ≡ false
      → (w ≡ waiting) × (s.sem.count ≡ 0)
  unfolding advance
  blocked-waiting s i waiting r a b e = ground arith
  blocked-waiting s i stopped r a b e = absurd (a refl)
  blocked-waiting s i crashed r a b e = absurd (b refl)
  blocked-waiting s i idle r a b e = cc
  blocked-waiting s i granted r a b e = cc
  blocked-waiting s i taking r a b e = cc
  blocked-waiting s i (busy t) r a b e = cc

  step-of : (o : Option (System T)) → steps o ≡ true → (s' : System T) × (o ≡ some s')
  step-of none e = cc
  step-of (some s') e = (s', refl)

  all_blocked-passes :
      (s : System T)
      → Inv s
      → s.phase ≡ draining
      → 0 < s.threads
      → ((i : ℕ) → i < s.threads → steps (advance (s.worker i) i s) ≡ false)
      → (check s).phase ≡ tearing
  unfolding check
  all_blocked-passes s v e some_thread none_steps =
      ground (arith, v.waiters, v.permits up, all_counted, none_owed, (at 0 some_thread).1)
    where
      up : s.sem.running ≡ true
      up = ground (arith, v.up)

      at : (i : ℕ) → i < s.threads → (s.worker i ≡ waiting) × (s.sem.count ≡ 0)
      at i h = blocked-waiting s i (s.worker i) up (v.live up i) (v.sound i) (none_steps i h)

      all_counted : total counted s.threads s.worker ≡ s.threads
      all_counted = total-eq_self counted s.threads s.worker (λ i h. ap counted (at i h).0)

      none_owed : total demand s.threads s.worker ≡ 0
      none_owed = total-eq-zero demand s.threads s.worker (λ i h. ap demand (at i h).0)

  -- In every reachable state in which cleanup waits and there is a thread, either its next test
  -- passes or some worker can take a step.
  pub cleanup_progress :
      {s : System T}
      → Reach s
      → s.phase ≡ draining
      → 0 < s.threads
      → ((check s).phase ≡ tearing)
        ⊎ ((i : ℕ) × (i < s.threads) × (s' : System T) × (advance (s.worker i) i s ≡ some s'))
  cleanup_progress {s} r e some_thread =
      elim (find_below s.threads (λ i. steps (advance (s.worker i) i s))) [
        | inl (i, h, q) ↦ let (s', k) = step-of (advance (s.worker i) i s) q in inr (i, h, s', k)
        | inr none_steps ↦ inl (all_blocked-passes s (Reach-Inv r) e some_thread none_steps)
      ]

  -- occupy accepts a task exactly when occupied is false and then does what assign does;
  -- otherwise it changes nothing. It leaves at most one task more than threads, or the queue as
  -- it was.
  pub occupy_lem :
      (t : T) (s : System T)
      → ((occupy t s).1 ≡ not (occupied s))
        × ((occupy t s).0 ≡ (if occupied s then s else assign t s))
        × (length (occupy t s).0.tasks ≤ s.threads + 1 ⊎ ((occupy t s).0 ≡ s))
  unfolding occupy occupied
  occupy_lem t s = elim (Bool-cases (ltb s.threads (length s.tasks))) [
    | inl full ↦
        let over : leb (length s.tasks) s.threads ≡ false = ground arith in
        rw (full, over) (refl, refl, inr refl)
    | inr room ↦
        let fits : leb (length s.tasks) s.threads ≡ true = ground arith in
        rw (room, fits) (refl, refl, inl (bound fits))
  ]
    where
      bound : leb (length s.tasks) s.threads ≡ true → length (assign t s).tasks ≤ s.threads + 1
      bound fits = ground (arith, length-append s.tasks (t ∷ []))
