-- ===== src/TaskMaster/Invariant/Moves.antt =====
-- A worker's step keeps the invariant.
use libmandrews.Prelude.{
  ℕ, ◌<◌, ◌≡◌, ◌≢◌, refl, ◌∙◌, true, false, Option, none, some, List, [], ◌∷◌, append_assoc, arith,
  tally-append, total-update, le-total, Bool-cases, inl, inr, ltb,
}
use libmandrews.Semaphore.{Semaphore, word}
use libmandrews.Semaphore
use libmandrews.TaskMaster.{
  Worker, idle, waiting, granted, taking, busy, stopped, crashed, System, take_front, advance,
}
use libmandrews.TaskMaster.Invariant.Defs.{demand, counted, working, Inv}

module _ {T : Type 0} where
  -- The invariant of the state that a worker's step leads to, if it has one.
  abbrev pub Keeps : Option (System T) → Type 0
  Keeps none = Unit
  Keeps (some s) = Inv s

  module _ (s : System T) (i : ℕ) (h : i < s.threads) (v : Inv s) where
    enter-Inv : s.worker i ≡ idle → Keeps (advance idle i s)
    unfolding advance
    enter-Inv e = record {
      permits =
          λ r. ground (arith, v.permits r, total-update demand s.threads s.worker i waiting h);
      small = v.small;
      waiters = ground (arith, v.waiters, total-update counted s.threads s.worker i waiting h);
      fifo = v.fifo;
      handled =
          λ p. ground (arith, v.handled p, total-update (working p) s.threads s.worker i waiting h);
      sound = λ j q. ground (arith, v.sound j);
      unborn = λ j q. ground (arith, v.unborn j);
      up = v.up;
      live = λ r j q. ground (arith, v.live r j);
      empty = v.empty;
      quiet = λ q j k. ground (arith, v.quiet q j k);
    }

    leave-Inv : s.worker i ≡ granted → Keeps (advance granted i s)
    unfolding advance
    leave-Inv e = record {
      permits = λ r. ground (arith, v.permits r, total-update demand s.threads s.worker i taking h);
      small = v.small;
      waiters = ground (arith, v.waiters, total-update counted s.threads s.worker i taking h);
      fifo = v.fifo;
      handled =
          λ p. ground (arith, v.handled p, total-update (working p) s.threads s.worker i taking h);
      sound = λ j q. ground (arith, v.sound j);
      unborn = λ j q. ground (arith, v.unborn j);
      up = v.up;
      live = λ r j q. ground (arith, v.live r j);
      empty = v.empty;
      quiet = λ q j k. ground (arith, v.quiet q i h);
    }

    finish-Inv : (t : T) → s.worker i ≡ busy t → Keeps (advance (busy t) i s)
    unfolding advance
    finish-Inv t e = record {
      permits = λ r. ground (arith, v.permits r, total-update demand s.threads s.worker i idle h);
      small = v.small;
      waiters = ground (arith, v.waiters, total-update counted s.threads s.worker i idle h);
      fifo = v.fifo;
      handled = λ p. ground (
        arith,
        v.handled p,
        tally-append p s.finished (t ∷ []),
        total-update (working p) s.threads s.worker i idle h,
      );
      sound = λ j q. ground (arith, v.sound j);
      unborn = λ j q. ground (arith, v.unborn j);
      up = v.up;
      live = λ r j q. ground (arith, v.live r j);
      empty = v.empty;
      quiet = λ q j k. ground (arith, v.quiet q i h);
    }

    -- A worker about to take a task finds one.
    taking-finds : s.worker i ≡ taking → s.tasks ≢ []
    taking-finds e none_left = elim (Bool-cases s.sem.running) [
      | inl r ↦ ground (arith, v.permits r, le-total demand s.threads s.worker i h)
      | inr r ↦ ground (arith, v.up, v.quiet (ground (arith, v.up)) i h)
    ]

    take-Inv : (l : List T) → s.tasks ≡ l → s.worker i ≡ taking → Inv (take_front l i s)
    unfolding take_front
    take-Inv [] q e = absurd (taking-finds e q)
    take-Inv (t ∷ l) q e = record {
      permits =
          λ r. ground (arith, v.permits r, total-update demand s.threads s.worker i (busy t) h);
      small = ground (arith, v.small);
      waiters = ground (arith, v.waiters, total-update counted s.threads s.worker i (busy t) h);
      fifo = append_assoc s.taken (t ∷ []) l ∙ (rw (← q) v.fifo);
      handled = λ p. ground (
        arith,
        v.handled p,
        tally-append p s.taken (t ∷ []),
        total-update (working p) s.threads s.worker i (busy t) h,
      );
      sound = λ j k. ground (arith, v.sound j);
      unborn = λ j k. ground (arith, v.unborn j);
      up = v.up;
      live = λ r j k. ground (arith, v.live r j);
      empty = λ k. ground (arith, v.empty k);
      quiet = λ k j g. ground (arith, v.quiet k i h);
    }

    grant-Inv : s.worker i ≡ waiting → s.sem.running ≡ true → Keeps (advance waiting i s)
    unfolding advance Semaphore.awake
    grant-Inv e r = elim (Bool-cases (ltb 0 s.sem.count)) [
      | inl pos ↦
          rw (r, pos)
            (record {
              permits = λ _.
                  ground (
                    arith,
                    v.permits r,
                    v.small,
                    total-update demand s.threads s.worker i granted h,
                  );
              small = v.small;
              waiters =
                  ground (arith, v.waiters, total-update counted s.threads s.worker i granted h);
              fifo = v.fifo;
              handled = λ p.
                  ground
                    (arith, v.handled p, total-update (working p) s.threads s.worker i granted h);
              sound = λ j k. ground (arith, v.sound j);
              unborn = λ j k. ground (arith, v.unborn j);
              up = ground (arith, v.up);
              live = λ _ j k. ground (arith, v.live r j);
              empty = v.empty;
              quiet = λ k j g. ground (arith, v.empty k, v.permits r);
            })
      | inr dry ↦ rw (r, dry) tt
    ]

    stop-Inv : s.worker i ≡ waiting → s.sem.running ≡ false → Keeps (advance waiting i s)
    unfolding advance Semaphore.awake
    stop-Inv e r = rw r (record {
      permits = λ k. cc;
      small = v.small;
      waiters = ground (arith, v.waiters, total-update counted s.threads s.worker i stopped h);
      fifo = v.fifo;
      handled =
          λ p. ground (arith, v.handled p, total-update (working p) s.threads s.worker i stopped h);
      sound = λ j k. ground (arith, v.sound j);
      unborn = λ j k. ground (arith, v.unborn j);
      up = ground (arith, v.up);
      live = λ k. cc;
      empty = v.empty;
      quiet = λ k j g. ground (arith, v.quiet k j g);
    })

    pub advance-Inv : (w : Worker T) → s.worker i ≡ w → Keeps (advance w i s)
    unfolding advance
    advance-Inv idle e = enter-Inv e
    advance-Inv waiting e = elim (Bool-cases s.sem.running) [
      | inl r ↦ grant-Inv e r
      | inr r ↦ stop-Inv e r
    ]
    advance-Inv granted e = leave-Inv e
    advance-Inv taking e = take-Inv s.tasks refl e
    advance-Inv (busy t) e = finish-Inv t e
    advance-Inv stopped e = tt
    advance-Inv crashed e = tt
