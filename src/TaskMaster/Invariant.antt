-- ===== src/TaskMaster/Invariant.antt =====
-- The invariant of `TaskMaster` is kept by every step.
mod Defs
mod Moves
pub use Defs.*
use Moves.{Keeps, advance-Inv}
use mathlib.Core.Path.{subst}
use libmandrews.Prelude.{
  nil_of_length, ℕ, zero, suc, ◌+◌, ◌-◌, ◌%◌, ◌^◌, ◌≤◌, ◌<◌, ◌≡◌, ◌≢◌, refl, sym, ap, ◌∙◌, Bool,
  true, false, ◌&&◌, Option, none, some, List, [], ◌∷◌, ◌++◌, append_assoc, append-nil, arith,
  length, length-append, weight, tally, tally-append, update, total, total-update, le-total,
  total-le, total-eq-zero, eq-one_of_full, if◌then◌else◌, leb, ◌==◌, Bool-cases, dec_lt, inl, inr,
  ltb,
}
use libmandrews.Semaphore.{Semaphore, word}
use libmandrews.Semaphore
use libmandrews.TaskMaster.{
  Worker, idle, waiting, granted, taking, busy, stopped, crashed, Phase, serving, draining, tearing,
  joining, over, System, start, spawn, assign, occupy, goto, take_front, woken, after_wait, advance,
  check, teardown, HasRoom, Step, spawns, assigns, occupies, works, calls_assign, calls_occupy,
  cleans, checks, tears, joins, Reach, begin, next,
}

module _ {T : Type 0} where
  start-Inv : Inv {T = T} start
  unfolding start total Semaphore.create
  start-Inv = record {
    permits = λ _. refl;
    small = omega arith;
    waiters = refl;
    fifo = refl;
    handled = λ p. refl;
    sound = λ i e. cc;
    unborn = λ i h. refl;
    up = refl;
    live = λ _ i e. cc;
    empty = λ e. cc;
    quiet = λ e i h. cc;
  }

  -- A new thread is idle.
  spawn-Inv : (s : System T) → s.phase ≡ serving → Inv s → Inv (spawn s)
  unfolding spawn total
  spawn-Inv s e v = record {
    permits = λ r. ground (arith, v.permits, v.unborn s.threads);
    small = v.small;
    waiters = ground (arith, v.unborn s.threads);
    fifo = v.fifo;
    handled = λ p. ground (arith, v.handled p, v.unborn s.threads);
    sound = v.sound;
    unborn = λ i h. v.unborn i (omega arith);
    up = v.up;
    live = v.live;
    empty = v.empty;
    quiet = λ q i h. cc;
  }

  -- A task goes to the end of the queue, and with it a permit.
  assign-Inv :
      (t : T) (s : System T) → settled s.phase ≡ false → HasRoom s → Inv s → Inv (assign t s)
  unfolding assign Semaphore.notify
  assign-Inv t s e room v = record {
    permits = λ r. omega (arith, v.permits r, length-append s.tasks (t ∷ []));
    small = omega (arith, length-append s.tasks (t ∷ []));
    waiters = v.waiters;
    fifo = sym (append_assoc s.taken s.tasks (t ∷ [])) ∙ ap (λ l. l ++ t ∷ []) v.fifo;
    handled = v.handled;
    sound = v.sound;
    unborn = v.unborn;
    up = v.up;
    live = v.live;
    empty = λ q. cc;
    quiet = λ q i h. cc;
  }

  occupy-Inv :
      (t : T) (s : System T) → settled s.phase ≡ false → HasRoom s → Inv s → Inv (occupy t s).0
  unfolding occupy
  occupy-Inv t s e room v = elim (Bool-cases (leb (length s.tasks) s.threads)) [
    | inl fits ↦ rw fits (assign-Inv t s e room v)
    | inr full ↦ rw full v
  ]

  -- The loop of `cleanup` is left only when no task is queued and every worker is blocked.
  check-Inv : (s : System T) → s.phase ≡ draining → Inv s → Inv (check s)
  unfolding check
  check-Inv s e v = elim (Bool-cases ((s.waiters == s.threads) && (length s.tasks == 0))) [
    | inl pass ↦ rw pass (record {
      permits = v.permits;
      small = v.small;
      waiters = v.waiters;
      fifo = v.fifo;
      handled = v.handled;
      sound = v.sound;
      unborn = v.unborn;
      up = ground (arith, v.up);
      live = v.live;
      empty = λ _. nil_of_length s.tasks (ground arith);
      quiet = λ _ i h. ground (
        arith,
        v.permits (ground (arith, v.up)),
        le-total demand s.threads s.worker i h,
        eq-one_of_full counted s.threads s.worker (λ w. counted-le w) (ground (arith, v.waiters)) i
            h,
        v.live (ground (arith, v.up)) i,
      );
    })
    | inr fail ↦ rw fail v
  ]

  cleans-Inv : (s : System T) → s.phase ≡ serving → Inv s → Inv (record s { phase = draining })
  cleans-Inv s e v = record {
    permits = v.permits;
    small = v.small;
    waiters = v.waiters;
    fifo = v.fifo;
    handled = v.handled;
    sound = v.sound;
    unborn = v.unborn;
    up = ground (arith, v.up);
    live = v.live;
    empty = λ q. cc;
    quiet = λ q i h. cc;
  }

  tears-Inv : (s : System T) → s.phase ≡ tearing → Inv s → Inv (teardown s)
  unfolding teardown
  tears-Inv s e v = record {
    permits = λ r. cc;
    small = v.small;
    waiters = v.waiters;
    fifo = v.fifo;
    handled = v.handled;
    sound = v.sound;
    unborn = v.unborn;
    up = refl;
    live = λ r. cc;
    empty = λ _. v.empty (ground arith);
    quiet = λ _. v.quiet (ground arith);
  }

  joins-Inv : (s : System T) → s.phase ≡ joining → Inv s → Inv (record s { phase = over })
  joins-Inv s e v = record {
    permits = v.permits;
    small = v.small;
    waiters = v.waiters;
    fifo = v.fifo;
    handled = v.handled;
    sound = v.sound;
    unborn = v.unborn;
    up = ground (arith, v.up);
    live = v.live;
    empty = λ _. v.empty (ground arith);
    quiet = λ _. v.quiet (ground arith);
  }

  -- While a worker is in `func_`, `cleanup` has not left its loop.
  busy-unsettled :
      {s : System T} (i : ℕ) {u : T}
      → Inv s
      → i < s.threads
      → s.worker i ≡ busy u
      → settled s.phase ≡ false
  busy-unsettled {s} i v h e = elim (Bool-cases (settled s.phase)) [
    | inl q ↦ ground (arith, v.quiet q i h)
    | inr q ↦ q
  ]

  Keeps-some : {o : Option (System T)} {s : System T} → Keeps o → o ≡ some s → Inv s
  Keeps-some k e = subst Keeps e k

  Step-Inv : {s t : System T} → Step s t → Inv s → Inv t
  Step-Inv {s} (spawns e) v = spawn-Inv s e v
  Step-Inv {s} (assigns t e room) v = assign-Inv t s (ground arith) room v
  Step-Inv {s} (occupies t e room) v = occupy-Inv t s (ground arith) room v
  Step-Inv {s} (works i h e) v = Keeps-some (advance-Inv s i h v (s.worker i) refl) e
  Step-Inv {s} (calls_assign i u t h e room) v = assign-Inv t s (busy-unsettled i v h e) room v
  Step-Inv {s} (calls_occupy i u t h e room) v = occupy-Inv t s (busy-unsettled i v h e) room v
  Step-Inv {s} (cleans e) v = cleans-Inv s e v
  Step-Inv {s} (checks e) v = check-Inv s e v
  Step-Inv {s} (tears e) v = tears-Inv s e v
  Step-Inv {s} (joins e _) v = joins-Inv s e v

  pub Reach-Inv : {s : System T} → Reach s → Inv s
  Reach-Inv begin = start-Inv
  Reach-Inv (next r st) = Step-Inv st (Reach-Inv r)
