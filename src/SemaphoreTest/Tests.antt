-- ===== src/SemaphoreTest/Tests.antt =====
-- One thread passes the semaphore and stands inside.
use libmandrews.Prelude.{◌+◌, ◌≤◌, refl, arith, true, total, update}
use libmandrews.SemaphoreTest.{
  State, permits, init, advance, passed, inside, Reach, begin, moves, held, c_nonneg,
}

abbrev entered : State
unfolding init
entered = record init {
  sem = record { count = 4; running = true };
  thread = update init.thread 0 passed;
}

abbrev counted : State
counted = record entered { downs = 1; thread = update entered.thread 0 inside }

entered-Reach : Reach 7 entered
unfolding init advance
entered-Reach = moves 0 begin (omega arith) refl

counted-Reach : Reach 7 counted
unfolding init advance
counted-Reach = moves 0 entered-Reach (omega arith) refl

c_nonneg_example : (counted.downs ≤ permits + counted.ups) × (total held 7 counted.thread ≤ permits)
c_nonneg_example = c_nonneg counted-Reach
