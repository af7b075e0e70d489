-- ===== src/TaskMaster/Invariant/Defs.antt =====
-- The invariant of `TaskMaster`: the semaphore counts the queued tasks that no worker has been
-- granted yet, `waiting_` the workers that are blocked, and the queue is first in, first out.
use libmandrews.Prelude.{
  ℕ, ◌+◌, ◌≤◌, ◌<◌, ◌≡◌, ◌≢◌, Bool, true, false, [], ◌++◌, arith, length, weight, tally, total,
}
use libmandrews.Semaphore.{word}
use libmandrews.TaskMaster.{
  Worker, idle, waiting, granted, taking, busy, stopped, crashed, Phase, serving, draining, joining,
  over, System,
}

-- grants that have not yet been used to take a task
abbrev pub demand : {T : Type 0} → Worker T → ℕ
demand granted = 1
demand taking = 1
demand _ = 0

-- counted in `waiting_`
abbrev pub counted : {T : Type 0} → Worker T → ℕ
counted waiting = 1
counted granted = 1
counted stopped = 1
counted _ = 0

pub counted-le : {T : Type 0} (w : Worker T) → counted w ≤ 1
counted-le w = ground arith

-- in `func_` with a task that passes the test
abbrev pub working : {T : Type 0} → (T → Bool) → Worker T → ℕ
working p (busy t) = weight (p t)
working p _ = 0

abbrev pub parked : {T : Type 0} → Worker T → Bool
parked waiting = true
parked stopped = true
parked _ = false

-- before `teardown`
abbrev pub open_phase : Phase → Bool
open_phase joining = false
open_phase over = false
open_phase _ = true

-- after the loop of `cleanup`
abbrev pub settled : Phase → Bool
settled serving = false
settled draining = false
settled _ = true

pub record Inv {T : Type 0} (s : System T) : Type 0 where
  pub permits :
      s.sem.running ≡ true → s.sem.count + total demand s.threads s.worker ≡ length s.tasks
  pub small : length s.tasks < word
  pub waiters : s.waiters ≡ total counted s.threads s.worker
  pub fifo : s.taken ++ s.tasks ≡ s.assigned
  pub handled :
      (p : T → Bool) → tally p s.finished + total (working p) s.threads s.worker ≡ tally p s.taken
  pub sound : (i : ℕ) → s.worker i ≢ crashed
  pub unborn : (i : ℕ) → s.threads ≤ i → s.worker i ≡ idle
  pub up : s.sem.running ≡ open_phase s.phase
  pub live : s.sem.running ≡ true → (i : ℕ) → s.worker i ≢ stopped
  pub empty : settled s.phase ≡ true → s.tasks ≡ []
  pub quiet : settled s.phase ≡ true → (i : ℕ) → i < s.threads → parked (s.worker i) ≡ true
