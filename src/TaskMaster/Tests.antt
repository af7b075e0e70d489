-- ===== src/TaskMaster/Tests.antt =====
-- One thread and one task: the task is assigned, taken, obeyed, and `cleanup` waits for it.
use libmandrews.Prelude.{
  ℕ, ◌<◌, ◌≡◌, ◌≢◌, refl, Bool, true, ◌⊎◌, Option, none, some, [], ◌++◌, arith, tally,
}
use libmandrews.TaskMaster.{
  System, crashed, draining, tearing, over, start, spawn, assign, advance, check, teardown, spawns,
  assigns, works, cleans, checks, tears, Reach, begin, next,
}
use libmandrews.TaskMaster.Invariant.{parked}
use libmandrews.TaskMaster.Safety.{never_crashes, taken-tasks, cleanup_complete, cleanup_progress}
use libmandrews.TaskMaster.Shutdown.{cleanup_ends}

abbrev result : System ℕ → Option (System ℕ) → System ℕ
result s none = s
result s (some t) = t

-- The next step of the worker.
abbrev walk : System ℕ → System ℕ
walk s = result s (advance (s.worker 0) 0 s)

abbrev ready : System ℕ
ready = assign 5 (spawn start)

abbrev asking : System ℕ
asking = walk ready

abbrev permitted : System ℕ
permitted = walk asking

abbrev at_lock : System ℕ
at_lock = walk permitted

abbrev obeying : System ℕ
obeying = walk at_lock

abbrev again : System ℕ
again = walk (walk obeying)

abbrev cleaning : System ℕ
cleaning = record again { phase = draining }

abbrev closing : System ℕ
closing = teardown (check cleaning)

ready-Reach : Reach ready
unfolding start spawn
ready-Reach = next (next begin (spawns refl)) (assigns 5 refl (omega arith))

obeying-Reach : Reach obeying
unfolding assign spawn advance start
obeying-Reach =
    next
      (next (next (next ready-Reach (works 0 (omega arith) refl)) (works 0 (omega arith) refl))
        (works 0 (omega arith) refl))
      (works 0 (omega arith) refl)

cleaning-Reach : Reach cleaning
unfolding advance assign spawn start
cleaning-Reach =
    next (next (next obeying-Reach (works 0 (omega arith) refl)) (works 0 (omega arith) refl))
      (cleans refl)

closing-Reach : Reach closing
unfolding check advance assign spawn start
closing-Reach = next (next cleaning-Reach (checks refl)) (tears refl)

cleanup_complete_example :
    (closing.tasks ≡ [])
    × ((i : ℕ) → i < closing.threads → parked (closing.worker i) ≡ true)
    × ((p : ℕ → Bool) → tally p closing.finished ≡ tally p closing.assigned)
unfolding teardown
cleanup_complete_example = cleanup_complete closing-Reach refl

taken-tasks_example : obeying.taken ++ obeying.tasks ≡ obeying.assigned
taken-tasks_example = taken-tasks obeying-Reach

never_crashes_example : obeying.worker 0 ≢ crashed
never_crashes_example = never_crashes obeying-Reach 0

cleanup_ends_example : (t : System ℕ) × Reach t × (t.phase ≡ over) × (t.finished ≡ closing.finished)
unfolding teardown
cleanup_ends_example = cleanup_ends closing-Reach refl

cleaning-threads : 0 < cleaning.threads
unfolding advance assign spawn start
cleaning-threads = omega arith

cleanup_progress_example :
    ((check cleaning).phase ≡ tearing)
    ⊎ ((i : ℕ) × (i < cleaning.threads)
        × (s' : System ℕ) × (advance (cleaning.worker i) i cleaning ≡ some s'))
cleanup_progress_example = cleanup_progress cleaning-Reach refl cleaning-threads
