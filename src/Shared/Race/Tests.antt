-- ===== src/Shared/Race/Tests.antt =====
-- Two threads, each with one of two handles of the same count.
use libmandrews.Prelude.{ℕ, zero, suc, none, ◌≡◌, refl, true, some, arith, total, Returns, ◌<◌}
use libmandrews.Shared.Race.{
  counted, held, asserted, sole, freeing, calling, gone, assert_positive, compare, free_cnt,
  free_cow, State, init, move, increment, mark, advance, Reach, begin, copies, moves,
}
use libmandrews.Shared.Race.Safety.{counts, Sound, never_faults}
use libmandrews.Shared.Race.Leak.{both_decrement}
use libmandrews.Shared.Race.Settled.{IsIdle, Ended, idle-Ended}

abbrev copied : State
copied = move 1 counted (record init { cnt = some 2 })

abbrev pair : State
pair = move 1 held (record copied { cow = some true })

copied-Reach : Reach 2 copied
unfolding init increment
copied-Reach = copies 0 1 begin (omega arith) (omega arith) refl refl refl

pair-Reach : Reach 2 pair
unfolding init advance mark
pair-Reach = moves 1 copied-Reach (omega arith) refl

never_faults_example : Returns (advance (pair.stage 0) 0 pair) (Sound 2)
never_faults_example = never_faults 0 (omega arith) (omega arith) pair-Reach

both_decrement_example :
    (t : State) × Reach 2 t × (t.cnt ≡ some 0) × (t.calls ≡ 0) × (total counts 2 t.stage ≡ 0)
unfolding init
both_decrement_example =
    both_decrement 0 1 (omega arith) (omega arith) (omega arith) (omega arith) refl refl refl
      pair-Reach

-- The only handle is let go of.
abbrev checked : State
checked = move 0 asserted init

abbrev found_last : State
found_last = move 0 sole checked

abbrev freed : State
freed = move 0 freeing (record found_last { cnt = none })

abbrev unflagged : State
unflagged = move 0 calling (record freed { cow = none })

abbrev released : State
released = move 0 gone (record unflagged { calls = 1 })

found_last-Reach : Reach 1 found_last
unfolding init advance assert_positive compare
found_last-Reach =
    moves {s = checked} 0 (moves {s = init} 0 begin (omega arith) refl) (omega arith) refl

released-Reach : Reach 1 released
unfolding init advance free_cnt free_cow
released-Reach =
    moves {s = unflagged} 0
      (moves {s = freed} 0 (moves {s = found_last} 0 found_last-Reach (omega arith) refl)
        (omega arith) refl)
      (omega arith) refl

released-IsIdle : (i : ℕ) → i < 1 → IsIdle (released.stage i)
unfolding init
released-IsIdle zero h = tt
released-IsIdle (suc i) h = absurd (omega arith)

idle-Ended_example : Ended released.cnt released.cow released.calls
idle-Ended_example = idle-Ended (omega arith) (omega arith) released-Reach released-IsIdle
