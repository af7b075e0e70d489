-- ===== src/Timing.antt =====
-- timing.h and context.h: a callback at intervals, and timers as contexts of `with`. The clock's answers
-- are an argument.
pub mod Interval
pub mod Timers
mod Tests
use libmandrews.Prelude.{
  ℕ, zero, suc, ◌+◌, ◌-◌, ◌*◌, ◌%◌, ◌^◌, Bool, true, false, ◌&&◌, Option, none, some, List, [], ◌∷◌,
  ◌++◌, ltb, if◌then◌else◌, ◌>>=◌,
}
use libmandrews.Output.Dump.{indent, unindent}

abbrev pub word : ℕ
word = 2 ^ 64

-- `wait > 0`, for the signed long `next - now()`, and the argument of `usleep`, an unsigned int: what to
-- sleep, if anything.
abbrev pub pause : ℕ → ℕ → Option ℕ
pause next clock =
    let wait = (next + word - clock) % word in
    if ltb 0 wait && ltb wait (2 ^ 63) then some (wait % 2 ^ 32) else none

-- One call of the callback: whether it wants to go on, and what `now()` answers after it.
pub record Turn : Type 0 where
  pub goes_on : Bool
  pub clock : ℕ

-- The loop of `interval_callback`: whether it has ended, with the calls of `usleep`, one entry for each
-- turn. `period` is `ms * 1000`, the product of two ints; `none` is its overflow.
unfoldable pub interval_loop : ℕ → ℕ → List Turn → List (Option ℕ) → Option (Bool × List (Option ℕ))
interval_loop period next [] slept = some (false, slept)
interval_loop period next (t ∷ turns) slept =
    let later = (next + period) % word in
    let rest = interval_loop period later turns (slept ++ pause later t.clock ∷ []) in
    if t.goes_on then (if ltb period (2 ^ 31) then rest else none) else some (true, slept)

-- For `ms` from 0 on.
unfoldable pub interval_callback : ℕ → ℕ → List Turn → Option (Bool × List (Option ℕ))
unfolding interval_loop
interval_callback ms start turns = interval_loop (ms * 1000) start turns []

-- What timers print: the name and the indentation, and the microseconds.
pub data Note : Type 0 where
  beginning : ℕ → ℕ → Note
  took : ℕ → ℕ → ℕ → Note

pub record World : Type 0 where
  pub clocks : List ℕ
  pub indentation : ℕ
  pub notes : List Note

-- `now()`, if the clock answers once more.
abbrev pub now : World → Option (ℕ × World)
now w = tell w.clocks
  where
    tell : List ℕ → Option (ℕ × World)
    tell [] = none
    tell (t ∷ clocks) = some (t, record w { clocks = clocks })

-- `Timer::__enter` and `Timer::__exit`; `m_start` is the first result of the one and an argument of the
-- other.
unfoldable pub enter : ℕ → World → Option (ℕ × World)
unfolding indent
enter name w = now (record w {
  notes = w.notes ++ beginning name w.indentation ∷ [];
  indentation = indent w.indentation;
})

abbrev pub finish : ℕ → ℕ → ℕ × World → World
finish name start (t, w) =
    let out = unindent w.indentation in
    record w {
      indentation = out;
      notes = w.notes ++ took name out ((t + word - start) % word) ∷ [];
    }

unfoldable pub exit : ℕ → ℕ → World → Option World
unfolding unindent
exit name start w = do r ← now w; some (finish name start r)

-- Blocks under `with`, which a `ContextWrapper` enters and leaves: what is timed, and what follows.
pub data Code : Type 0 where
  done : Code
  timed : ℕ → Code → Code → Code

unfoldable pub run : Code → World → Option World
unfolding enter exit
run done w = some w
run (timed name body rest) w = do
  r ← enter name w
  w ← run body r.1
  w ← exit name r.0 w
  run rest w
