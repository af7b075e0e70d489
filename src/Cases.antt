-- ===== src/Cases.antt =====
-- `Case` and `TestRun` of cases.h and cases.hpp: argument lists of a test run in child processes. What
-- `fork`, `read`, `waitpid` and the clock answer is an argument. A failed ASSERT or SysCall aborts here.
pub mod Flushing
pub mod Waiting
pub mod Exits
pub mod Overdue
pub mod Messages
pub mod Run
pub mod Forking
pub mod Running
pub mod Templated
pub mod Written
mod Tests
use libmandrews.Prelude.{
  ℕ, zero, suc, ◌+◌, ◌-◌, ◌*◌, ◌%◌, ◌^◌, Bool, true, false, ◌&&◌, Option, none, some, List, [], ◌∷◌,
  ◌++◌, ltb, ◌==◌, if◌then◌else◌,
}

abbrev pub word : ℕ
word = 2 ^ 64

abbrev pub us_per_sec : ℕ
us_per_sec = 1000000

-- `_expected`, `_timeout` in seconds, and `_start`, the time of the last fork.
pub record Case : Type 0 where
  pub expected : ℕ
  pub timeout : ℕ
  pub start : ℕ

-- A `TestProcess`: the number of its argument list, its process, and what it has printed.
pub record Child : Type 0 where
  pub i : ℕ
  pub pid : ℕ
  pub buf : List ℕ

pub data Result : Type 0 where
  success failure timeout : Result

-- What `::read` answers: EAGAIN, another error, or some bytes; no bytes at the end of the pipe.
pub data Reading : Type 0 where
  again broken : Reading
  got : List ℕ → Reading

pub data Flushed : Type 0 where
  drained : List ℕ → Flushed
  aborted : Flushed
  looping : List ℕ → Flushed

-- `Flush`. When the answers end, the call has not returned.
unfoldable pub flush : List Reading → List ℕ → Flushed
flush [] buf = looping buf
flush (again ∷ reads) buf = flush reads buf
flush (broken ∷ reads) buf = aborted
flush (got [] ∷ reads) buf = drained buf
flush (got (b ∷ bytes) ∷ reads) buf = flush reads (buf ++ b ∷ bytes)

-- What `::waitpid` answers: 0, a process with its status, or an error.
pub data Waited : Type 0 where
  not_yet wait_failed : Waited
  reaped : ℕ → ℕ → Waited

pub data Verdict : Type 0 where
  running stuck dead : Verdict
  judged : Result → Verdict

-- `now() - _start`, and `_timeout * US_PER_SEC`
abbrev pub elapsed : ℕ → ℕ → ℕ
elapsed start clock = (clock + word - start) % word

abbrev pub limit : ℕ → ℕ
limit seconds = (seconds * us_per_sec) % word

-- `WaitPid`.
unfoldable pub wait_pid : Case → Child → Waited → ℕ → Verdict
wait_pid c child wait_failed clock = dead
wait_pid c child not_yet clock =
    if ltb (elapsed c.start clock) (limit c.timeout) then running else judged timeout
wait_pid c child (reaped pid status) clock =
    if pid == child.pid then judged (if status == c.expected then success else failure) else dead

-- One visit of the loop of `WaitAll` to a child.
pub record Visit : Type 0 where
  pub reads : List Reading
  pub waited : Waited
  pub clock : ℕ

-- `Flush`, and then `WaitPid`.
abbrev pub after_flush : Case → Child → Visit → Flushed → Verdict × Child
after_flush c child v (drained buf) =
    (wait_pid c child v.waited v.clock, record child { buf = buf })
after_flush c child v aborted = (dead, child)
after_flush c child v (looping buf) = (stuck, record child { buf = buf })

unfoldable pub visit : Case → Child → Visit → Verdict × Child
unfolding flush wait_pid
visit c child v = after_flush c child v (flush v.reads child.buf)

-- What `Finish` reports of a child.
pub record Report : Type 0 where
  pub child : Child
  pub result : Result

-- A call that has returned, with its value; one that has aborted; one that is still in its loop; and one
-- that has come to `++it` behind `erase(it)`, which the standard gives no meaning, with `success` and the
-- child that it has reported and erased.
pub data Outcome : Type 0 where
  returned : Bool → Outcome
  killed waiting : Outcome
  invalid : Bool → Report → Outcome

abbrev pub is_success : Result → Bool
is_success success = true
is_success failure = false
is_success timeout = false

abbrev pub report : Child → Result → Report
report child r = record { child = child; result = r }

-- What the loop does with a verdict: it goes on to the next child, or reports and erases.
abbrev pub settle : Verdict × Child → Bool → (Child → Outcome) → Outcome
settle (running, child) ok on = on child
settle (judged r, child) ok on = invalid (ok && is_success r) (report child r)
settle (stuck, child) ok on = waiting
settle (dead, child) ok on = killed

-- `ASSERT(success)`
abbrev pub asserted : Bool → Outcome → Outcome
asserted true (returned false) = killed
asserted cautious o = o

-- The loops of `WaitAll`. The children before the iterator are `kept`, those from it on are `todo`.
module _ (c : Case) where
  unfoldable pub wait_loop : List Visit → List Child → List Child → Bool → Outcome
  unfolding visit
  wait_loop visits [] [] ok = returned ok
  wait_loop [] kept (child ∷ todo) ok = waiting
  wait_loop [] (child ∷ kept) [] ok = waiting
  wait_loop (v ∷ visits) kept (child ∷ todo) ok =
      settle (visit c child v) ok (λ child. wait_loop visits (kept ++ child ∷ []) todo ok)
  wait_loop (v ∷ visits) (child ∷ kept) [] ok =
      settle (visit c child v) ok (λ child. wait_loop visits (child ∷ []) kept ok)

  unfoldable pub wait_all : Bool → List Visit → List Child → Outcome
  unfolding wait_loop
  wait_all cautious visits children = asserted cautious (wait_loop visits [] children true)
