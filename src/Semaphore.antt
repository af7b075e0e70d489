-- ===== src/Semaphore.antt =====
-- The class `Semaphore` of semaphore.h. Each method runs under `mutex_`, so it is one step. A wait on
-- `condition_` returns only when its predicate holds: until then `wait` has no result.
pub mod Permits
mod Tests
use libmandrews.Prelude.{
  ℕ, ◌+◌, ◌-◌, ◌%◌, ◌^◌, Bool, true, false, ◌||◌, not, Option, none, some, ltb, if◌then◌else◌,
}

abbrev pub word : ℕ
word = 2 ^ 64

pub record Semaphore : Type 0 where
  pub count : ℕ  -- uint64_t count_
  pub running : Bool

unfoldable pub create : ℕ → Semaphore
create count = record { count = count; running = true }

unfoldable pub notify : Semaphore → Semaphore
notify s = record s { count = (s.count + 1) % word }

-- The predicate that `condition_.wait` is given.
unfoldable pub awake : Semaphore → Bool
awake s = not s.running || ltb 0 s.count

-- `none` while the thread sleeps. `--count_` wraps at 0.
unfoldable pub wait : Semaphore → Option (Semaphore × Bool)
unfolding awake
wait s =
    if awake s then some (record s { count = (s.count + word - 1) % word }, s.running) else none

unfoldable pub teardown : Semaphore → Semaphore
teardown s = record s { running = false }
