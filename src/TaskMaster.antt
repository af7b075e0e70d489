-- ===== src/TaskMaster.antt =====
-- The class template `TaskMaster` of taskmaster.h: a queue of tasks, a `Semaphore` that counts them,
-- and worker threads. A step is what one thread does up to its next access of shared state.
-- `assigned`, `taken` and `finished` are logs that the program does not keep.
pub mod Invariant
pub mod Safety
pub mod Shutdown
mod Tests
use libmandrews.Prelude.{
  ℕ, suc, ◌+◌, ◌-◌, ◌<◌, ◌≡◌, Bool, true, false, ◌&&◌, Option, none, some, List, [], ◌∷◌, ◌++◌, ltb,
  leb, ◌==◌, if◌then◌else◌, length, update,
}
use libmandrews.Semaphore.{Semaphore, word}
use libmandrews.Semaphore

-- Where a worker stands in `worker` and `obey`.
pub data Worker (T : Type 0) : Type 0 where
  idle : Worker T  -- before `waiting_++`
  waiting : Worker T  -- in `sem_.wait()`
  granted : Worker T  -- `sem_.wait()` has returned true, before `waiting_--`
  taking : Worker T  -- before the section under `lock_`
  busy : T → Worker T  -- in `func_`
  stopped : Worker T  -- `sem_.wait()` has returned false, and the thread ends
  crashed : Worker T  -- `front()` of an empty queue

-- Where the owner stands: `serving` before `cleanup`, `draining` in its loop, `tearing` after the
-- `break`, `joining` after `teardown`, `over` when every thread has been joined.
pub data Phase : Type 0 where
  serving draining tearing joining over : Phase

pub record System (T : Type 0) : Type 0 where
  pub sem : Semaphore
  pub waiters : ℕ  -- std::atomic<int> waiting_
  pub tasks : List T
  pub threads : ℕ  -- threads_.size()
  pub worker : ℕ → Worker T
  pub phase : Phase
  pub assigned : List T
  pub taken : List T
  pub finished : List T

module _ {T : Type 0} where
  -- The constructor.
  unfoldable pub start : System T
  unfolding Semaphore.create
  start = record {
    sem = Semaphore.create 0;
    waiters = 0;
    tasks = [];
    threads = 0;
    worker = λ _. idle;
    phase = serving;
    assigned = [];
    taken = [];
    finished = [];
  }

  unfoldable pub spawn : System T → System T
  spawn s = record s { threads = s.threads + 1 }

  unfoldable pub assign : T → System T → System T
  unfolding Semaphore.notify
  assign t s = record s {
    tasks = s.tasks ++ t ∷ [];
    sem = Semaphore.notify s.sem;
    assigned = s.assigned ++ t ∷ [];
  }

  unfoldable pub occupied : System T → Bool
  occupied s = ltb s.threads (length s.tasks)

  unfoldable pub occupy : T → System T → System T × Bool
  unfolding assign
  occupy t s = if leb (length s.tasks) s.threads then (assign t s, true) else (s, false)

  unfoldable pub goto : ℕ → Worker T → System T → System T
  goto i w s = record s { worker = update s.worker i w }

  -- The section of `obey` under `lock_`.
  unfoldable pub take_front : List T → ℕ → System T → System T
  unfolding goto
  take_front [] i s = goto i crashed s
  take_front (t ∷ rest) i s = goto i (busy t) (record s { tasks = rest; taken = s.taken ++ t ∷ [] })

  abbrev woken : Bool → Worker T
  woken true = granted
  woken false = stopped

  unfoldable pub after_wait : Option (Semaphore × Bool) → ℕ → System T → Option (System T)
  unfolding goto
  after_wait none i s = none
  after_wait (some (sem, ok)) i s = some (goto i (woken ok) (record s { sem = sem }))

  -- The next step of worker `i`, which stands at the first argument; `none` while it is blocked.
  unfoldable pub advance : Worker T → ℕ → System T → Option (System T)
  unfolding goto take_front after_wait Semaphore.wait
  advance idle i s = some (goto i waiting (record s { waiters = s.waiters + 1 }))
  advance waiting i s = after_wait (Semaphore.wait s.sem) i s
  advance granted i s = some (goto i taking (record s { waiters = s.waiters - 1 }))
  advance taking i s = some (take_front s.tasks i s)
  advance (busy t) i s = some (goto i idle (record s { finished = s.finished ++ t ∷ [] }))
  advance stopped i s = none
  advance crashed i s = none

  -- One round of the loop of `cleanup`.
  unfoldable pub check : System T → System T
  check s =
      if (s.waiters == s.threads) && (length s.tasks == 0) then record s { phase = tearing } else s

  unfoldable pub teardown : System T → System T
  unfolding Semaphore.teardown
  teardown s = record s { sem = Semaphore.teardown s.sem; phase = joining }

  -- One more task keeps their number, and with it the count of the semaphore, from wrapping.
  abbrev pub HasRoom : System T → Type 0
  HasRoom s = length s.tasks + 1 < word

  -- Any interleaving. The owner assigns before `cleanup`, a worker from within `func_`.
  pub data Step (s : System T) : System T → Type 0 where
    spawns : s.phase ≡ serving → Step s (spawn s)
    assigns : (t : T) → s.phase ≡ serving → HasRoom s → Step s (assign t s)
    occupies : (t : T) → s.phase ≡ serving → HasRoom s → Step s (occupy t s).0
    works : (i : ℕ) {s' : System T} → i < s.threads → advance (s.worker i) i s ≡ some s' → Step s s'
    calls_assign :
        (i : ℕ) (u t : T) → i < s.threads → s.worker i ≡ busy u → HasRoom s → Step s (assign t s)
    calls_occupy :
        (i : ℕ) (u t : T) → i < s.threads → s.worker i ≡ busy u → HasRoom s → Step s (occupy t s).0
    cleans : s.phase ≡ serving → Step s (record s { phase = draining })
    checks : s.phase ≡ draining → Step s (check s)
    tears : s.phase ≡ tearing → Step s (teardown s)
    joins :
        s.phase ≡ joining
        → ((i : ℕ) → i < s.threads → s.worker i ≡ stopped)
        → Step s (record s { phase = over })

  pub data Reach : System T → Type 0 where
    begin : Reach start
    next : {s t : System T} → Reach s → Step s t → Reach t
