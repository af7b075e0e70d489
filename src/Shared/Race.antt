-- ===== src/Shared/Race.antt =====
-- The count of `Shared` under several threads. Its reads and writes are atomic, each a step of its own
-- here: the assertion and the comparison of `last`, the two `delete`s and `m_dtr()` of `unref`, its
-- decrement, and the increment and the flag of a copy. A handle is used by one thread at a time.
pub mod Safety
pub mod Leak
pub mod Settled
mod Tests
use libmandrews.Prelude.{
  ℕ, ◌+◌, ◌-◌, ◌%◌, ◌<◌, ◌≡◌, Bool, true, false, Option, none, some, leb, ◌==◌, if◌then◌else◌,
  update,
}
use libmandrews.Shared.{word}

-- Where a handle is: not made; in `ref` of its copy constructor, or at the flag after it; held by its
-- owner; in `unref`, after the assertion, on the way to `delete m_cnt`, to the decrement, to
-- `delete m_cow`, and to `m_dtr()`; and let go of.
pub data Stage : Type 0 where
  absent counted held asserted sole several freeing calling gone : Stage

-- `*m_cnt`, `*m_cow`, how often `m_dtr` was called, and the handles.
pub record State : Type 0 where
  pub cnt : Option ℕ
  pub cow : Option Bool
  pub calls : ℕ
  pub stage : ℕ → Stage

-- After the constructor: handle 0 is the only one.
unfoldable pub init : State
init = record { cnt = some 1; cow = some false; calls = 0; stage = update (λ _. absent) 0 held }

abbrev pub move : ℕ → Stage → State → State
move i g s = record s { stage = update s.stage i g }

-- `++*m_cnt` for the new handle `j`.
unfoldable pub increment : Option ℕ → ℕ → State → Option State
increment none j s = none
increment (some c) j s = some (move j counted (record s { cnt = some ((c + 1) % word) }))

-- The reads of `last`, and what follows from the second.
unfoldable pub assert_positive : Option ℕ → ℕ → State → Option State
assert_positive none i s = none
assert_positive (some c) i s = if leb 1 c then some (move i asserted s) else none

unfoldable pub compare : Option ℕ → ℕ → State → Option State
compare none i s = none
compare (some c) i s = some (move i (if c == 1 then sole else several) s)

-- `--*m_cnt`
unfoldable pub decrement : Option ℕ → ℕ → State → Option State
decrement none i s = none
decrement (some c) i s = some (move i gone (record s { cnt = some ((c + word - 1) % word) }))

unfoldable pub free_cnt : Option ℕ → ℕ → State → Option State
free_cnt none i s = none
free_cnt (some c) i s = some (move i freeing (record s { cnt = none }))

unfoldable pub free_cow : Option Bool → ℕ → State → Option State
free_cow none i s = none
free_cow (some b) i s = some (move i calling (record s { cow = none }))

unfoldable pub mark : Option Bool → ℕ → State → Option State
mark none i s = none
mark (some b) i s = some (move i held (record s { cow = some true }))

-- The next step of handle `i`; that of a handle that is held is the first of its destructor. `none`
-- is a fault: a failed assertion, or a use of memory that was freed.
unfoldable pub advance : Stage → ℕ → State → Option State
unfolding assert_positive compare decrement free_cnt free_cow mark
advance absent i s = some s
advance counted i s = mark s.cow i s
advance held i s = assert_positive s.cnt i s
advance asserted i s = compare s.cnt i s
advance sole i s = free_cnt s.cnt i s
advance several i s = decrement s.cnt i s
advance freeing i s = free_cow s.cow i s
advance calling i s = some (move i gone (record s { calls = s.calls + 1 }))
advance gone i s = some s

-- Handles below `n`, in any order of the steps. A copy is made of a handle that is held.
pub data Reach (n : ℕ) : State → Type 0 where
  begin : Reach n init
  copies :
      {s t : State} (i j : ℕ)
      → Reach n s
      → i < n
      → j < n
      → s.stage i ≡ held
      → s.stage j ≡ absent
      → increment s.cnt j s ≡ some t
      → Reach n t
  moves : {s t : State} (i : ℕ) → Reach n s → i < n → advance (s.stage i) i s ≡ some t → Reach n t
