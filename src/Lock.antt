-- ===== src/Lock.antt =====
-- The class `Lock` of lock.h, a mutex that is a context, and threads that go through blocks
-- `with(lock) { … }` of context.h, in any interleaving.
use libmandrews.Prelude.{
  ℕ, ◌≡◌, ◌↔◌, refl, true, Option, none, some, arith, ◌==◌, if◌then◌else◌, update, Option-cases,
  inl, inr,
}
use mathlib.Core.Path.{subst}

-- Where a thread is: out of the block, in `__enter` of the context, in the block, and where it leaves
-- it, in `__exit`.
pub data Place : Type 0 where
  outside entering inside exiting : Place

-- The thread that holds the mutex, and the threads.
pub record State : Type 0 where
  pub owner : Option ℕ
  pub place : ℕ → Place

unfoldable pub init : State
init = record { owner = none; place = λ _. outside }

-- `lock()` by thread `i` returns when the mutex is free; `none` is to wait.
unfoldable pub lock : ℕ → Option ℕ → Option (Option ℕ)
lock i none = some (some i)
lock i (some j) = none

-- What `unlock()` is for: the mutex is held by the thread.
pub data Unlocked : Type 0 where
  released misused : Unlocked

unfoldable pub unlock : ℕ → Option ℕ → Unlocked
unlock i none = misused
unlock i (some j) = if i == j then released else misused

abbrev pub move : ℕ → Place → State → State
move i p s = record s { place = update s.place i p }

-- A step of thread `i` of the place: its end, a wait, or the use of a mutex that it does not hold.
pub data Step : Type 0 where
  goes : State → Step
  waits faults : Step

abbrev pub locked : ℕ → State → Option (Option ℕ) → Step
locked i s none = waits
locked i s (some owner) = goes (move i inside (record s { owner = owner }))

abbrev pub unlocked : ℕ → State → Unlocked → Step
unlocked i s released = goes (move i outside (record s { owner = none }))
unlocked i s misused = faults

-- `ContextWrapper(var)` calls `__enter`, and its destructor `__exit`.
unfoldable pub advance : Place → ℕ → State → Step
unfolding lock unlock
advance outside i s = goes (move i entering s)
advance entering i s = locked i s (lock i s.owner)
advance inside i s = goes (move i exiting s)
advance exiting i s = unlocked i s (unlock i s.owner)

pub data Reach : State → Type 0 where
  begin : Reach init
  moves : {s t : State} (i : ℕ) → Reach s → advance (s.place i) i s ≡ goes t → Reach t

-- Whether a thread in this place is to hold the mutex.
abbrev pub holds : Place → ℕ
holds inside = 1
holds exiting = 1
holds _ = 0

-- A thread holds the mutex exactly if it is in the block.
Inv : State → Type 0
Inv s = (i : ℕ) → (holds (s.place i) ≡ 1) ↔ (s.owner ≡ some i)

AfterInv : Step → Type 0
AfterInv (goes t) = Inv t
AfterInv waits = Unit
AfterInv faults = ⊥

advance-Inv : (i : ℕ) (s : State) (p : Place) → s.place i ≡ p → Inv s → AfterInv (advance p i s)
unfolding advance Inv AfterInv lock unlock
advance-Inv i s outside e v = λ j. ground (arith, v j)
advance-Inv i s entering e v = elim (Option-cases s.owner) [
  | inl free ↦ rw free (λ j. ground (arith, v j))
  | inr (k, held) ↦ rw held tt
]
advance-Inv i s inside e v = λ j. ground (arith, v j)
advance-Inv i s exiting e v =
    let mine : s.owner ≡ some i = (v i).0 (ground arith) in
    let self : (i == i) ≡ true = ground arith in rw (mine, self) (λ j. ground (arith, v j))

Reach-Inv : {s : State} → Reach s → Inv s
unfolding init Inv AfterInv
Reach-Inv begin = λ i. ground arith
Reach-Inv (moves {s} {t} i r e) = subst AfterInv e (advance-Inv i s (s.place i) refl (Reach-Inv r))

holder_goes :
    (p : Place) (i : ℕ) (s : State)
    → holds p ≡ 1
    → s.owner ≡ some i
    → (t : State) × (advance p i s ≡ goes t)
unfolding advance unlock
holder_goes outside i s h o = ground (arith, h)
holder_goes entering i s h o = ground (arith, h)
holder_goes inside i s h o = (move i exiting s, refl)
holder_goes exiting i s h o =
    let self : (i == i) ≡ true = ground arith in
    (move i outside (record s { owner = none }), rw (o, self) refl)

-- At most one thread is in the block, and it can always go on; it holds the mutex that it unlocks.
pub with-exclusive :
    {s : State} (i j : ℕ)
    → Reach s
    → holds (s.place i) ≡ 1
    → holds (s.place j) ≡ 1
    → (i ≡ j) × ((t : State) × (advance (s.place i) i s ≡ goes t))
unfolding Inv
with-exclusive {s} i j r hi hj =
    let v = Reach-Inv r in
    let first : s.owner ≡ some i = (v i).0 hi in
    let second : s.owner ≡ some j = (v j).0 hj in
    (ground arith, holder_goes (s.place i) i s hi first)
