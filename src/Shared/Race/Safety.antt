-- ===== src/Shared/Race/Safety.antt =====
-- What holds in every interleaving of copies and releases.
use libmandrews.Prelude.{
  ℕ, zero, suc, ◌+◌, ◌*◌, ◌≤◌, ◌<◌, ◌≡◌, ◌≢◌, refl, Bool, Option, none, some, arith, update, ◌⊎◌,
  total, total-update, total-eq-zero, le-total, Returns, Returns-some,
}
use mathlib.Core.Path.{subst}
use libmandrews.Shared.{word}
use libmandrews.Shared.Race.{
  Stage, absent, counted, held, asserted, sole, several, freeing, calling, gone, State, init,
  increment, assert_positive, compare, decrement, free_cnt, free_cow, mark, advance, Reach, begin,
  copies, moves,
}

-- The handles that count, but for one that has found itself the last; those; and those that free.
abbrev pub busy : Stage → ℕ
busy counted = 1
busy held = 1
busy asserted = 1
busy several = 1
busy _ = 0

abbrev pub lone : Stage → ℕ
lone sole = 1
lone _ = 0

abbrev pub frees : Stage → ℕ
frees freeing = 1
frees _ = 0

abbrev pub calls_next : Stage → ℕ
calls_next calling = 1
calls_next _ = 0

-- A handle that is in the count.
abbrev pub counts : Stage → ℕ
counts g = busy g + lone g

-- The totals of a count that is alive, freed, and freed with its flag.
abbrev pub Phase : ℕ → Option ℕ → Option Bool → ℕ → (ℕ → Stage) → Type 0
Phase n (some c) (some b) k f =
    (c ≡ total busy n f + total lone n f)
    × ((c ≤ 1) ⊎ (total lone n f ≡ 0))
    × (total frees n f ≡ 0)
    × (total calls_next n f ≡ 0)
    × (k ≡ 0)
Phase n none (some b) k f =
    (total busy n f ≡ 0)
    × (total lone n f ≡ 0)
    × (total frees n f ≡ 1)
    × (total calls_next n f ≡ 0)
    × (k ≡ 0)
Phase n none none k f =
    (total busy n f ≡ 0)
    × (total lone n f ≡ 0)
    × (total frees n f ≡ 0)
    × (k + total calls_next n f ≡ 1)
Phase n (some c) none k f = ⊥

abbrev pub Inv : ℕ → State → Type 0
Inv n s = Phase n s.cnt s.cow s.calls s.stage

counts-le : (n : ℕ) (f : ℕ → Stage) → total busy n f + total lone n f ≤ n
unfolding total
counts-le zero f = omega arith
counts-le (suc n) f = ground (arith, counts-le n f)

module _ {n : ℕ} (f : ℕ → Stage) (i : ℕ) (h : i < n) where
  -- What a move of one handle does to the totals.
  abbrev Shift : (Stage → ℕ) → Stage → Stage → Type 0
  Shift w g t = (total w n (update f i t) + w g ≡ total w n f + w t) × (w g ≤ total w n f)

  shift : (w : Stage → ℕ) (g t : Stage) → f i ≡ g → Shift w g t
  shift w g t e = (ground (arith, total-update w n f i t h), ground (arith, le-total w n f i h))

  abbrev Shifts : Stage → Stage → Type 0
  Shifts g t = Shift busy g t × Shift lone g t × Shift frees g t × Shift calls_next g t

  shifts : (g t : Stage) → f i ≡ g → Shifts g t
  shifts g t e = (shift busy g t e, shift lone g t e, shift frees g t e, shift calls_next g t e)

  abbrev state : Option ℕ → Option Bool → ℕ → State
  state c w k = record { cnt = c; cow = w; calls = k; stage = f }

  -- No step faults, and each keeps the totals.
  advance-Inv :
      (g : Stage) (c : Option ℕ) (w : Option Bool) (k : ℕ)
      → n < word
      → f i ≡ g
      → Phase n c w k f
      → Returns (advance g i (state c w k)) (Inv n)
  unfolding advance assert_positive compare decrement free_cnt free_cow mark
  advance-Inv absent c w k b e v = v
  advance-Inv gone c w k b e v = v
  advance-Inv counted c w k b e v = ground (arith, shifts counted held e)
  advance-Inv held c w k b e v = ground (arith, shifts held asserted e)
  advance-Inv asserted c w k b e v =
      ground (arith, shifts asserted sole e, shifts asserted several e)
  advance-Inv sole c w k b e v = ground (arith, shifts sole freeing e)
  advance-Inv several c w k b e v = ground (arith, shifts several gone e, counts-le n f)
  advance-Inv freeing c w k b e v = ground (arith, shifts freeing calling e)
  advance-Inv calling c w k b e v = ground (arith, shifts calling gone e)

  -- Nor does the increment of a copy.
  increment-Inv :
      (c : Option ℕ) (w : Option Bool) (k : ℕ)
      → n < word
      → f i ≡ absent
      → total busy n f ≢ 0
      → Phase n c w k f
      → Returns (increment c i (state c w k)) (Inv n)
  unfolding increment
  increment-Inv c w k b e p v =
      ground (arith, shifts absent counted e, counts-le n (update f i counted))

init-Inv : (n : ℕ) → 0 < n → Inv n init
unfolding init
init-Inv n h = ground (
  arith,
  shifts {n = n} (λ _. absent) 0 h absent held refl,
  total-eq-zero busy n (λ _. absent) (λ _ _. refl),
  total-eq-zero lone n (λ _. absent) (λ _ _. refl),
  total-eq-zero frees n (λ _. absent) (λ _ _. refl),
  total-eq-zero calls_next n (λ _. absent) (λ _ _. refl),
)

of_some : (n : ℕ) {t : State} (o : Option State) → o ≡ some t → Returns o (Inv n) → Inv n t
of_some n {t} o e v = subst (λ o. Returns o (Inv n)) e v

pub Reach-Inv : {n : ℕ} {s : State} → n < word → 0 < n → Reach n s → Inv n s
Reach-Inv {n} b p begin = init-Inv n p
Reach-Inv {n} b p (copies {s} i j r hi hj ei ej e) =
    let one = (shift s.stage i hi busy held held ei).1 in
    of_some n (increment s.cnt j s) e
      (increment-Inv s.stage j hj s.cnt s.cow s.calls b ej (omega (arith, one)) (Reach-Inv b p r))
Reach-Inv {n} b p (moves {s} i r h e) =
    of_some n (advance (s.stage i) i s) e
      (advance-Inv s.stage i h (s.stage i) s.cnt s.cow s.calls b refl (Reach-Inv b p r))

-- What is left of the count.
abbrev pub remaining : Option ℕ → ℕ
remaining none = 0
remaining (some c) = c

-- The count is that of the handles in it, and the destructor is called at most once, and not while
-- a handle is in the count.
abbrev pub Sound : ℕ → State → Type 0
Sound n t =
    (remaining t.cnt ≡ total counts n t.stage)
    × (t.calls ≤ 1)
    × (t.calls * total counts n t.stage ≡ 0)

total-counts : (n : ℕ) (f : ℕ → Stage) → total counts n f ≡ total busy n f + total lone n f
unfolding total
total-counts zero f = refl
total-counts (suc n) f = omega (arith, total-counts n f)

Phase-Sound :
    (n : ℕ) (c : Option ℕ) (w : Option Bool) (k : ℕ) (f : ℕ → Stage)
    → Phase n c w k f
    → Sound n (record { cnt = c; cow = w; calls = k; stage = f })
Phase-Sound n c w k f v = ground (arith, total-counts n f)

-- In every interleaving of copies and releases of fewer than 2^64 handles of one count by any
-- threads, the next step of any handle neither fails an assertion nor uses freed memory, and
-- after it the count is that of the handles in it (0 if it is freed), the destructor was called
-- at most once, and not while a handle is in the count.
pub never_faults :
    {n : ℕ} {s : State} (i : ℕ)
    → n < word
    → i < n
    → Reach n s
    → Returns (advance (s.stage i) i s) (Sound n)
never_faults {n} {s} i b h r =
    let v = Reach-Inv b (omega arith) r in
    let (t, e, w) =
      Returns-some (advance (s.stage i) i s)
        (advance-Inv s.stage i h (s.stage i) s.cnt s.cow s.calls b refl v) in
    rw e (Phase-Sound n t.cnt t.cow t.calls t.stage w)

-- As long as the count is allocated it is that of the handles in it, and no destructor was called.
pub Reach-allocated :
    {n : ℕ} {s : State} (c : ℕ)
    → n < word
    → 0 < n
    → Reach n s
    → s.cnt ≡ some c
    → (s.calls ≡ 0) × (total counts n s.stage ≡ c)
Reach-allocated {n} {s} c b p r e = allocated n s.cnt s.cow s.calls s.stage e (Reach-Inv b p r)
  where
    allocated :
        (n : ℕ) {c : ℕ} (o : Option ℕ) (w : Option Bool) (k : ℕ) (f : ℕ → Stage)
        → o ≡ some c
        → Phase n o w k f
        → (k ≡ 0) × (total counts n f ≡ c)
    allocated n o w k f e v = ground (arith, total-counts n f)
