-- ===== src/Shared/Race/Settled.antt =====
-- What is left when no handle of a count is in use any more.
use libmandrews.Prelude.{
  ℕ, ◌<◌, ◌≡◌, ◌⊎◌, refl, Bool, Option, none, some, arith, total, total-eq-zero, inl, inr,
}
use libmandrews.Shared.{word}
use libmandrews.Shared.Race.{Stage, absent, gone, State, Reach}
use libmandrews.Shared.Race.Safety.{busy, lone, frees, calls_next, Phase, Reach-Inv}

-- A handle that was never made, or that was let go of.
abbrev pub IsIdle : Stage → Type 0
IsIdle absent = Unit
IsIdle gone = Unit
IsIdle _ = ⊥

idle_zero :
    (g : Stage) → IsIdle g → (busy g ≡ 0) × (lone g ≡ 0) × (frees g ≡ 0) × (calls_next g ≡ 0)
idle_zero g h = ground arith

-- The count and the flag are freed and the destructor was called once, or the count stays at 0 and it
-- was not called.
abbrev pub Ended : Option ℕ → Option Bool → ℕ → Type 0
Ended c w k = ((c ≡ none) × (w ≡ none) × (k ≡ 1)) ⊎ ((c ≡ some 0) × (k ≡ 0))

ended :
    (n : ℕ) (c : Option ℕ) (w : Option Bool) (k : ℕ) (f : ℕ → Stage)
    → total busy n f ≡ 0
    → total lone n f ≡ 0
    → total frees n f ≡ 0
    → total calls_next n f ≡ 0
    → Phase n c w k f
    → Ended c w k
ended n (some c) (some w) k f b l r x v = inr (ground arith, ground arith)
ended n none (some w) k f b l r x v = absurd (ground arith)
ended n none none k f b l r x v = inl (refl, refl, omega (arith, v.3, x))
ended n (some c) none k f b l r x v = elim v [ ]

-- In every interleaving of copies and releases of fewer than 2^64 handles of one count, when no
-- handle is in use any more, either count and flag are freed and the destructor was called
-- exactly once, or the count is left at 0 and it was not called.
pub idle-Ended :
    {n : ℕ} {s : State}
    → n < word
    → 0 < n
    → Reach n s
    → ((i : ℕ) → i < n → IsIdle (s.stage i))
    → Ended s.cnt s.cow s.calls
idle-Ended {n} {s} b p r idle =
    ended n s.cnt s.cow s.calls s.stage
      (total-eq-zero busy n s.stage λ i h. (idle_zero (s.stage i) (idle i h)).0)
      (total-eq-zero lone n s.stage λ i h. (idle_zero (s.stage i) (idle i h)).1)
      (total-eq-zero frees n s.stage λ i h. (idle_zero (s.stage i) (idle i h)).2)
      (total-eq-zero calls_next n s.stage λ i h. (idle_zero (s.stage i) (idle i h)).3)
      (Reach-Inv b p r)
