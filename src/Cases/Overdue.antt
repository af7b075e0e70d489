-- ===== src/Cases/Overdue.antt =====
-- `WaitAll` of cases.hpp while the children run, and up to the first that has overrun its time.
use mathlib.Core.Path.{subst}
use libmandrews.Prelude.{
  ◌≡◌, refl, sym, ap, ◌∙◌, Bool, true, false, not, List, [], ◌∷◌, ◌++◌, append_assoc, append-nil,
  arith, ltb,
}
use libmandrews.Cases.{
  Case, Child, Result, timeout, not_yet, running, judged, elapsed, limit, wait_pid, Visit, visit,
  report, Outcome, invalid, is_success, asserted, wait_loop, wait_all,
}
use libmandrews.Cases.Flushing.{closed, fate, printed, flush_lem}

abbrev pub is_overdue : Case → Visit → Bool
is_overdue c v = not (ltb (elapsed c.start v.clock) (limit c.timeout))

-- Each visit finds the pipe closed and the child alive, before the time limit.
abbrev pub Idle : Case → List Visit → Type 0
Idle c [] = Unit
Idle c (v ∷ visits) =
    (fate v.reads ≡ closed) × (v.waited ≡ not_yet) × (is_overdue c v ≡ false) × Idle c visits

-- A child with what a visit has read of it.
abbrev pub seen : Child → Visit → Child
seen child v = record child { buf = child.buf ++ printed v.reads }

-- The child whose turn it is after some visits, where each visited child goes behind the others.
abbrev pub front : List Visit → Child → List Child → Child
front [] child others = child
front (v ∷ visits) child [] = front visits (seen child v) []
front (v ∷ visits) child (next ∷ others) = front visits next (others ++ seen child v ∷ [])

module _ (c : Case) where
  visit-running :
      (child : Child) (v : Visit)
      → fate v.reads ≡ closed
      → v.waited ≡ not_yet
      → is_overdue c v ≡ false
      → visit c child v ≡ (running, seen child v)
  unfolding visit wait_pid
  visit-running child v f w early =
      let soon : ltb (elapsed c.start v.clock) (limit c.timeout) ≡ true = ground arith in
      rw (flush_lem v.reads child.buf, f, w, soon) refl

  -- The next round begins with the first child that was kept.
  next_round :
      (visits : List Visit) (child : Child) (kept : List Child)
      → wait_loop c visits (child ∷ kept) [] true ≡ wait_loop c visits [] (child ∷ kept) true
  unfolding wait_loop
  next_round [] child kept = refl
  next_round (v ∷ visits) child kept = refl

  module _ (v : Visit) (later : List Visit) (r : Result) where
    abbrev Judged : Child → Type 0
    Judged child = visit c child v ≡ (judged r, seen child v)

    abbrev ends_with : Child → Outcome
    ends_with child = invalid (is_success r) (report (seen child v) r)

    wait_loop-front :
        (idle : List Visit) (kept : List Child) (child : Child) (todo : List Child)
        → Idle c idle
        → Judged (front idle child (todo ++ kept))
        → wait_loop c (idle ++ v ∷ later) kept (child ∷ todo) true
          ≡ ends_with (front idle child (todo ++ kept))
    unfolding wait_loop
    wait_loop-front [] kept child todo i j = rw j refl
    wait_loop-front (u ∷ idle) kept child (next ∷ todo) (f, w, early, i) j =
        let e = append_assoc todo kept (seen child u ∷ []) in
        rw (visit-running child u f w early) (
          wait_loop-front idle (kept ++ seen child u ∷ []) next todo i
            (subst (λ l. Judged (front idle next l)) e j)
          ∙ ap (λ l. ends_with (front idle next l)) (sym e))
    wait_loop-front (u ∷ idle) [] child [] (f, w, early, i) j =
        rw (visit-running child u f w early) (
          next_round (idle ++ v ∷ later) (seen child u) []
          ∙ wait_loop-front idle [] (seen child u) [] i j)
    wait_loop-front (u ∷ idle) (k ∷ kept) child [] (f, w, early, i) j =
        let others = kept ++ seen child u ∷ [] in
        let e = append-nil others in
        rw (visit-running child u f w early) (
          next_round (idle ++ v ∷ later) k others
          ∙ wait_loop-front idle [] k others i (subst (λ l. Judged (front idle k l)) (sym e) j)
          ∙ ap (λ l. ends_with (front idle k l)) e)

    asserted-invalid :
        (cautious : Bool) (child : Child) → asserted cautious (ends_with child) ≡ ends_with child
    asserted-invalid true child = refl
    asserted-invalid false child = refl

    -- The first child that is judged is reported, and erased.
    pub wait_all-front :
        (cautious : Bool) (idle : List Visit) (child : Child) (others : List Child)
        → Idle c idle
        → Judged (front idle child others)
        → wait_all c cautious (idle ++ v ∷ later) (child ∷ others)
          ≡ ends_with (front idle child others)
    unfolding wait_all
    wait_all-front cautious idle child others i j =
        let e = append-nil others in
        ap (asserted cautious) (
          wait_loop-front idle [] child others i
            (subst (λ l. Judged (front idle child l)) (sym e) j)
          ∙ ap (λ l. ends_with (front idle child l)) e)
        ∙ asserted-invalid cautious (front idle child others)
