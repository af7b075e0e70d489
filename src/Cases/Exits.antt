-- ===== src/Cases/Exits.antt =====
-- `WaitAll` of cases.hpp over children that end.
use libmandrews.Prelude.{
  ℕ, ◌*◌, ◌<◌, ◌≡◌, refl, ap, ◌∙◌, Bool, true, false, List, ◌∷◌, ◌++◌, arith, ◌==◌, if◌then◌else◌,
}
use libmandrews.Cases.{
  Case, Child, Result, success, failure, Reading, reaped, judged, wait_pid, Visit, visit, report,
  invalid, is_success, wait_all,
}
use libmandrews.Cases.Flushing.{closed, fate, printed, flush_lem}
use libmandrews.Cases.Overdue.{Idle, seen, front, wait_all-front}

-- How a child ends: what it prints, the status that `waitpid` gives, and the time.
pub record Exit : Type 0 where
  pub reads : List Reading
  pub status : ℕ
  pub clock : ℕ

abbrev pub visit_of : Child → Exit → Visit
visit_of child x = record { reads = x.reads; waited = reaped child.pid x.status; clock = x.clock }

abbrev pub result_of : Case → Exit → Result
result_of c x = if x.status == c.expected then success else failure

module _ (c : Case) where
  visit_of-judged :
      (child : Child) (x : Exit)
      → fate x.reads ≡ closed
      → visit c child (visit_of child x)
        ≡ (judged (result_of c x), record child { buf = child.buf ++ printed x.reads })
  unfolding visit wait_pid
  visit_of-judged child x e =
      let own : (child.pid == child.pid) ≡ true = ground arith in
      rw (flush_lem x.reads child.buf, e, own) refl

  is_success-result_of : (x : Exit) → is_success (result_of c x) ≡ (x.status == c.expected)
  is_success-result_of x = ground arith

  -- A child that closes its pipe and exits with a code above 0, so that the status of waitpid is
  -- 256 times the code, is judged a failure by a case that expects that code.
  pub exit_code-failure :
      (child : Child) (x : Exit) (code : ℕ)
      → fate x.reads ≡ closed
      → x.status ≡ code * 256
      → c.expected ≡ code
      → 0 < code
      → (visit c child (visit_of child x)).0 ≡ judged failure
  exit_code-failure child x code e st ex pos =
      let other : (x.status == c.expected) ≡ false = ground arith in
      rw (visit_of-judged child x e, other) refl

-- If some visits find the pipe closed and the child running within its time, and the next visit
-- finds the pipe closed and the process of the child whose turn it is ended, each visited child
-- going behind the others, WaitAll reports that child with all it has printed, as a success just
-- if the status of waitpid is the expected one, and then comes to the increment of its erased
-- iterator.
pub wait_all-exit :
    (c : Case) (cautious : Bool) (idle : List Visit) (x : Exit) (later : List Visit) (child : Child)
    (others : List Child)
    → Idle c idle
    → fate x.reads ≡ closed
    → wait_all c cautious (idle ++ visit_of (front idle child others) x ∷ later) (child ∷ others)
      ≡ invalid (x.status == c.expected) (
          report
            (seen (front idle child others) (visit_of (front idle child others) x))
            (if x.status == c.expected then success else failure))
wait_all-exit c cautious idle x later child others i e =
    let ended = front idle child others in
    wait_all-front c (visit_of ended x) later (result_of c x) cautious idle child others i
      (visit_of-judged c ended x e)
    ∙ ap (λ b. invalid b (report (seen ended (visit_of ended x)) (result_of c x)))
        (is_success-result_of c x)
