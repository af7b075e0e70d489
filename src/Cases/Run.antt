-- ===== src/Cases/Run.antt =====
-- `Fork`, `ForkAll` and `TestRun` of cases.hpp, as one of the processes sees them: the parent, or the
-- child of the fork that answers 0.
use libmandrews.Prelude.{
  ℕ, zero, suc, ◌+◌, Bool, true, false, List, [], ◌∷◌, ltb, ◌==◌, if◌then◌else◌,
}
use libmandrews.Cases.{Case, Child, Visit, Outcome, returned, wait_all}

-- What `fork` answers.
pub data Fork : Type 0 where
  fork_failed in_child : Fork
  parent_of : ℕ → Fork

-- `_children.insert`, which keeps the order of the processes and does not replace.
unfoldable pub insert_child : Child → List Child → List Child
insert_child c [] = c ∷ []
insert_child c (x ∷ children) =
    if ltb c.pid x.pid
    then c ∷ x ∷ children
    else (if c.pid == x.pid then x ∷ children else x ∷ insert_child c children)

-- After `ForkAll`: the value of `Parent()` and the children, in a child the list that it has called, or
-- the end of a failed `fork`. `unforked` if the answers end before the loop.
pub data Forked : Type 0 where
  left : Bool → List Child → Forked
  called : ℕ → Forked
  aborted unforked : Forked

-- The loop of `ForkAll` with `n` rounds left, the next with argument list `i`.
unfoldable pub fork_all : ℕ → ℕ → List Fork → List Child → Bool → Forked
unfolding insert_child
fork_all zero i answers children parent = left parent children
fork_all (suc n) i [] children parent = unforked
fork_all (suc n) i (fork_failed ∷ answers) children parent = aborted
fork_all (suc n) i (in_child ∷ answers) children parent = called i
fork_all (suc n) i (parent_of pid ∷ answers) children parent =
    fork_all n (i + 1) answers (insert_child (record { i = i; pid = pid; buf = [] }) children) true

-- A case with the number of its lists, and the answers that it meets.
pub record Plan : Type 0 where
  pub spec : Case
  pub num : ℕ
  pub forks : List Fork
  pub visits : List Visit

-- The end of the constructor: `exit(0)`, a return in the child that has called list `i` of case `k`, a
-- return with no fork, or the end of a call that does not return.
pub data Ended : Type 0 where
  exited passed_over : Ended
  child_of : ℕ → ℕ → Ended
  no_fork : Forked → Ended
  no_wait : Outcome → Ended

abbrev pub after_wait : Outcome → Ended → Ended
after_wait (returned b) next = next
after_wait o next = no_wait o

abbrev pub after_fork : Plan → ℕ → Forked → Ended → Ended
after_fork p k (left true children) next = after_wait (wait_all p.spec true p.visits children) next
after_fork p k (left false children) next = passed_over
after_fork p k (called i) next = child_of k i
after_fork p k f next = no_fork f

abbrev pub is_left : Forked → Bool → Bool
is_left (left parent children) old = parent
is_left f old = old

-- `TestRun`, from its case `k` on.
unfoldable pub test_run : ℕ → List Plan → Bool → Ended
unfolding fork_all
test_run k [] parent = if parent then exited else passed_over
test_run k (p ∷ plans) parent =
    let forked = fork_all p.num 0 p.forks [] parent in
    let next = test_run (k + 1) plans (is_left forked parent) in after_fork p k forked next
