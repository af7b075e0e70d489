-- ===== src/Registry/Named.antt =====
-- The call of a `NamedTest`.
use libmandrews.Prelude.{ℕ, ◌≡◌, ◌≢◌, refl, Bool, false, List, [], ◌∷◌}
use libmandrews.Cases.{Child, Visit, Outcome, returned, killed, invalid, waiting, wait_all}
use libmandrews.Cases.Waiting.{wait_all-unreturned}
use libmandrews.Cases.Run.{Fork, in_child, parent_of, insert_child, fork_all}
use libmandrews.Registry.{result, after_wait, named_case, named_call, exit_zero}

abbrev pub only_child : ℕ → Child
only_child pid = record { i = 0; pid = pid; buf = [] }

unanswered :
    (junk b : Bool) (o : Outcome) → ((v : Bool) → o ≢ returned v) → after_wait junk o ≢ result b
unanswered junk b (returned v) h e = absurd (h v refl)
unanswered junk b killed h e = cc
unanswered junk b waiting h e = cc
unanswered junk b (invalid v r) h e = cc

-- The call of a NamedTest has no value in the parent, whatever the pipe, waitpid and the clock answer;
-- the child leaves with exit(0) after the test whatever the test returns.
pub named_call_lem :
    (start pid : ℕ) (junk parent b : Bool) (forks : List Fork) (visits : List Visit)
    → (named_call start junk (parent_of pid ∷ forks) visits parent ≢ result b)
      × (named_call start junk (in_child ∷ forks) [] parent ≡ exit_zero)
unfolding named_call fork_all insert_child
named_call_lem start pid junk parent b forks visits = (
  unanswered junk b (wait_all (named_case start) false visits (only_child pid ∷ []))
      (wait_all-unreturned (named_case start) false visits (only_child pid) []),
  refl,
)
