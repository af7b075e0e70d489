-- ===== src/Registry.antt =====
-- The tests of testing.h and testing.hpp: the map of the registered tests, `Run`, `RunAll`, and the call
-- of a `NamedTest`, which forks a process with a `Case`. Names are texts, by their characters.
pub mod Names
pub mod Calls
pub mod Named
pub mod Order
pub mod Signals
pub mod Declared
mod Tests
use libmandrews.Prelude.{
  ℕ, zero, suc, Bool, true, false, ◌&&◌, Option, none, some, List, [], ◌∷◌, ◌++◌, ltb, ◌==◌,
  if◌then◌else◌,
}
use libmandrews.Output.Dump.{choose}
use libmandrews.Cases.{Case, Child, Visit, Outcome, returned, wait_all}
use libmandrews.Cases.Run.{Fork, Forked, left, called, fork_all}

abbrev pub Name : Type 0
Name = List ℕ

abbrev pub same : Name → Name → Bool
same [] [] = true
same [] (d ∷ b) = false
same (c ∷ a) [] = false
same (c ∷ a) (d ∷ b) = (c == d) && same a b

-- The order of `std::string`.
unfoldable pub before : Name → Name → Bool
before [] [] = false
before [] (d ∷ b) = true
before (c ∷ a) [] = false
before (c ∷ a) (d ∷ b) = let rest = before a b in if c == d then rest else ltb c d

-- What `Run` comes to: a value; the end of the program, if the answer to its question is no; or the
-- question is still open.
pub data Ran : Type 0 where
  value : Bool → Ran
  aborted asking : Ran

abbrev pub answered : Option ℕ → Ran
answered none = asking
answered (some t) = if t == b'n' then aborted else value false

module _ {T : Type 0} where
  -- `tests()[name] = test`
  unfoldable pub register : Name → T → List (Name × T) → List (Name × T)
  unfolding before
  register name test [] = (name, test) ∷ []
  register name test ((key, old) ∷ tests) =
      if before name key
      then (name, test) ∷ (key, old) ∷ tests
      else (if same name key then (key, test) ∷ tests else (key, old) ∷ register name test tests)

  unfoldable pub find : Name → List (Name × T) → Option T
  find name [] = none
  find name ((key, test) ∷ tests) = if same name key then some test else find name tests

  -- The virtual `operator()` of a test is `call`.
  module _ (call : T → Bool) where
    abbrev pub run_found : List ℕ → Option T → Ran
    run_found input none = answered (choose input)
    run_found input (some test) = value (call test)

    unfoldable pub run : List ℕ → Name → List (Name × T) → Ran
    unfolding find choose
    run input name tests = run_found input (find name tests)

    -- `RunAll`, with the tests that it has called.
    unfoldable pub run_loop : Bool → List T → List (Name × T) → Bool × List T
    run_loop success log [] = (success, log)
    run_loop success log ((key, test) ∷ tests) =
        run_loop (success && call test) (log ++ test ∷ []) tests

    unfoldable pub run_all : List (Name × T) → Bool × List T
    unfolding run_loop
    run_all tests = run_loop true [] tests

-- The end of a call of a `NamedTest`: a value in the parent, `exit(0)` in the child after the test, or
-- the end of a call that does not return.
pub data NamedEnd : Type 0 where
  result : Bool → NamedEnd
  exit_zero : NamedEnd
  no_fork : Forked → NamedEnd
  no_wait : Outcome → NamedEnd

-- `success` is not initialised: it is what its memory holds, `junk`.
abbrev pub after_wait : Bool → Outcome → NamedEnd
after_wait junk (returned b) = result junk
after_wait junk o = no_wait o

-- The case has no time limit and expects 0.
abbrev pub named_case : ℕ → Case
named_case start = record { expected = 0; timeout = 0; start = start }

abbrev pub after_fork : ℕ → Bool → List Visit → Forked → NamedEnd
after_fork start junk visits (left true children) =
    after_wait junk (wait_all (named_case start) false visits children)
after_fork start junk visits (called i) = exit_zero
after_fork start junk visits f = no_fork f

unfoldable pub named_call : ℕ → Bool → List Fork → List Visit → Bool → NamedEnd
unfolding fork_all wait_all
named_call start junk forks visits parent =
    after_fork start junk visits (fork_all (suc zero) 0 forks [] parent)
