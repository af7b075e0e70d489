-- ===== src/Cases/Tests.antt =====
-- Two child processes, 7 and 5, of one case, and what their pipes, their ends and the clock answer.
use libmandrews.Prelude.{◌+◌, ℕ, ◌≡◌, refl, Bool, true, false, some, List, [], ◌∷◌, arith, ◌==◌}
use libmandrews.Cases.{
  Case, Child, Reading, again, got, not_yet, Visit, success, timeout, report, invalid, wait_all,
}
use libmandrews.Cases.Run.{Plan, in_child, parent_of, called, fork_all}
use libmandrews.Cases.Waiting.{Erased, wait_all-Erased}
use libmandrews.Cases.Exits.{Exit, visit_of, wait_all-exit}
use libmandrews.Cases.Forking.{expected_children, Holds, fork_all_lem}
use libmandrews.Cases.Templated.{Name}
use libmandrews.Macro.{Tokens}
use libmandrews.Cases.Written.{case_lists, case_lists_lem}

abbrev second : Case
second = record { expected = 0; timeout = 1; start = 1000 }

abbrev process : ℕ → ℕ → Child
process i pid = record { i = i; pid = pid; buf = [] }

abbrev both : List Child
both = process 1 5 ∷ process 0 7 ∷ []

abbrev prints : List ℕ → List Reading
prints [] = again ∷ got [] ∷ []
prints (b ∷ bytes) = again ∷ got (b ∷ bytes) ∷ got [] ∷ []

abbrev fine : Exit
fine = record { reads = prints (b'o' ∷ b'k' ∷ []); status = 0; clock = 2000 }

abbrev hangs : ℕ → Visit
hangs clock = record { reads = prints []; waited = not_yet; clock = clock }

-- Both are running; process 7 has ended when it is visited again, in the second round.
abbrev visits : List Visit
visits = hangs 1500 ∷ hangs 1600 ∷ hangs 1700 ∷ visit_of (process 0 7) fine ∷ []

abbrev is_seven : ℕ → ℕ → Bool
is_seven i pid = pid == 7

abbrev plan : Plan
plan = record { spec = second; num = 2; forks = parent_of 7 ∷ parent_of 5 ∷ []; visits = visits }

wait_all-Erased_example : Erased is_seven both (wait_all second true visits both)
wait_all-Erased_example = wait_all-Erased second true visits both is_seven

wait_all-exit_example :
    wait_all second true visits both
    ≡ invalid true (report (record { i = 0; pid = 7; buf = b'o' ∷ b'k' ∷ [] }) success)
wait_all-exit_example =
    wait_all-exit second true (hangs 1500 ∷ hangs 1600 ∷ hangs 1700 ∷ []) fine [] (process 1 5)
      (process 0 7 ∷ []) (refl, refl, refl, (refl, refl, refl, (refl, refl, refl, tt))) refl

fork_all_lem_example :
    Holds
      (λ p. expected_children p 0 (7 ∷ 5 ∷ []))
      (fork_all 2 0 (parent_of 7 ∷ parent_of 5 ∷ []) [] false)
    × (fork_all 2 0 (parent_of 7 ∷ in_child ∷ []) [] false ≡ called 1)
fork_all_lem_example =
    fork_all_lem 7 (5 ∷ []) [] false 1 ((λ e. absurd (omega arith), tt), (tt, tt)) (omega arith)

abbrev lists : List (Name × List ℕ)
lists = (b'a' ∷ [], 1 ∷ 2 ∷ []) ∷ (b'b' ∷ [], 3 ∷ 4 ∷ []) ∷ []

-- The literal of a text has the number of its first token, and 200 more.
abbrev literal : Tokens → ℕ
literal [] = 200
literal (t ∷ a) = t + 200

case_lists_lem_example :
    case_lists literal ((1 ∷ []) ∷ (2 ∷ []) ∷ [])
    ≡ some (b'[' ∷ 201 ∷ b']' ∷ 1 ∷ b'[' ∷ 202 ∷ b']' ∷ 2 ∷ [])
case_lists_lem_example = case_lists_lem literal ((1 ∷ []) ∷ (2 ∷ []) ∷ []) (omega arith)
