-- ===== src/Registry/Tests.antt =====
-- Two tests, `b` and `a`, and a call of a named test that fails.
use libmandrews.Prelude.{ℕ, ◌≡◌, refl, Bool, false, some, List, [], ◌∷◌, ◌==◌, tally, inl, inr}
use libmandrews.Cases.{got}
use libmandrews.Cases.Exits.{Exit}
use libmandrews.Registry.{Name, run_all}
use libmandrews.Registry.Calls.{register_all, run_all-registered}
use libmandrews.Registry.Order.{swaps, register_all-Reordered}
use libmandrews.Registry.Signals.{
  Process, standard, default_handle, handle, trace, received, sigabrt, sigfpe, deliver, set_handler,
  deliver_lem,
}

abbrev is_even : ℕ → Bool
is_even n = n == 2

abbrev two : List (Name × ℕ)
two = (b'b' ∷ [], 2) ∷ (b'a' ∷ [], 3) ∷ []

abbrev is_three : ℕ → Bool
is_three n = n == 3

abbrev aborted_child : Exit
aborted_child = record { reads = got [] ∷ []; status = 134; clock = 5 }

run_all-registered_example :
    ((run_all is_even (register_all two [])).0 ≡ false)
    × (tally is_three (run_all is_even (register_all two [])).1 ≡ 1)
run_all-registered_example = run_all-registered is_even two is_three ((refl, tt), (tt, tt))

abbrev other_way : List (Name × ℕ)
other_way = (b'a' ∷ [], 3) ∷ (b'b' ∷ [], 2) ∷ []

register_all-Reordered_example : register_all two [] ≡ register_all other_way []
register_all-Reordered_example =
    register_all-Reordered [] tt
      (swaps {j = b'b' ∷ []} {k = b'a' ∷ []} {s = 2} {t = 3} {xs = []} refl)

-- A test that has `handle` and divides by zero.
abbrev idle : Process
idle = record { handlers = λ _. standard; log = [] }

deliver_lem_example :
    (deliver 2 sigfpe (set_handler default_handle idle) ≡ some (sigfpe, trace ∷ []))
    × (deliver 3 sigfpe (set_handler handle idle) ≡ some (sigabrt, received sigfpe ∷ trace ∷ []))
deliver_lem_example = deliver_lem 0 sigfpe idle (inr (inl refl))
