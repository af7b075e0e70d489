-- ===== src/Timing/Tests.antt =====
-- A callback every millisecond, called three times.
use libmandrews.Prelude.{
  ℕ, ◌≡◌, Bool, true, false, some, List, [], ◌∷◌, arith, length, get_elem?, Returns,
}
use libmandrews.Timing.{Turn, interval_callback}
use libmandrews.Timing.Interval.{interval_callback_lem}

abbrev turn : Bool → ℕ → Turn
turn b t = record { goes_on = b; clock = t }

-- The second call is late.
abbrev turns : List Turn
turns = turn true 100 ∷ turn true 2500 ∷ turn true 2600 ∷ turn false 3000 ∷ []

interval_callback_lem_example :
    Returns
      (interval_callback 1 0 turns)
      (λ r. (r.0 ≡ true) × (length r.1 ≡ 3) × (get_elem? r.1 2 ≡ some (some 400)))
interval_callback_lem_example =
    interval_callback_lem 1 0 turns 2 (omega arith) (omega arith)
      (omega arith, (omega arith, (omega arith, (omega arith, tt))))
