-- ===== src/Types/Tests.antt =====
-- A type, two that have it as a base, one of both, and one of its own.
use libmandrews.Prelude.{ℕ, ◌≡◌, refl, true, List, [], ◌∷◌, arith, ◌==◌, if◌then◌else◌}
use libmandrews.Types.{own_and_bases, is_derived_of}
use libmandrews.Types.Ancestry.{is_derived_of-derives}

abbrev types : List (List ℕ)
types = [] ∷ (1 ∷ 2 ∷ []) ∷ (0 ∷ []) ∷ (0 ∷ []) ∷ [] ∷ []

-- The numbers, written out.
abbrev numbers : ℕ → ℕ
numbers t =
    if t == 4
    then 16
    else (if t == 3
        then 15
        else (if t == 2 then 5 else (if t == 1 then 3 else (if t == 0 then 1 else 0))))

is_derived_of-derives_example : is_derived_of numbers 3 0 ≡ true
unfolding own_and_bases
is_derived_of-derives_example = is_derived_of-derives types numbers 3 0 (omega arith) (λ t. refl)
