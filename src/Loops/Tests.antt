-- ===== src/Loops/Tests.antt =====
-- The subsets of 1010 in binary.
use libmandrews.Prelude.{◌≡◌, refl, some, [], ◌∷◌, arith, ◌==◌, Returns, tally}
use libmandrews.Loops.{subsets_from, subsets}
use libmandrews.Loops.Subsets.{subsets-all}

subsets_run : subsets 12 10 ≡ some (0 ∷ 10 ∷ 8 ∷ 2 ∷ [])
unfolding subsets subsets_from
subsets_run = refl

subsets-all_example : Returns (subsets 12 10) (λ is. tally (λ x. x == 8) is ≡ 1)
subsets-all_example = subsets-all 10 (omega arith) 12 8 (omega arith)
