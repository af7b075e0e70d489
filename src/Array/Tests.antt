-- ===== src/Array/Tests.antt =====
-- An array of two elements, a copy of it, `+=` on the copy, and the destruction of both.
use libmandrews.Prelude.{
  ◌>>=◌, ℕ, ◌≡◌, ◌≢◌, refl, Option, none, some, List, [], ◌∷◌, arith, Returns,
}
use libmandrews.Shared.{Handle}
use libmandrews.Shared
use libmandrews.Shared.Release.{handle}
use libmandrews.Shared.Lifetime.{empty, constructs, copies, Reach, begin, next, Reach-Inv}
use libmandrews.Array.{Body, World, contents, append, construct, copy_construct, destruct, plus}
use libmandrews.Array.Append.{Holds, append_lem}
use libmandrews.Array.Sum.{plus_lem}
use libmandrews.Array.Orphan.{destruct-orphan}
use libmandrews.Array.Elements.{assign, copy_construct-assign}

abbrev blank : World ℕ
blank = record { shared = empty; body = λ _. none; heap = λ _. none; top = 0 }

abbrev result : Option (World ℕ) → World ℕ
result none = blank
result (some w) = w

abbrev items : List ℕ
items = 1 ∷ 2 ∷ []

abbrev original : World ℕ
unfolding construct
original = result (construct 0 items none blank)

abbrev pair : World ℕ
unfolding copy_construct
pair = result (copy_construct 1 0 none original)

abbrev body : Body
body = record { m_ptr = 0; m_len = 2; m_capacity = 2 }

pair-Reach : Reach 2 pair.shared
unfolding Shared.construct Shared.copy_construct pair original
pair-Reach =
    next (next begin (constructs 0 0 none (omega arith) refl refl)) (
      copies 1 0 0 none (handle (some 0) (some 0) 0) (omega arith) (omega arith) refl refl refl
        refl)

pair-Holds : Holds 1 body items pair
unfolding pair Shared.copy_construct original Shared.construct
pair-Holds = record { body = refl; buffer = (_, refl, refl); fits = refl; old = omega arith }

append_lem_example : Returns (append 1 (3 ∷ []) pair) (λ w'.
    (contents 1 w' ≡ some (1 ∷ 2 ∷ 3 ∷ []))
    × ((p : ℕ) (y : Body) (ys : List ℕ) → 1 ≢ p → Holds p y ys pair → contents p w' ≡ some ys)
    × (w'.heap 0 ≡ pair.heap 0))
unfolding pair Shared.copy_construct original Shared.construct
append_lem_example =
    append_lem 1 body items (3 ∷ []) pair 0 0 (omega arith) (omega arith)
      (Reach-Inv (omega arith) pair-Reach) refl pair-Holds

destruct-orphan_example :
    Returns
      (do w ← construct 0 items none blank; w ← copy_construct 1 0 none w; destruct 0 w)
      (λ w. destruct 1 w ≡ none)
destruct-orphan_example = destruct-orphan blank 0 1 items none none (λ e. absurd (omega arith))

-- The copy and two elements more, beside the array and its copy.
pair_of_three-Reach : Reach 3 pair.shared
unfolding pair original Shared.construct Shared.copy_construct construct copy_construct
pair_of_three-Reach =
    next (next begin (constructs 0 0 none (omega arith) refl refl)) (
      copies 1 0 0 none (handle (some 0) (some 0) 0) (omega arith) (omega arith) refl refl refl
        refl)

plus_lem_example : Returns (plus 2 1 (4 ∷ 5 ∷ []) none pair) (λ w'.
    (contents 2 w' ≡ some (1 ∷ 2 ∷ 4 ∷ 5 ∷ []))
    × ((p : ℕ) (y : Body) (ys : List ℕ) → 2 ≢ p → Holds p y ys pair → contents p w' ≡ some ys))
unfolding pair Shared.copy_construct original Shared.construct
plus_lem_example =
    plus_lem 2 1 body items (4 ∷ 5 ∷ []) none pair 0 0 (omega arith) (omega arith) (omega arith)
      (Reach-Inv (omega arith) pair_of_three-Reach) refl refl pair-Holds

copy_construct-assign_example :
    Returns
      (assign 1 0 9 pair)
      (λ t. (contents 1 t ≡ some (9 ∷ 2 ∷ [])) × (contents 0 t ≡ some (9 ∷ 2 ∷ [])))
unfolding pair original construct copy_construct Shared.construct Shared.copy_construct contents
copy_construct-assign_example =
    copy_construct-assign 1 0 0 9 none original pair items (omega arith) refl refl (omega arith)
