-- ===== src/Shared/Tests.antt =====
-- Runs of Shared.h: handle 0 is made, handle 1 is a copy of it, and both are destroyed.
use libmandrews.Prelude.{◌<◌, ◌≡◌, refl, Option, none, some, arith, ◌⊎◌, ◌==◌, tally, Returns}
use libmandrews.Shared.{Handle, Store, construct, copy_construct, destruct}
use libmandrews.Shared.Invariant.{sharers, pointers}
use libmandrews.Shared.Release.{handle}
use libmandrews.Shared.Lifetime.{
  empty, constructs, copies, destructs, Reach, begin, next, destroyed_once,
}
use libmandrews.Shared.Promise.{assigns_copy, perform, view, Refines}
use libmandrews.Shared.Refinement.{perform-Refines}

abbrev result : Option Store → Store
result none = empty
result (some s) = s

abbrev x : Handle
x = handle (some 0) (some 0) 7

abbrev one : Store
unfolding construct
one = result (construct 0 7 none empty)

abbrev two : Store
unfolding copy_construct
two = result (copy_construct 1 0 none one)

abbrev left : Store
unfolding destruct
left = result (destruct 0 two)

abbrev gone : Store
unfolding destruct
gone = result (destruct 1 left)

one-Reach : Reach 2 one
unfolding construct
one-Reach = next begin (constructs 0 7 none (omega arith) refl refl)

two-Reach : Reach 2 two
unfolding copy_construct one
two-Reach = next one-Reach (copies 1 0 0 none x (omega arith) (omega arith) refl refl refl refl)

left-Reach : Reach 2 left
unfolding destruct two one
left-Reach = next two-Reach (destructs 0 x (omega arith) refl refl)

gone-Reach : Reach 2 gone
unfolding destruct two one
gone-Reach = next left-Reach (destructs 1 x (omega arith) refl refl)

destroyed_once_example :
    ((sharers 2 (pointers gone) 0 ≡ 0) × (gone.cnt 0 ≡ none) × (tally (λ e. e.0 == 0) gone.ran ≡ 1))
    ⊎ ((0 < sharers 2 (pointers gone) 0)
        × (gone.cnt 0 ≡ some (sharers 2 (pointers gone) 0))
        × (tally (λ e. e.0 == 0) gone.ran ≡ 0))
unfolding gone two one
destroyed_once_example = destroyed_once (omega arith) gone-Reach 0 (omega arith)

perform-Refines_example :
    Returns
      (perform (assigns_copy 0 1) none two)
      (λ t. Reach 2 t × Refines 2 (assigns_copy 0 1) (view two) (view t))
unfolding two one
perform-Refines_example =
    perform-Refines (assigns_copy 0 1) none (omega arith) two-Reach
      (omega arith, (omega arith, _, refl), (omega arith, 0, 7, refl))
