-- ===== src/Shared/Race/Leak.antt =====
-- Two threads that let go of the last two handles at once.
use libmandrews.Prelude.{ℕ, ◌<◌, ◌≡◌, ◌≢◌, refl, some, arith, total}
use libmandrews.Shared.{word}
use libmandrews.Shared.Race.{
  Stage, held, asserted, several, gone, State, move, assert_positive, compare, decrement, advance,
  Reach, moves,
}
use libmandrews.Shared.Race.Safety.{counts, Reach-allocated}

-- A step of a handle whose stage is known.
goes :
    {n : ℕ} {s t : State} (i : ℕ) (g : Stage)
    → i < n
    → s.stage i ≡ g
    → advance g i s ≡ some t
    → Reach n s
    → Reach n t
goes {n} {s} {t} i g h e a r = moves i r h (rw e a)

-- From every reachable state with two handles held and a count of 2, threads that release both at
-- once can reach a state where the count is 0, no handle is in it, and the destructor was not
-- called.
pub both_decrement :
    {n : ℕ} {s : State} (i j : ℕ)
    → n < word
    → i < n
    → j < n
    → i ≢ j
    → s.stage i ≡ held
    → s.stage j ≡ held
    → s.cnt ≡ some 2
    → Reach n s
    → (t : State) × Reach n t × (t.cnt ≡ some 0) × (t.calls ≡ 0) × (total counts n t.stage ≡ 0)
unfolding advance assert_positive compare decrement
both_decrement {n} {s} i j b hi hj ne ei ej c r =
    let s1 = move i asserted s in
    let s2 = move i several s1 in
    let s3 = move j asserted s2 in
    let s4 = move j several s3 in
    let s5 = move i gone (record s4 { cnt = some 1 }) in
    let s6 = move j gone (record s5 { cnt = some 0 }) in
    let r1 : Reach n s1 = goes i held hi ei (rw c refl) r in
    let r2 : Reach n s2 = goes i asserted hi (ground arith) (rw c refl) r1 in
    let r3 : Reach n s3 = goes j held hj (ground arith) (rw c refl) r2 in
    let r4 : Reach n s4 = goes j asserted hj (ground arith) (rw c refl) r3 in
    let r5 : Reach n s5 = goes i several hi (ground arith) (rw c refl) r4 in
    let r6 : Reach n s6 = goes j several hj (ground arith) refl r5 in
    let (none_called, none_left) = Reach-allocated 0 b (omega arith) r6 refl in
    (s6, r6, refl, none_called, none_left)
