-- ===== src/Shared/Misuse.antt =====
-- Uses of `Shared` against its rules, which Shared.h does not rule out.
use libmandrews.Prelude.{
  ℕ, ◌<◌, ◌≡◌, ◌≢◌, refl, Bool, true, false, none, some, arith, leb, ◌==◌, if◌then◌else◌, Returns,
  Bool-cases, inl, inr,
}
use libmandrews.Shared.{word, Ptr, Store, copy_assign, copy_construct}
use libmandrews.Shared.Release.{handle}

-- What copy assignment of handle `o` to itself does, by the number `k` in its count `a`.
abbrev pub SelfAssigned : ℕ → ℕ → ℕ → Store → Type 0
SelfAssigned o a k s =
    if k == 1
    then copy_assign o o s ≡ none
    else Returns (copy_assign o o s)
        (λ t. (t.cnt a ≡ some k) × (t.cow a ≡ some true) × (t.obj o ≡ s.obj o) × (t.ran ≡ s.ran))

-- Copy assignment to itself of a handle whose count and flag are allocated, the count positive
-- and below 2^64, faults if it is the only one of its count; if there are others it keeps the
-- handle and the count, marks the count for copying and calls no destructor.
pub copy_assign_self :
    (s : Store) (o a d k : ℕ) {f : Bool}
    → s.obj o ≡ some (handle (some a) (some a) d)
    → s.cnt a ≡ some k
    → s.cow a ≡ some f
    → 0 < k
    → k < word
    → SelfAssigned o a k s
unfolding copy_assign
copy_assign_self s o a d k e c w pos fits =
    let here : (o == o) ≡ true = ground arith in
    let there : (a == a) ≡ true = ground arith in
    elim (Bool-cases (k == 1)) [
      | inl one ↦ let c1 : s.cnt a ≡ some 1 = ground arith in rw one (rw (e, c1, w, here) refl)
      | inr many ↦
          let ok : leb 1 k ≡ true = ground arith in
          rw many (rw (e, c, ok, many, e, there, w, there) (ground arith, refl, rw here refl, refl))
    ]

-- Copying a null handle, such as one that was moved from, into another place faults.
pub copy_construct-null :
    (s : Store) (o p d : ℕ) (w junk : Ptr)
    → o ≢ p
    → s.obj p ≡ some (handle none w d)
    → copy_construct o p junk s ≡ none
unfolding copy_construct
copy_construct-null s o p d w junk ne e =
    let there : (o == p) ≡ false = ground arith in
    let here : (o == o) ≡ true = ground arith in rw (e, here, there, e) refl
