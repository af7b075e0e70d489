-- ===== src/Array/Orphan.antt =====
-- Arrays of Array.h whose closure `m_dtr` has captured another array: copies, and arrays moved to.
use libmandrews.Prelude.{
  ℕ, ◌≡◌, ◌≢◌, true, false, none, arith, ◌==◌, List, drop-length, ◌>>=◌, Returns,
}
use libmandrews.Shared.{Ptr}
use libmandrews.Shared
use libmandrews.Array.Append.{drop-all}
use libmandrews.Array.{World, construct, copy_construct, destruct}

module _ {T : Type 0} where
  -- In every world, when an array has been constructed at one place and copied to another, and
  -- the first has been destroyed, destroying the copy faults, since the closure it was given has
  -- captured the first.
  pub destruct-orphan :
      (w : World T) (o c : ℕ) (items : List T) (junk other_junk : Ptr)
      → o ≢ c
      → Returns
          (do w ← construct o items junk w; w ← copy_construct c o other_junk w; destruct o w)
          (λ w'. destruct c w' ≡ none)
  unfolding construct copy_construct destruct Shared.construct Shared.copy_construct Shared.destruct
  destruct-orphan w o c items junk other_junk ne =
      let a = w.shared.next in
      let own : (o == o) ≡ true = ground arith in
      let copy : (c == c) ≡ true = ground arith in
      let apart : (o == c) ≡ false = ground arith in
      let apart' : (c == o) ≡ false = ground arith in
      let count : (a == a) ≡ true = ground arith in
      let old = drop-all w.shared.ran in simp (own, copy, apart, apart', count, old, drop-length)
