-- ===== src/Array/Elements.antt =====
-- The elements of an array one by one: `operator[]`, `begin` and `end` of `Static` in Array.h, which
-- `Array` has by `using`. They do not ask `Shared` for a copy of the elements.
use libmandrews.Prelude.{
  ℕ, zero, suc, ◌+◌, ◌≤◌, ◌<◌, ◌≡◌, ◌≢◌, refl, ap, ◌∙◌, true, false, Option, none, some, List, [],
  ◌∷◌, arith, leb, ltb, ◌==◌, if◌then◌else◌, length, length-set, length-take, take, get_elem?, set,
  update, ◌>>=◌, ◌>>◌, guard, Option-cases, Bool-cases, inl, inr, Returns,
}
use mathlib.Core.Path.{subst}
use mathlib.Core.Option.{some-injective}
use libmandrews.Shared.{Ptr}
use libmandrews.Shared
use libmandrews.Array.{Body, Buffer, World, contents, copy_construct, after}

module _ {T : Type 0} where
  -- Element `n` through `m_ptr`, which is not compared with `m_len`.
  unfoldable pub element : ℕ → ℕ → World T → Option T
  element o n w = do x ← w.body o; b ← w.heap x.m_ptr; get_elem? b.items n

  -- `a[n] = v`
  unfoldable pub assign : ℕ → ℕ → T → World T → Option (World T)
  assign o n v w = do
    x ← w.body o
    b ← w.heap x.m_ptr
    guard (ltb n (length b.items))
    some (record w { heap = update w.heap x.m_ptr (some (record b { items = set b.items n v })) })

  -- The loop from `begin()` to `end()`: `k` elements from `m_ptr + n` on.
  unfoldable pub iterate : ℕ → ℕ → ℕ → World T → Option (List T)
  unfolding element
  iterate o n zero w = some []
  iterate o n (suc k) w = do a ← element o n w; rest ← iterate o (n + 1) k w; some (a ∷ rest)

  take-set : (k n : ℕ) (xs : List T) (v : T) → take k (set xs n v) ≡ set (take k xs) n v
  take-set zero n xs v = refl
  take-set (suc k) n [] v = refl
  take-set (suc k) zero (x ∷ xs) v = refl
  take-set (suc k) (suc n) (x ∷ xs) v = ap (◌∷◌ x) (take-set k n xs v)

  -- What assignment of element `n` of the array `o` does to the elements of the array `p`.
  abbrev pub reassigned : ℕ → ℕ → ℕ → T → List T → List T
  reassigned a b n v items = if a == b then set items n v else items

  contents-set :
      (y : Body) (b : Buffer T) (n : ℕ) (v : T) (items : List T)
      → (guard (leb y.m_len (length b.items)) >> some (take y.m_len b.items)) ≡ some items
      → (guard (leb y.m_len (length (set b.items n v))) >> some (take y.m_len (set b.items n v)))
        ≡ some (set items n v)
  contents-set y b n v items c = elim (Bool-cases (leb y.m_len (length b.items))) [
    | inl fits ↦
        let e : some (take y.m_len b.items) ≡ some items = (rw fits at c) in
        let same_length = length-set b.items n v in
        rw (same_length, fits, take-set y.m_len n b.items v)
          (ap (λ o. o >>= λ l. some (set l n v)) e)
    | inr short ↦ let e : none ≡ some items = (rw short at c) in cc
  ]

  -- After an assignment to element `n` of the array `o` an array with the same buffer holds the value,
  -- and any other what it held.
  pub assign-contents :
      (w : World T) (o p n : ℕ) (v : T) (x y : Body) (b : Buffer T) (items : List T)
      → w.body o ≡ some x
      → w.body p ≡ some y
      → w.heap x.m_ptr ≡ some b
      → n < length b.items
      → contents p w ≡ some items
      → Returns (assign o n v w) (λ t. contents p t ≡ some (reassigned x.m_ptr y.m_ptr n v items))
  unfolding assign contents
  assign-contents w o p n v x y b items e f h l c =
      let inside : ltb n (length b.items) ≡ true = ground arith in
      elim (Bool-cases (x.m_ptr == y.m_ptr)) [
        | inl same ↦
            let ptr : y.m_ptr ≡ x.m_ptr = ground arith in
            let shared : w.heap y.m_ptr ≡ some b = ap w.heap ptr ∙ h in
            rw (e, h, inside) (rw (f, same) (contents-set y b n v items (rw (f, shared) at c)))
        | inr other ↦ rw (e, h, inside) (rw (f, other) (rw f at c))
      ]

  part_le :
      (m : ℕ) (xs : List T) {items : List T}
      → (guard (leb m (length xs)) >> some (take m xs)) ≡ some items
      → length items ≤ length xs
  part_le m xs {items} e = elim (Bool-cases (leb m (length xs))) [
    | inl fits ↦
        let part : some (take m xs) ≡ some items = (rw fits at e) in
        let same : take m xs ≡ items = some-injective (take m xs) items part in
        omega (arith, length-take m xs, ap length same)
    | inr short ↦ let impossible : none ≡ some items = (rw short at e) in cc
  ]

  Returns-both :
      (P Q : World T → Type 0) (r : Option (World T))
      → Returns r P
      → Returns r Q
      → Returns r (λ t. P t × Q t)
  Returns-both P Q none p q = p
  Returns-both P Q (some t) p q = (p, q)

  -- The bodies after a copy: it has the buffer and the length of the original.
  abbrev Copied : ℕ → ℕ → Option (World T) → Type 0
  Copied c o none = Unit
  Copied c o (some t) =
      (x : Body) × (t.body o ≡ some x) × (t.body c ≡ some (record x { m_capacity = x.m_len }))

  copied : (c o : ℕ) (junk : Ptr) (w : World T) → c ≢ o → Copied c o (copy_construct c o junk w)
  unfolding copy_construct
  copied c o junk w ne = elim (Option-cases (Shared.copy_construct c o junk w.shared)) [
    | inl fails ↦ rw fails tt
    | inr (s, made) ↦ elim (Option-cases (after s w)) [
      | inl fails ↦ rw (made, fails) tt
      | inr (w2, ran) ↦ elim (Option-cases (w2.body o)) [
        | inl dead ↦ rw (made, ran, dead) tt
        | inr (x, alive) ↦
            let self : (c == c) ≡ true = ground arith in
            let other : (c == o) ≡ false = ground arith in
            rw (made, ran, alive) (x, rw other alive, rw self refl)
      ]
    ]
  ]

  -- When a copy of an array has been made, an assignment to one of its elements by operator[]
  -- changes that element of the copy and of the original.
  pub copy_construct-assign :
      (c o n : ℕ) (v : T) (junk : Ptr) (w w1 : World T) (items : List T)
      → c ≢ o
      → copy_construct c o junk w ≡ some w1
      → contents o w1 ≡ some items
      → n < length items
      → Returns
          (assign c n v w1)
          (λ t. (contents c t ≡ some (set items n v)) × (contents o t ≡ some (set items n v)))
  unfolding contents
  copy_construct-assign c o n v junk w w1 items ne e held l =
      let (x, alive, twin) = subst (Copied c o) e (copied c o junk w ne) in
      let self : (x.m_ptr == x.m_ptr) ≡ true = ground arith in
      elim (Option-cases (w1.heap x.m_ptr)) [
        | inl freed ↦ let impossible : none ≡ some items = (rw (alive, freed) at held) in cc
        | inr (b, allocated) ↦
            let whole = (rw (alive, allocated) at held) in
            let long : n < length b.items = omega (arith, l, part_le x.m_len b.items whole) in
            let twin_held : contents c w1 ≡ some items = rw (twin, allocated) whole in
            let made = assign-contents w1 c c n v _ _ b items twin twin allocated long twin_held in
            let seen = assign-contents w1 c o n v _ x b items twin alive allocated long held in
            Returns-both _ _ (assign c n v w1) (rw self at made) (rw self at seen)
      ]
