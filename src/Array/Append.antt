-- ===== src/Array/Append.antt =====
-- `Array::operator+=`.
use libmandrews.Prelude.{
  ℕ, zero, suc, false, ◌+◌, ◌<◌, ◌≡◌, ◌≢◌, refl, ap, true, some, List, [], ◌∷◌, ◌++◌, arith, leb,
  ◌==◌, length, length-append, length-take, take, drop, update, Returns, Returns-some,
}
use libmandrews.Shared.{word, Store}
use libmandrews.Shared
use libmandrews.Shared.Invariant.{Inv}
use libmandrews.Shared.Release.{handle}
use libmandrews.Shared.Ownership.{write-Exclusive}
use libmandrews.Array.{Body, Buffer, World, after, contents, copy, fill, append}

pub drop-all {ℓ} : {A : Type ℓ} (xs : List A) → drop (length xs) xs ≡ []
drop-all [] = refl
drop-all (x ∷ xs) = drop-all xs

module _ {T : Type 0} where
  -- An operation that calls no destructor changes nothing but the handles.
  pub after-quiet :
      (s : Store) (w : World T) → s.ran ≡ w.shared.ran → after s w ≡ some (record w { shared = s })
  unfolding after
  after-quiet s w e = rw (e, drop-all) refl

  -- Array `o` has the body `x` and the elements `items`.
  pub record Holds (o : ℕ) (x : Body) (items : List T) (w : World T) : Type 0 where
    pub body : w.body o ≡ some x
    pub buffer : (b : Buffer T) × (w.heap x.m_ptr ≡ some b) × (take x.m_len b.items ≡ items)
    pub fits : length items ≡ x.m_len
    pub old : x.m_ptr < w.top

  enough-Holds :
      (o : ℕ) (x : Body) (items : List T) (w : World T)
      → Holds o x items w
      → (b : Buffer T) → take x.m_len b.items ≡ items
      → leb x.m_len (length b.items) ≡ true
  enough-Holds o x items w h b first =
      ground (arith, h.fits, ap length first, length-take x.m_len b.items)

  contents-eq :
      (o : ℕ) (x : Body) (items : List T) (w : World T)
      → Holds o x items w
      → contents o w ≡ some items
  unfolding contents
  contents-eq o x items w h =
      let (b, at, first) = h.buffer in
      rw (h.body, at, enough-Holds o x items w h b first, first) refl

  -- The world after `+=` of `others`, where `write` has left the handles as in `s`.
  abbrev appended : ℕ → Body → List T → List T → Store → World T → World T
  appended o x items others s w = record w {
    shared = s;
    heap =
        update
          (update w.heap w.top (some (record { room = x.m_len + length others; items = items })))
          w.top (some (record { room = x.m_len + length others; items = items ++ others }));
    top = w.top + 1;
    body = update w.body o (some (record x { m_ptr = w.top; m_len = x.m_len + length others }));
  }

  append-eq :
      (o : ℕ) (x : Body) (items others : List T) (s : Store) (w : World T)
      → Holds o x items w
      → Shared.write o w.shared ≡ some s
      → s.ran ≡ w.shared.ran
      → append o others w ≡ some (appended o x items others s w)
  unfolding append copy fill
  append-eq o x items others s w h written quiet =
      let room : leb (length items) (x.m_len + length others) ≡ true = ground (arith, h.fits) in
      let fits : leb (length items + length others) (x.m_len + length others) ≡ true =
        ground (arith, h.fits) in
      let here : (w.top == w.top) ≡ true = ground arith in
      let next = record w {
        heap =
            update w.heap w.top (some (record { room = x.m_len + length others; items = items }));
        top = w.top + 1;
      } in
      let (b, at, first) = h.buffer in
      rw (h.body, at, enough-Holds o x items w h b first, first, room, written)
        (rw (after-quiet s next quiet, here, fits) refl)

  pub take-whole : (xs : List T) (n : ℕ) → length xs ≡ n → take n xs ≡ xs
  take-whole [] zero e = refl
  take-whole [] (suc n) e = refl
  take-whole (x ∷ xs) zero e = absurd (omega arith)
  take-whole (x ∷ xs) (suc n) e = ap (λ l. x ∷ l) (take-whole xs n (omega arith))

  appended-own :
      (o : ℕ) (x : Body) (items others : List T) (s : Store) (w : World T)
      → Holds o x items w
      → contents o (appended o x items others s w) ≡ some (items ++ others)
  unfolding contents
  appended-own o x items others s w h =
      let here : (o == o) ≡ true = ground arith in
      let there : (w.top == w.top) ≡ true = ground arith in
      let whole : length (items ++ others) ≡ x.m_len + length others =
        omega (arith, length-append items others, h.fits) in
      let enough : leb (x.m_len + length others) (length (items ++ others)) ≡ true =
        ground (arith, whole) in
      rw (here, there, enough)
        (ap some (take-whole (items ++ others) (x.m_len + length others) whole))

  appended-other :
      (o : ℕ) (x : Body) (items others : List T) (s : Store) (w : World T)
      → (p : ℕ) (y : Body) (ys : List T) → o ≢ p
      → Holds p y ys w
      → contents p (appended o x items others s w) ≡ some ys
  unfolding contents
  appended-other o x items others s w p y ys ne h =
      let apart : (o == p) ≡ false = ground arith in
      let old : (w.top == y.m_ptr) ≡ false = ground (arith, h.old) in
      let same : contents p w ≡ some ys = contents-eq p y ys w h in
      rw (apart, h.body, old) (rw h.body at same)

  -- With fewer than 2^64 handles that keep the invariant, += on an array whose handle is not null
  -- returns; the array then holds its elements followed by the new ones, every other array, also
  -- one that shared the buffer, holds what it held, and the old buffer is still allocated.
  pub append_lem :
      {n : ℕ} (o : ℕ) (x : Body) (items others : List T) (w : World T) (a d : ℕ)
      → o < n
      → n < word
      → Inv n w.shared
      → w.shared.obj o ≡ some (handle (some a) (some a) d)
      → Holds o x items w
      → Returns (append o others w) (λ w'.
        (contents o w' ≡ some (items ++ others))
        × ((p : ℕ) (y : Body) (ys : List T) → o ≢ p → Holds p y ys w → contents p w' ≡ some ys)
        × (w'.heap x.m_ptr ≡ w.heap x.m_ptr))
  append_lem o x items others w a d h small v e holds =
      let (s, written, own) =
        Returns-some (Shared.write o w.shared) (write-Exclusive o h w.shared a d e small v) in
      rw (append-eq o x items others s w holds written own.log) (
        appended-own o x items others s w holds,
        appended-other o x items others s w,
        ground (arith, holds.old),
      )
