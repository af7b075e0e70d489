-- ===== src/Array/Sum.antt =====
-- The constructor of `Array` from a `Static`, and `operator+` on one and on an array.
use libmandrews.Prelude.{
  ℕ, ◌+◌, ◌<◌, ◌≡◌, ◌≢◌, refl, none, some, List, ◌++◌, arith, length, update, Returns, Returns-some,
}
use libmandrews.Shared.{word, Ptr, Store}
use libmandrews.Shared
use libmandrews.Shared.Invariant.{Inv}
use libmandrews.Shared.Ownership.{construct_lem, copy_construct_lem}
use libmandrews.Shared.Release.{handle}
use libmandrews.Array.{Body, World, contents, append, construct, copy_construct, plus, static_plus}
use libmandrews.Array.Append.{after-quiet, take-whole, Holds, append_lem}

module _ {T : Type 0} where
  abbrev constructed : ℕ → List T → Store → World T → World T
  constructed o items s w = record w {
    shared = s;
    heap = update w.heap w.top (some (record { room = length items; items = items }));
    top = w.top + 1;
    body =
        update w.body o
          (some (record { m_ptr = w.top; m_len = length items; m_capacity = length items }));
  }

  construct-eq :
      (o : ℕ) (items : List T) (junk : Ptr) (s : Store) (w : World T)
      → Shared.construct o o junk w.shared ≡ some s
      → s.ran ≡ w.shared.ran
      → construct o items junk w ≡ some (constructed o items s w)
  unfolding construct
  construct-eq o items junk s w made quiet = rw made (rw (after-quiet s w quiet) refl)

  constructed-own :
      (o : ℕ) (items : List T) (s : Store) (w : World T)
      → Holds o
          (record { m_ptr = w.top; m_len = length items; m_capacity = length items })
          items
          (constructed o items s w)
  constructed-own o items s w = record {
    body = ground arith;
    buffer = (
      record { room = length items; items = items },
      ground arith,
      take-whole items (length items) refl,
    );
    fits = refl;
    old = omega arith;
  }

  constructed-other :
      (o : ℕ) (items : List T) (s : Store) (w : World T)
      → (p : ℕ) (y : Body) (ys : List T) → o ≢ p
      → Holds p y ys w
      → Holds p y ys (constructed o items s w)
  constructed-other o items s w p y ys ne h =
      let (b, at, first) = h.buffer in
      record {
        body = ground (arith, h.body);
        buffer = (b, ground (arith, at, h.old), first);
        fits = h.fits;
        old = omega (arith, h.old);
      }

  -- With fewer than 2^64 handles that keep the invariant, operator+ on a Static, into a place
  -- where no array is alive, returns an array of the elements of the first followed by those of
  -- the second, and every other array holds what it held.
  pub static_plus_lem :
      {n : ℕ} (c : ℕ) (items others : List T) (junk : Ptr) (w : World T)
      → c < n
      → n < word
      → Inv n w.shared
      → w.shared.obj c ≡ none
      → Returns (static_plus c items others junk w) (λ w'.
        (contents c w' ≡ some (items ++ others))
        × ((p : ℕ) (y : Body) (ys : List T) → c ≢ p → Holds p y ys w → contents p w' ≡ some ys))
  unfolding static_plus
  static_plus_lem c items others junk w h small v free =
      let (s, made, own) =
        Returns-some (Shared.construct c c junk w.shared) (construct_lem c h c junk v free) in
      let w1 = constructed c items s w in
      let (a, now, _, _) = own.own in
      let (w', added, (mine, theirs, _)) =
        Returns-some (append c others w1)
          (append_lem c _ items others w1 a c h small own.inv now (constructed-own c items s w)) in
      rw (construct-eq c items junk s w made own.log) (
        rw added
          (mine, λ p y ys ne q. theirs p y ys ne (constructed-other c items s w p y ys ne q)))

  -- The array at `c` after a copy of the one at `o`, which was `x`: the same buffer.
  abbrev shared_copy : ℕ → Body → Store → World T → World T
  shared_copy c x s w = record w {
    shared = s;
    body = update w.body c (some (record x { m_capacity = x.m_len }));
  }

  copy_construct-eq :
      (c o : ℕ) (x : Body) (junk : Ptr) (s : Store) (w : World T)
      → Shared.copy_construct c o junk w.shared ≡ some s
      → s.ran ≡ w.shared.ran
      → w.body o ≡ some x
      → copy_construct c o junk w ≡ some (shared_copy c x s w)
  unfolding copy_construct
  copy_construct-eq c o x junk s w made quiet e = rw made (rw (after-quiet s w quiet, e) refl)

  shared_copy-own :
      (c o : ℕ) (x : Body) (items : List T) (s : Store) (w : World T)
      → Holds o x items w
      → Holds c (record x { m_capacity = x.m_len }) items (shared_copy c x s w)
  shared_copy-own c o x items s w h = record {
    body = ground arith;
    buffer = h.buffer;
    fits = h.fits;
    old = h.old;
  }

  shared_copy-other :
      (c : ℕ) (x : Body) (s : Store) (w : World T)
      → (p : ℕ) (y : Body) (ys : List T) → c ≢ p
      → Holds p y ys w
      → Holds p y ys (shared_copy c x s w)
  shared_copy-other c x s w p y ys ne h = record {
    body = ground (arith, h.body);
    buffer = h.buffer;
    fits = h.fits;
    old = h.old;
  }

  -- With fewer than 2^64 handles that keep the invariant, operator+ on an array whose handle is
  -- not null, into a place where no array is alive, returns an array of its elements followed by
  -- the others, and every other array, the first operand too, holds what it held.
  pub plus_lem :
      {n : ℕ} (c o : ℕ) (x : Body) (items others : List T) (junk : Ptr) (w : World T) (a d : ℕ)
      → c < n
      → o < n
      → n < word
      → Inv n w.shared
      → w.shared.obj c ≡ none
      → w.shared.obj o ≡ some (handle (some a) (some a) d)
      → Holds o x items w
      → Returns (plus c o others junk w) (λ w'.
        (contents c w' ≡ some (items ++ others))
        × ((p : ℕ) (y : Body) (ys : List T) → c ≢ p → Holds p y ys w → contents p w' ≡ some ys))
  unfolding plus
  plus_lem c o x items others junk w a d h k small v free e holds =
      let (s, made, (inv, now, _, quiet)) =
        Returns-some (Shared.copy_construct c o junk w.shared)
          (copy_construct_lem c h small junk o (handle (some a) (some a) d) a v free k e refl) in
      let w1 = shared_copy c x s w in
      let (w', added, (mine, theirs, _)) = Returns-some (append c others w1) (
        append_lem c _ items others w1 a d h small inv now
          (shared_copy-own c o x items s w holds)) in
      rw (copy_construct-eq c o x junk s w made quiet holds.body)
        (rw added (mine, λ p y ys ne q. theirs p y ys ne (shared_copy-other c x s w p y ys ne q)))
