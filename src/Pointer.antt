-- ===== src/Pointer.antt =====
-- The class template `Pointer` of Shared.h over `Shared`. Pointers stand at the addresses of their handles,
-- and the closure `m_dtr` is known by the address of the pointer that it has captured as `this`. `none` is
-- a fault: a dead pointer, or an object that is not there.
use libmandrews.Prelude.{
  ℕ, ◌+◌, ◌≤◌, ◌≡◌, ◌≢◌, refl, Bool, false, Option, none, some, List, [], ◌∷◌, arith, ◌==◌, length,
  drop, drop-length, update, ◌>>=◌, Returns,
}
use libmandrews.Shared.{Ptr, Store}
use libmandrews.Shared
use libmandrews.Shared.Release.{handle, unref-dropped, unref-released}

pub record World (T : Type 0) : Type 0 where
  pub shared : Store
  pub m_ref : ℕ → Option ℕ
  pub heap : ℕ → Option T
  pub top : ℕ

module _ {T : Type 0} where
  -- `delete &this->m_ref`, where `this` is the pointer at `d`.
  unfoldable pub free_of : ℕ → World T → Option (World T)
  free_of d w = do r ← w.m_ref d; _ ← w.heap r; some (record w { heap = update w.heap r none })

  unfoldable pub run_dtrs : List (ℕ × ℕ) → World T → Option (World T)
  unfolding free_of
  run_dtrs [] w = some w
  run_dtrs ((a, d) ∷ calls) w = do w ← free_of d w; run_dtrs calls w

  -- The world after an operation that left the handles as in `s`, with the destructors that it called.
  unfoldable pub after : Store → World T → Option (World T)
  unfolding run_dtrs
  after s w = run_dtrs (drop (length w.shared.ran) s.ran) (record w { shared = s })

  -- The constructor, with the object that `new` makes of its arguments.
  unfoldable pub construct : ℕ → T → Ptr → World T → Option (World T)
  unfolding after
  construct o object junk w = do
    s ← Shared.construct o o junk w.shared
    w ← after s w
    some (record w {
      heap = update w.heap w.top (some object);
      top = w.top + 1;
      m_ref = update w.m_ref o (some w.top);
    })

  -- The copy constructor, for a constant, and the move constructor.
  unfoldable pub copy_construct : ℕ → ℕ → Ptr → World T → Option (World T)
  unfolding after
  copy_construct o p junk w = do
    s ← Shared.copy_construct o p junk w.shared
    w ← after s w
    r ← w.m_ref p
    some (record w { m_ref = update w.m_ref o (some r) })

  unfoldable pub move_construct : ℕ → ℕ → Ptr → World T → Option (World T)
  unfolding after
  move_construct o p junk w = do
    s ← Shared.move_construct o p junk w.shared
    w ← after s w
    r ← w.m_ref p
    some (record w { m_ref = update w.m_ref o (some r) })

  unfoldable pub destruct : ℕ → World T → Option (World T)
  unfolding after
  destruct o w = do
    s ← Shared.destruct o w.shared
    w ← after s w
    some (record w { m_ref = update w.m_ref o none })

  -- `operator*`, and `operator->`, which returns the same reference.
  unfoldable pub deref : ℕ → World T → Option T
  deref o w = do r ← w.m_ref o; w.heap r

  module _ (w : World T) (o a d : ℕ) (e : w.shared.obj o ≡ some (handle (some a) (some a) d)) where
    -- Destroying the last pointer of a count faults if the pointer that the closure has captured has
    -- been destroyed before.
    pub destruct-captured :
        {f : Bool}
        → w.shared.cnt a ≡ some 1
        → w.shared.cow a ≡ some f
        → w.m_ref d ≡ none
        → destruct o w ≡ none
    unfolding destruct Shared.destruct
    destruct-captured c flag dead =
        rw (unref-dropped w.shared o a d e c flag) (rw (drop-length, dead) refl)

    -- Otherwise it deletes the object of that pointer, and no other.
    pub destruct-deletes :
        {f : Bool} (r : ℕ) (object : T)
        → w.shared.cnt a ≡ some 1
        → w.shared.cow a ≡ some f
        → w.m_ref d ≡ some r
        → w.heap r ≡ some object
        → Returns
            (destruct o w)
            (λ t. (t.heap ≡ update w.heap r none) × (t.m_ref ≡ update w.m_ref o none))
    unfolding destruct Shared.destruct
    destruct-deletes r object c flag captured there =
        rw (unref-dropped w.shared o a d e c flag) (rw (drop-length, captured, there) (refl, refl))

    -- Destroying one of several pointers deletes nothing, and the others refer to what they did.
    pub destruct-several :
        (k p : ℕ)
        → w.shared.cnt a ≡ some k
        → 2 ≤ k
        → o ≢ p
        → Returns (destruct o w) (λ t. (t.heap ≡ w.heap) × (deref p t ≡ deref p w))
    unfolding destruct Shared.destruct deref
    destruct-several k p c many ne =
        let other : (o == p) ≡ false = ground arith in
        rw (unref-released w.shared o a d e c (omega arith) (omega arith))
          (rw (drop_whole w.shared.ran) (refl, rw other refl))
      where
        drop_whole : (l : List (ℕ × ℕ)) → drop (length l) l ≡ []
        drop_whole [] = refl
        drop_whole (x ∷ l) = drop_whole l
