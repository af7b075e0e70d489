-- ===== src/Array.antt =====
-- The class template `Array` of Array.h over `Shared`. Arrays stand at the addresses of their handles;
-- the closure `m_dtr` of an array is known by the address of the array that it has captured as `this`.
-- `none` is a fault: a dead array, a dangling or short buffer.
pub mod Append
pub mod Orphan
pub mod Sum
pub mod Elements
mod Tests
use libmandrews.Prelude.{
  ℕ, suc, ◌+◌, Bool, true, false, Option, none, some, List, [], ◌∷◌, ◌++◌, leb, if◌then◌else◌,
  length, take, drop, update, ◌>>=◌, ◌>>◌, guard,
}
use libmandrews.Shared.{Ptr, Store}
use libmandrews.Shared

-- `m_ptr`, `m_len` and `m_capacity`.
pub record Body : Type 0 where
  pub m_ptr : ℕ
  pub m_len : ℕ
  pub m_capacity : ℕ

-- An allocation: how many elements it has room for, and those that have been constructed in it.
pub record Buffer (T : Type 0) : Type 0 where
  pub room : ℕ
  pub items : List T

pub record World (T : Type 0) : Type 0 where
  pub shared : Store
  pub body : ℕ → Option Body
  pub heap : ℕ → Option (Buffer T)
  pub top : ℕ

module _ {T : Type 0} where
  -- `delete this->m_ptr`, where `this` is the array at `d`.
  unfoldable pub free_of : ℕ → World T → Option (World T)
  free_of d w = do
    x ← w.body d
    _ ← w.heap x.m_ptr
    some (record w { heap = update w.heap x.m_ptr none })

  -- The destructors that an operation on the handles has called.
  unfoldable pub run_dtrs : List (ℕ × ℕ) → World T → Option (World T)
  unfolding free_of
  run_dtrs [] w = some w
  run_dtrs ((a, d) ∷ calls) w = do w ← free_of d w; run_dtrs calls w

  -- The world after an operation that left the handles as in `s`.
  unfoldable pub after : Store → World T → Option (World T)
  unfolding run_dtrs
  after s w = run_dtrs (drop (length w.shared.ran) s.ran) (record w { shared = s })

  -- The elements of an array.
  unfoldable pub contents : ℕ → World T → Option (List T)
  contents o w = do
    x ← w.body o
    b ← w.heap x.m_ptr
    guard (leb x.m_len (length b.items))
    some (take x.m_len b.items)

  -- `copy(len)`: a new buffer with copies of the elements.
  unfoldable pub copy : ℕ → ℕ → World T → Option (World T)
  unfolding contents
  copy o len w = do
    items ← contents o w
    guard (leb (length items) len)
    some (record w {
      heap = update w.heap w.top (some (record { room = len; items = items }));
      top = w.top + 1;
    })

  -- The elements constructed behind those of a buffer.
  unfoldable pub fill : ℕ → List T → World T → Option (World T)
  fill p others w = do
    b ← w.heap p
    guard (leb (length b.items + length others) b.room)
    some (record w { heap = update w.heap p (some (record b { items = b.items ++ others })) })

  -- `operator+=`, for a `Static` or a list of initialisers with the elements `others`.
  unfoldable pub append : ℕ → List T → World T → Option (World T)
  unfolding copy fill after
  append o others w = do
    x ← w.body o
    let p = w.top
    w ← copy o (x.m_len + length others) w
    s ← Shared.write o w.shared
    w ← after s w
    w ← fill p others w
    some (record w {
      body = update w.body o (some (record x { m_ptr = p; m_len = x.m_len + length others }));
    })

  -- The constructor from a `Static` with the elements `items`.
  unfoldable pub construct : ℕ → List T → Ptr → World T → Option (World T)
  unfolding after
  construct o items junk w = do
    s ← Shared.construct o o junk w.shared
    w ← after s w
    some (record w {
      heap = update w.heap w.top (some (record { room = length items; items = items }));
      top = w.top + 1;
      body =
          update w.body o
            (some (record { m_ptr = w.top; m_len = length items; m_capacity = length items }));
    })

  -- The copy constructor, and the one from an array that is given up.
  unfoldable pub copy_construct : ℕ → ℕ → Ptr → World T → Option (World T)
  unfolding after
  copy_construct o p junk w = do
    s ← Shared.copy_construct o p junk w.shared
    w ← after s w
    x ← w.body p
    some (record w { body = update w.body o (some (record x { m_capacity = x.m_len })) })

  unfoldable pub move_construct : ℕ → ℕ → Ptr → World T → Option (World T)
  unfolding after
  move_construct o p junk w = do
    s ← Shared.move_construct o p junk w.shared
    w ← after s w
    x ← w.body p
    some (record w { body = update w.body o (some (record x { m_capacity = x.m_len })) })

  -- The destructor: `m_dtr` runs while the array's own memory is still there.
  unfoldable pub destruct : ℕ → World T → Option (World T)
  unfolding after
  destruct o w = do
    s ← Shared.destruct o w.shared
    w ← after s w
    some (record w { body = update w.body o none })

  -- `operator+` on an array: a copy, at `c`, and `+=` on it.
  unfoldable pub plus : ℕ → ℕ → List T → Ptr → World T → Option (World T)
  unfolding copy_construct append
  plus c o others junk w = do w ← copy_construct c o junk w; append c others w

  -- `operator+` on a `Static`: an array of its elements, and `+=` on it.
  unfoldable pub static_plus : ℕ → List T → List T → Ptr → World T → Option (World T)
  unfolding construct append
  static_plus c items others junk w = do w ← construct c items junk w; append c others w
