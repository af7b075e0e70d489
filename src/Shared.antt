-- ===== src/Shared.antt =====
-- The class `Shared` of Shared.h: a reference count and a copy-on-write flag that handles share. The
-- store holds the two kinds of allocation and the handles, by address; `none` as a result is a fault:
-- a null or dangling pointer, a dead handle, a failed assertion. An address is not used twice. `m_dtr`
-- is known by a number, and calling it is logged with the address of the count that was released.
pub mod Invariant
pub mod Release
pub mod Handles
pub mod Ownership
pub mod Lifetime
pub mod Misuse
pub mod Promise
pub mod Simulation
pub mod Refinement
pub mod Race
mod Tests
use libmandrews.Prelude.{
  ℕ, ◌+◌, ◌-◌, ◌%◌, ◌^◌, Bool, true, false, Option, none, some, List, [], ◌∷◌, ◌++◌, leb, ◌==◌,
  if◌then◌else◌, update, ◌>>=◌, ◌>>◌, guard,
}

abbrev pub word : ℕ
word = 2 ^ 64

abbrev pub Ptr : Type 0
Ptr = Option ℕ

pub record Handle : Type 0 where
  pub m_cnt : Ptr
  pub m_cow : Ptr
  pub m_dtr : ℕ

pub record Store : Type 0 where
  pub cnt : ℕ → Option ℕ  -- std::atomic<size_t>
  pub cow : ℕ → Option Bool  -- std::atomic<bool>
  pub next : ℕ
  pub obj : ℕ → Option Handle
  pub ran : List (ℕ × ℕ)

-- Two addresses that `new` returns: each kind of allocation has its own numbers.
unfoldable pub create : ℕ → Store → Option Store
create o s = do
  x ← s.obj o
  some (record s {
    cnt = update s.cnt s.next (some 1);
    cow = update s.cow s.next (some false);
    next = s.next + 1;
    obj = update s.obj o (some (record x { m_cnt = some s.next; m_cow = some s.next }));
  })

-- A read through a pointer.
abbrev pub deref {ℓ} : {A : Type ℓ} → (ℕ → Option A) → Ptr → Option A
deref f none = none
deref f (some a) = f a

unfoldable pub last : Ptr → Store → Option Bool
last none s = some false
last (some a) s = do n ← s.cnt a; guard (leb 1 n); some (n == 1)

unfoldable pub ref : Ptr → Store → Option Store
ref none s = none
ref (some a) s = do n ← s.cnt a; some (record s { cnt = update s.cnt a (some ((n + 1) % word)) })

-- `*m_cow = b`
unfoldable pub set_cow : Ptr → Bool → Store → Option Store
set_cow none b s = none
set_cow (some a) b s = do _ ← s.cow a; some (record s { cow = update s.cow a (some b) })

-- `delete` of null does nothing, and of a dangling pointer is a fault.
unfoldable pub delete_cnt : Ptr → Store → Option Store
delete_cnt none s = some s
delete_cnt (some a) s = do _ ← s.cnt a; some (record s { cnt = update s.cnt a none })

unfoldable pub delete_cow : Ptr → Store → Option Store
delete_cow none s = some s
delete_cow (some a) s = do _ ← s.cow a; some (record s { cow = update s.cow a none })

abbrev pub address : Ptr → ℕ
address none = 0
address (some a) = a

-- `else if (m_cnt) --*m_cnt;`
unfoldable pub release : Ptr → Store → Option Store
release none s = some s
release (some a) s = do
  n ← s.cnt a
  some (record s { cnt = update s.cnt a (some ((n + word - 1) % word)) })

unfoldable pub drop_last : ℕ → Handle → Store → Option Store
unfolding delete_cnt delete_cow
drop_last o x s = do
  s ← delete_cnt x.m_cnt s
  s ← delete_cow x.m_cow s
  some (record s {
    obj = update s.obj o (some (record x { m_cnt = none; m_cow = none }));
    ran = s.ran ++ (address x.m_cnt, x.m_dtr) ∷ [];
  })

unfoldable pub unref : ℕ → Store → Option Store
unfolding last release drop_last
unref o s = do
  x ← s.obj o
  sole ← last x.m_cnt s
  if sole then drop_last o x s else release x.m_cnt s

-- `operator=(const Shared&)` and `operator=(Shared&&)`; `o` is `this`, `p` is `other`.
unfoldable pub copy_assign : ℕ → ℕ → Store → Option Store
unfolding unref ref set_cow
copy_assign o p s = do
  s ← unref o s
  y ← s.obj p
  s ← some (record s { obj = update s.obj o (some y) })
  s ← ref y.m_cnt s
  set_cow y.m_cow true s

unfoldable pub move_assign : ℕ → ℕ → Store → Option Store
unfolding unref
move_assign o p s = do
  s ← unref o s
  y ← s.obj p
  s ← some (record s { obj = update s.obj o (some y) })
  some (record s { obj = update s.obj p (some (record y { m_cnt = none; m_cow = none })) })

-- The constructors. `junk` is what the memory of the handle holds where `m_cow` is not initialised.
unfoldable pub construct : ℕ → ℕ → Ptr → Store → Option Store
unfolding create
construct o dtr junk s =
    create o (record s {
      obj = update s.obj o (some (record { m_cnt = none; m_cow = junk; m_dtr = dtr }));
    })

unfoldable pub copy_construct : ℕ → ℕ → Ptr → Store → Option Store
unfolding copy_assign
copy_construct o p junk s = do
  y ← s.obj p
  copy_assign o p (record s {
    obj = update s.obj o (some (record { m_cnt = none; m_cow = junk; m_dtr = y.m_dtr }));
  })

unfoldable pub move_construct : ℕ → ℕ → Ptr → Store → Option Store
unfolding move_assign
move_construct o p junk s = do
  y ← s.obj p
  move_assign o p (record s {
    obj = update s.obj o (some (record { m_cnt = none; m_cow = junk; m_dtr = y.m_dtr }));
  })

unfoldable pub destruct : ℕ → Store → Option Store
unfolding unref
destruct o s = do s ← unref o s; some (record s { obj = update s.obj o none })

-- `write`, with a callback that copies the payload and leaves the counts alone.
unfoldable pub write : ℕ → Store → Option Store
unfolding last set_cow
write o s = do
  x ← s.obj o
  sole ← last x.m_cnt s
  s ← if sole then set_cow x.m_cow false s else some s
  flag ← deref s.cow x.m_cow
  if flag then (do s ← unref o s; create o s) else some s
