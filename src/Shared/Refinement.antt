-- ===== src/Shared/Refinement.antt =====
-- The operations of Shared.h do what they promise.
use libmandrews.Prelude.{ℕ, ◌<◌, ◌≡◌, refl, ap, ◌∙◌, Option, none, some, Returns}
use libmandrews.Shared.{word, Ptr, Store}
use libmandrews.Shared.Invariant.{Inv}
use libmandrews.Shared.Release.{handle}
use libmandrews.Shared.Lifetime.{Reach, Step, next, Reach-Inv}
use libmandrews.Shared.Promise.{
  share, view, Op, constructs, copies, moves, assigns_copy, assigns_move, destructs, writes,
  perform, object_of, dtr_of, Legal, Refines,
}
use libmandrews.Shared.Simulation.{
  share-some, share-none, constructs-Refines, copies-Refines, moves-Refines, assigns_copy-Refines,
  assigns_move-Refines, destructs-Refines, writes-Refines,
}

-- A handle that is not null, in a store with the invariant.
NotNull-handle :
    {n : ℕ} {s : Store} (o a d : ℕ)
    → Inv n s
    → share (s.obj o) ≡ some (record { object = some a; dtr = d })
    → s.obj o ≡ some (handle (some a) (some a) d)
NotNull-handle {n} {s} o a d v e =
    let (x, xe, se) = share-some (s.obj o) _ e in
    let c : x.m_cnt ≡ some a = ap object_of se in
    let same_d : x.m_dtr ≡ d = ap dtr_of se in
    let w : x.m_cow ≡ some a = v.cows o x xe a c in
    xe
    ∙ ap some (
        ap (λ c. handle c x.m_cow x.m_dtr) c
        ∙ ap (λ w. handle (some a) w x.m_dtr) w
        ∙ ap (handle (some a) (some a)) same_d)

reached :
    {n : ℕ} {s : Store} (Q : Store → Type 0) (o : Option Store)
    → Reach n s
    → Returns o (λ t. Step n s t × Q t)
    → Returns o (λ t. Reach n t × Q t)
reached Q none r h = h
reached Q (some t) r (st, q) = (next r st, q)

module _ {n : ℕ} {s : Store} (small : n < word) where
  perform-Step :
      Inv n s
      → (op : Op) (junk : Ptr) → Legal n op (view s)
      → Returns (perform op junk s) (λ t. Step n s t × Refines n op (view s) (view t))
  perform-Step v (constructs o d) junk (h, e) =
      constructs-Refines n s o d junk v h (share-none (s.obj o) e)
  perform-Step v (copies o p) junk ((h, e), (k, a, d, q)) =
      copies-Refines n s o p a junk _ small v h k (share-none (s.obj o) e)
        (NotNull-handle p a d v q) refl
  perform-Step v (moves o p) junk ((h, e), (k, y, q)) =
      let (y, ye, _) = share-some (s.obj p) y q in
      moves-Refines n s o p junk y small v h k (share-none (s.obj o) e) ye
  perform-Step v (assigns_copy o p) junk (ne, (h, x, e), (k, a, d, q)) =
      let (x, xe, _) = share-some (s.obj o) x e in
      assigns_copy-Refines n s o p a x _ small v h k ne xe (NotNull-handle p a d v q) refl
  perform-Step v (assigns_move o p) junk (ne, (h, x, e), (k, y, q)) =
      let (x, xe, _) = share-some (s.obj o) x e in
      let (y, ye, _) = share-some (s.obj p) y q in
      assigns_move-Refines n s o p x y small v h k ne xe ye
  perform-Step v (destructs o) junk (h, x, e) =
      let (x, xe, _) = share-some (s.obj o) x e in destructs-Refines n s o x small v h xe
  perform-Step v (writes o) junk (h, a, d, e) =
      writes-Refines n s o a d small v h (NotNull-handle o a d v e)

-- In every store that a program reaches with fewer than 2^64 handles, an operation of Shared that
-- the rules allow (a handle is made where there is none, null is neither copied nor written
-- through, assignments are between two handles) returns; the store is again such a store, and
-- with the counts and flags forgotten it is what the operation means: handles share objects or
-- are null, an object goes, and its destructor is called, when its last handle lets go, and a
-- write parts a handle from the others by a new object.
pub perform-Refines :
    {n : ℕ} {s : Store} (op : Op) (junk : Ptr)
    → n < word
    → Reach n s
    → Legal n op (view s)
    → Returns (perform op junk s) (λ t. Reach n t × Refines n op (view s) (view t))
perform-Refines {s = s} op junk small r legal =
    reached _ (perform op junk s) r (perform-Step small (Reach-Inv small r) op junk legal)
