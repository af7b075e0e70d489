-- ===== src/Shared/Simulation.antt =====
-- Each operation of Shared.h and what it promises.
use mathlib.Core.Path.{fun_ext, subst}
use libmandrews.Prelude.{
  ℕ, ◌<◌, ◌≡◌, ◌≢◌, refl, sym, ap, ◌∙◌, true, false, Option, none, some, List, arith, ◌==◌, update,
  Returns, Returns-some, Bool-cases, inl, inr,
}
use libmandrews.Shared.{
  word, Ptr, Handle, Store, copy_assign, move_assign, construct, copy_construct, move_construct,
  destruct, write,
}
use libmandrews.Shared.Invariant.{
  points, points-le, sharers, sharers-update, pointers, held, Inv, allocated,
}
use libmandrews.Shared.Release.{handle, sole, log_of, held-cnt, allocated-some}
use libmandrews.Shared.Handles.{copy_assign_lem, move_assign_lem, destruct_lem}
use libmandrews.Shared.Ownership.{
  Exclusive, construct_lem, copy_construct_lem, write-sole, write-Exclusive,
}
use libmandrews.Shared.Lifetime.{Reach, Step, next, Reach-Inv, move_construct_lem}
use libmandrews.Shared.Lifetime
use libmandrews.Shared.Promise.{
  Share, share, View, view, constructs, copies, moves, assigns_copy, assigns_move, destructs,
  writes, object_of, objects, put, alone, leave, New, Refines,
}

view-eq : {v w : View} → ((j : ℕ) → v.handles j ≡ w.handles j) → v.gone ≡ w.gone → v ≡ w
view-eq {v} {w} h g =
    ap (λ f. record { handles = f; gone = v.gone }) (fun_ext h)
    ∙ ap (λ l. record { handles = w.handles; gone = l }) g

pub share-some :
    (q : Option Handle) (h : Share)
    → share q ≡ some h
    → (x : Handle) × (q ≡ some x) × (share (some x) ≡ some h)
share-some none h e = cc
share-some (some x) h e = (x, refl, e)

pub share-none : (q : Option Handle) → share q ≡ none → q ≡ none
share-none none e = refl
share-none (some x) e = cc

object_of-share : (q : Option Handle) → object_of (share q) ≡ held q
object_of-share none = refl
object_of-share (some x) = refl

objects-view : (s : Store) → objects (view s) ≡ pointers s
objects-view s = fun_ext (λ j. object_of-share (s.obj j))

module _ (n : ℕ) (s : Store) where
  alone-sole :
      (o : ℕ) (x : Handle) → s.obj o ≡ some x → alone n o (view s) ≡ sole n (pointers s) x.m_cnt
  alone-sole o x e = rw (objects-view s, e) refl

  leave-gone :
      (o : ℕ) (x : Handle) (ran : List (ℕ × ℕ))
      → s.obj o ≡ some x
      → ran ≡ log_of (sole n (pointers s) x.m_cnt) x s.ran
      → ran ≡ (leave n o (view s)).gone
  leave-gone o x ran e r = r ∙ sym (rw (alone-sole o x e, e) refl)

  New-next : Inv n s → New n s.next (view s)
  New-next v = (
    rw (objects-view s) (v.counts.fresh s.next (omega arith)),
    ground (arith, v.counts.once s.next),
  )

  -- An object with one handle, which did not hold it before, is new.
  Exclusive-New :
      (o d b : ℕ) (t : Store)
      → o < n
      → (points b (pointers s o) ≡ 1 → sharers n (pointers s) b ≢ 1)
      → t.obj o ≡ some (handle (some b) (some b) d)
      → t.cnt b ≡ some 1
      → Exclusive n o d s t
      → New n b (view s)
  Exclusive-New o d b t h other now one r =
      let agree : pointers t ≡ update (pointers s) o (some b) =
        fun_ext (λ j. ground (arith, r.others j)) in
      let count : sharers n (update (pointers s) o (some b)) b ≡ 1 =
        subst (λ P. sharers n P b ≡ 1) agree (ground (arith, r.inv.counts.counted b)) in
      (
        rw (objects-view s) (
            ground (
              arith,
              sharers-update n (pointers s) o (some b) b h,
              points-le b (pointers s o),
              other,
            )),
        ground (arith, r.inv.counts.once b, r.log),
      )

  -- A store in which only handle `o` differs.
  view-put :
      (o : ℕ) (h : Option Share) (v : View) (t : Store)
      → ((j : ℕ) → v.handles j ≡ (view s).handles j)
      → share (t.obj o) ≡ h
      → ((j : ℕ) → o ≢ j → t.obj j ≡ s.obj j)
      → t.ran ≡ v.gone
      → view t ≡ put o h v
  view-put o h v t same now others log = view-eq (λ j. ground (arith, same j, others j)) log

  pub constructs-Refines :
      (o d : ℕ) (junk : Ptr)
      → Inv n s
      → o < n
      → s.obj o ≡ none
      → Returns
          (construct o d junk s)
          (λ t. Step n s t × Refines n (constructs o d) (view s) (view t))
  constructs-Refines o d junk v h e =
      let (t, te, r) = Returns-some (construct o d junk s) (construct_lem o h d junk v e) in
      let (b, now, one, _) = r.own in
      rw te (
        Lifetime.constructs o d junk h e te,
        (
          b,
          Exclusive-New o d b t h (rw e (λ z. absurd (omega arith))) now one r,
          view-put o _ (view s) t (λ j. refl) (rw now refl) r.others r.log,
        ),
      )

  pub copies-Refines :
      (o p a : ℕ) (junk : Ptr) (y : Handle)
      → n < word
      → Inv n s
      → o < n
      → p < n
      → s.obj o ≡ none
      → s.obj p ≡ some y
      → y.m_cnt ≡ some a
      → Returns
          (copy_construct o p junk s)
          (λ t. Step n s t × Refines n (copies o p) (view s) (view t))
  copies-Refines o p a junk y small v h k e q yc =
      let (t, te, (inv, now, others, log)) =
        Returns-some (copy_construct o p junk s)
          (copy_construct_lem o h small junk p y a v e k q yc) in
      rw te (
        Lifetime.copies o p a junk y h k e q yc te,
        (s.next, New-next v, view-put o _ (view s) t (λ j. refl) (rw (now, q) refl) others log),
      )

  pub assigns_copy-Refines :
      (o p a : ℕ) (x y : Handle)
      → n < word
      → Inv n s
      → o < n
      → p < n
      → o ≢ p
      → s.obj o ≡ some x
      → s.obj p ≡ some y
      → y.m_cnt ≡ some a
      → Returns
          (copy_assign o p s)
          (λ t. Step n s t × Refines n (assigns_copy o p) (view s) (view t))
  assigns_copy-Refines o p a x y small v h k ne e q yc =
      let (t, te, r) =
        Returns-some (copy_assign o p s) (copy_assign_lem small v o h p k ne x e y a q yc) in
      rw te (
        Lifetime.assigns_copy o p a x y h k ne e q yc te,
        (
          s.next,
          New-next v,
          view-put o _ (leave n o (view s)) t (λ j. refl) (rw (r.now, q) refl) r.others
              (leave-gone o x t.ran e r.log),
        ),
      )

  pub destructs-Refines :
      (o : ℕ) (x : Handle)
      → n < word
      → Inv n s
      → o < n
      → s.obj o ≡ some x
      → Returns (destruct o s) (λ t. Step n s t × Refines n (destructs o) (view s) (view t))
  destructs-Refines o x small v h e =
      let (t, te, (inv, now, others, log)) =
        Returns-some (destruct o s) (destruct_lem small v o h x e) in
      rw te (
        Lifetime.destructs o x h e te,
        (
          s.next,
          New-next v,
          view-put o _ (leave n o (view s)) t (λ j. refl) (rw now refl) others
              (leave-gone o x t.ran e log),
        ),
      )

  pub assigns_move-Refines :
      (o p : ℕ) (x y : Handle)
      → n < word
      → Inv n s
      → o < n
      → p < n
      → o ≢ p
      → s.obj o ≡ some x
      → s.obj p ≡ some y
      → Returns
          (move_assign o p s)
          (λ t. Step n s t × Refines n (assigns_move o p) (view s) (view t))
  assigns_move-Refines o p x y small v h k ne e q =
      let (t, te, (inv, now, null, others, log)) =
        Returns-some (move_assign o p s) (move_assign_lem small v o h p k ne x e y q) in
      rw te (
        Lifetime.assigns_move o p x y h k ne e q te,
        (
          s.next,
          New-next v,
          view-eq (λ j. ground (arith, others j, q)) (leave-gone o x t.ran e log),
        ),
      )

  pub moves-Refines :
      (o p : ℕ) (junk : Ptr) (y : Handle)
      → n < word
      → Inv n s
      → o < n
      → p < n
      → s.obj o ≡ none
      → s.obj p ≡ some y
      → Returns
          (move_construct o p junk s)
          (λ t. Step n s t × Refines n (moves o p) (view s) (view t))
  moves-Refines o p junk y small v h k e q =
      let (t, te, (inv, now, null, others, log)) =
        Returns-some (move_construct o p junk s) (move_construct_lem small o p junk y v h k e q) in
      rw te (
        Lifetime.moves o p junk y h k e q te,
        (s.next, New-next v, view-eq (λ j. ground (arith, others j, q)) log),
      )

  pub writes-Refines :
      (o a d : ℕ)
      → n < word
      → Inv n s
      → o < n
      → s.obj o ≡ some (handle (some a) (some a) d)
      → Returns (write o s) (λ t. Step n s t × Refines n (writes o) (view s) (view t))
  writes-Refines o a d small v h e =
      let held_e : pointers s o ≡ some a = ground arith in
      let (cnt_e, pos) = held-cnt v.counts o a h held_e in
      let (f, cow_e) = allocated-some (s.cow a) (v.counts.paired a ∙ ap allocated cnt_e) in
      elim (Bool-cases (sharers n (pointers s) a == 1)) [
        | inl one ↦
            let lone : alone n o (view s) ≡ true =
              alone-sole o (handle (some a) (some a) d) e ∙ one in
            let te = write-sole o h s a d e (ground arith) cow_e in
            rw te (Lifetime.writes o a d h e te, (s.next, New-next v, rw lone refl))
        | inr many ↦
            let others : alone n o (view s) ≡ false =
              alone-sole o (handle (some a) (some a) d) e ∙ many in
            let (t, te, r) = Returns-some (write o s) (write-Exclusive o h s a d e small v) in
            let (b, now, one, _) = r.own in
            rw te (
              Lifetime.writes o a d h e te,
              (
                b,
                Exclusive-New o d b t h (λ same. ground arith) now one r,
                rw others (view-put o _ (view s) t (λ j. refl) (rw (now, e) refl) r.others r.log),
              ),
            )
      ]
