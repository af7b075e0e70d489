-- ===== src/Shared/Lifetime.antt =====
-- Any program over the handles of Shared.h that keeps to the rules of the class.
use libmandrews.Prelude.{
  Returns-some, ℕ, ◌<◌, ◌≡◌, ◌≢◌, refl, ◌∙◌, Option, none, some, [], arith, ◌⊎◌, ◌==◌,
  total-eq-zero, Returns, tally,
}
use mathlib.Core.Path.{subst}
use libmandrews.Shared.{
  word, Ptr, Handle, Store, copy_assign, move_assign, construct, copy_construct, move_construct,
  destruct, write,
}
use libmandrews.Shared.Invariant.{points, sharers, pointers, Inv}
use libmandrews.Shared.Release.{handle}
use libmandrews.Shared.Handles.{copy_assign_lem, move_assign_lem, destruct_lem}
use libmandrews.Shared.Ownership.{
  emptied, emptied-Inv, construct_lem, copy_construct_lem, write-Exclusive,
}

abbrev pub empty : Store
empty = record { cnt = λ _. none; cow = λ _. none; next = 0; obj = λ _. none; ran = [] }

-- One operation on handles below `n`: on two handles it wants them distinct, a copy is made of a handle
-- that is not null, and only a handle that is not null is written through.
pub data Step (n : ℕ) (s t : Store) : Type 0 where
  constructs :
      (o d : ℕ) (junk : Ptr) → o < n → s.obj o ≡ none → construct o d junk s ≡ some t → Step n s t
  copies :
      (o p a : ℕ) (junk : Ptr) (y : Handle)
      → o < n
      → p < n
      → s.obj o ≡ none
      → s.obj p ≡ some y
      → y.m_cnt ≡ some a
      → copy_construct o p junk s ≡ some t
      → Step n s t
  moves :
      (o p : ℕ) (junk : Ptr) (y : Handle)
      → o < n
      → p < n
      → s.obj o ≡ none
      → s.obj p ≡ some y
      → move_construct o p junk s ≡ some t
      → Step n s t
  assigns_copy :
      (o p a : ℕ) (x y : Handle)
      → o < n
      → p < n
      → o ≢ p
      → s.obj o ≡ some x
      → s.obj p ≡ some y
      → y.m_cnt ≡ some a
      → copy_assign o p s ≡ some t
      → Step n s t
  assigns_move :
      (o p : ℕ) (x y : Handle)
      → o < n
      → p < n
      → o ≢ p
      → s.obj o ≡ some x
      → s.obj p ≡ some y
      → move_assign o p s ≡ some t
      → Step n s t
  destructs : (o : ℕ) (x : Handle) → o < n → s.obj o ≡ some x → destruct o s ≡ some t → Step n s t
  writes :
      (o a d : ℕ)
      → o < n
      → s.obj o ≡ some (handle (some a) (some a) d)
      → write o s ≡ some t
      → Step n s t

pub data Reach (n : ℕ) : Store → Type 0 where
  begin : Reach n empty
  next : {s t : Store} → Reach n s → Step n s t → Reach n t

-- What is known of every result is known of this one.
of-Returns : {A : Type 0} (P : A → Type 0) {o : Option A} {a : A} → Returns o P → o ≡ some a → P a
of-Returns P r e = subst (λ q. Returns q P) e r

module _ {n : ℕ} (small : n < word) where
  -- A handle made by a move has the pointers of the other one, which is null.
  pub move_construct_lem :
      {s : Store} (o p : ℕ) (junk : Ptr) (y : Handle)
      → Inv n s
      → o < n
      → p < n
      → s.obj o ≡ none
      → s.obj p ≡ some y
      → Returns (move_construct o p junk s) (λ t.
        Inv n t
        × (t.obj o ≡ some y)
        × (t.obj p ≡ some (handle none none y.m_dtr))
        × ((j : ℕ) → o ≢ j → p ≢ j → t.obj j ≡ s.obj j)
        × (t.ran ≡ s.ran))
  unfolding move_construct
  move_construct_lem {s} o p junk y v h k e q =
      let ne : o ≢ p = ground arith in
      let (t, te, (inv, now, null, others, log)) =
        Returns-some (move_assign o p (emptied o (handle none junk y.m_dtr) s)) (
          move_assign_lem small (emptied-Inv o h junk y.m_dtr e v) o h p k ne
            (handle none junk y.m_dtr) (ground arith) y (ground arith)) in
      rw q (rw te (inv, now, null, λ j oj pj. others j oj pj ∙ (ground arith), log))

  Step-Inv : {s t : Store} → Step n s t → Inv n s → Inv n t
  Step-Inv (constructs o d junk h e r) v = (of-Returns _ (construct_lem o h d junk v e) r).inv
  Step-Inv (copies o p a junk y h k e q yc r) v =
      (of-Returns _ (copy_construct_lem o h small junk p y a v e k q yc) r).0
  Step-Inv (moves o p junk y h k e q r) v =
      (of-Returns _ (move_construct_lem o p junk y v h k e q) r).0
  Step-Inv (assigns_copy o p a x y h k ne e q yc r) v =
      (of-Returns _ (copy_assign_lem small v o h p k ne x e y a q yc) r).inv
  Step-Inv (assigns_move o p x y h k ne e q r) v =
      (of-Returns _ (move_assign_lem small v o h p k ne x e y q) r).0
  Step-Inv (destructs o x h e r) v = (of-Returns _ (destruct_lem small v o h x e) r).0
  Step-Inv {s} (writes o a d h e r) v = (of-Returns _ (write-Exclusive o h s a d e small v) r).inv

  empty-Inv : Inv n empty
  empty-Inv = record {
    counts = record {
      counted = λ b. rw (no_sharers b);
      paired = λ b. refl;
      flagged = λ b q. absurd (omega (arith, no_sharers b));
      fresh = λ b q. no_sharers b;
      once = λ b. ground arith;
    };
    cows = λ o x e. cc;
  }
    where
      no_sharers : (b : ℕ) → sharers n (pointers empty) b ≡ 0
      no_sharers b = total-eq-zero (points b) n (pointers empty) (λ i h. refl)

  pub Reach-Inv : {s : Store} → Reach n s → Inv n s
  Reach-Inv begin = empty-Inv
  Reach-Inv (next r st) = Step-Inv st (Reach-Inv r)

  -- In every store that any program reaches with the operations of Shared (on distinct handles
  -- below a number that fits the counter, copies of non-null handles only), each count ever made
  -- is either allocated, and holds the number of handles that point at it, which is positive, or
  -- is released, with no handle left, and its destructor was called exactly once.
  pub destroyed_once :
      {s : Store}
      → Reach n s
      → (b : ℕ) → b < s.next
      → ((sharers n (pointers s) b ≡ 0) × (s.cnt b ≡ none) × (tally (λ e. e.0 == b) s.ran ≡ 1))
        ⊎ ((0 < sharers n (pointers s) b)
            × (s.cnt b ≡ some (sharers n (pointers s) b))
            × (tally (λ e. e.0 == b) s.ran ≡ 0))
  destroyed_once {s} r b h =
      let v = (Reach-Inv r).counts in let gone = v.counted b in let once = v.once b in ground arith
