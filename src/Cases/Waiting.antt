-- ===== src/Cases/Waiting.antt =====
-- How the loop of `WaitAll` of cases.hpp comes to an end.
use mathlib.Core.Path.{subst}
use libmandrews.Prelude.{
  ℕ, ◌+◌, ◌≤◌, ◌≡◌, ◌≢◌, refl, ap, Bool, true, false, List, [], ◌∷◌, ◌++◌, arith, tally,
  tally-append, weight,
}
use libmandrews.Cases.{
  Case, Child, Flushed, drained, aborted, looping, flush, Verdict, running, stuck, dead, judged,
  Visit, after_flush, visit, Outcome, returned, killed, invalid, waiting, is_success, settle,
  wait_loop, asserted, wait_all,
}

-- A test of the identity of a child, which the visits leave alone.
abbrev pub is_child : (ℕ → ℕ → Bool) → Child → Bool
is_child p child = p child.i child.pid

-- What the end of the loop says of `n`, the number of the children that the test holds of, and of all the
-- children.
abbrev pub Erased : (ℕ → ℕ → Bool) → List Child → Outcome → Type 0
Erased p children (returned b) = (b ≡ true) × (children ≡ [])
Erased p children (invalid b r) =
    (b ≡ is_success r.result) × (weight (is_child p r.child) ≤ tally (is_child p) children)
Erased p children killed = Unit
Erased p children waiting = Unit

module _ (c : Case) (child : Child) (v : Visit) where
  -- The child after a visit is the child before it, with more text.
  visit-is_child : (p : ℕ → ℕ → Bool) → is_child p (visit c child v).1 ≡ is_child p child
  unfolding visit
  visit-is_child p = of_flush (flush v.reads child.buf)
    where
      of_flush : (f : Flushed) → is_child p (after_flush c child v f).1 ≡ is_child p child
      of_flush (drained buf) = refl
      of_flush aborted = refl
      of_flush (looping buf) = refl

module _ (c : Case) (p : ℕ → ℕ → Bool) where
  -- What is known inside the loop, with `n` children that the test holds of.
  abbrev Within : ℕ → Outcome → Type 0
  Within n (returned b) = ⊥
  Within n (invalid b r) = (b ≡ is_success r.result) × (weight (is_child p r.child) ≤ n)
  Within n killed = Unit
  Within n waiting = Unit

  settle-Within :
      (s : Verdict × Child) (n : ℕ) (on : Child → Outcome)
      → weight (is_child p s.1) ≤ n
      → Within n (on s.1)
      → Within n (settle s true on)
  settle-Within (running, child) n on h o = o
  settle-Within (judged r, child) n on h o = (refl, h)
  settle-Within (stuck, child) n on h o = tt
  settle-Within (dead, child) n on h o = tt

  Within-eq : {n m : ℕ} (o : Outcome) → n ≡ m → Within n o → Within m o
  Within-eq o e a = subst (λ k. Within k o) e a

  wait_loop-Within :
      (visits : List Visit) (kept todo : List Child)
      → kept ++ todo ≢ []
      → Within
          (tally (is_child p) kept + tally (is_child p) todo)
          (wait_loop c visits kept todo true)
  unfolding wait_loop
  wait_loop-Within visits [] [] h = absurd (h refl)
  wait_loop-Within [] kept (child ∷ todo) h = tt
  wait_loop-Within [] (child ∷ kept) [] h = tt
  wait_loop-Within (v ∷ visits) kept (child ∷ todo) h =
      let child' = (visit c child v).1 in
      let same = visit-is_child c child v p in
      let next = kept ++ child' ∷ [] in
      settle-Within (visit c child v) _ _ (omega (arith, ap weight same)) (
        Within-eq (wait_loop c visits next todo true)
          (omega (arith, tally-append (is_child p) kept (child' ∷ []), ap weight same))
          (wait_loop-Within visits next todo (λ e. some_left kept child' todo e)))
    where
      some_left : (xs : List Child) (x : Child) (ys : List Child) → (xs ++ x ∷ []) ++ ys ≢ []
      some_left [] x ys e = cc
      some_left (y ∷ xs) x ys e = cc
  wait_loop-Within (v ∷ visits) (child ∷ kept) [] h =
      let child' = (visit c child v).1 in
      let same = visit-is_child c child v p in
      settle-Within (visit c child v) _ _ (omega (arith, ap weight same)) (
        Within-eq (wait_loop c visits (child' ∷ []) kept true) (omega (arith, ap weight same))
          (wait_loop-Within visits (child' ∷ []) kept (λ e. cc)))

  asserted-Erased :
      (cautious : Bool) (child : Child) (children : List Child) (o : Outcome)
      → Within (tally (is_child p) (child ∷ children)) o
      → Erased p (child ∷ children) (asserted cautious o)
  asserted-Erased cautious child children (returned b) w = absurd w
  asserted-Erased true child children (invalid b r) w = w
  asserted-Erased false child children (invalid b r) w = w
  asserted-Erased true child children killed w = w
  asserted-Erased false child children killed w = w
  asserted-Erased true child children waiting w = w
  asserted-Erased false child children waiting w = w

-- Whatever the pipes, waitpid and the clock answer, WaitAll returns only if there is no child,
-- and then true; else it aborts, waits, or comes to the increment of the erased iterator, when it
-- has reported one of the children and success says whether that was a success. That the child is
-- one of them is said by every test of the children by number and process.
pub wait_all-Erased :
    (c : Case) (cautious : Bool) (visits : List Visit) (children : List Child) (p : ℕ → ℕ → Bool)
    → Erased p children (wait_all c cautious visits children)
unfolding wait_all wait_loop
wait_all-Erased c true visits [] p = (refl, refl)
wait_all-Erased c false visits [] p = (refl, refl)
wait_all-Erased c cautious visits (child ∷ children) p =
    asserted-Erased c p cautious child children (wait_loop c visits [] (child ∷ children) true) (
      Within-eq c p (wait_loop c visits [] (child ∷ children) true) (omega arith)
        (wait_loop-Within c p visits [] (child ∷ children) (λ e. cc)))

-- With a child WaitAll does not return.
pub wait_all-unreturned :
    (c : Case) (cautious : Bool) (visits : List Visit) (child : Child) (children : List Child)
    (b : Bool)
    → wait_all c cautious visits (child ∷ children) ≢ returned b
wait_all-unreturned c cautious visits child children b e =
    let (_, none_left) =
      subst (Erased (λ i pid. true) (child ∷ children)) e
        (wait_all-Erased c cautious visits (child ∷ children) (λ i pid. true)) in
    cc
