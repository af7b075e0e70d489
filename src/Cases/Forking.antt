-- ===== src/Cases/Forking.antt =====
-- `ForkAll` of cases.hpp.
use libmandrews.Prelude.{
  ℕ, zero, suc, ◌+◌, ◌≤◌, ◌<◌, ◌≡◌, ◌≢◌, refl, sym, ap, ◌∙◌, Bool, true, List, [], ◌∷◌, arith, ltb,
  ◌==◌, length, take, tally, weight, Bool-cases, inl, inr,
}
use libmandrews.Cases.{Child}
use libmandrews.Cases.Waiting.{is_child}
use libmandrews.Cases.Run.{
  Fork, aborted, unforked, in_child, parent_of, insert_child, Forked, left, called, fork_all,
}

abbrev pub parents : List ℕ → List Fork → List Fork
parents [] rest = rest
parents (pid ∷ pids) rest = parent_of pid ∷ parents pids rest

abbrev pub NotIn : ℕ → List ℕ → Type 0
NotIn q [] = Unit
NotIn q (pid ∷ pids) = (q ≢ pid) × NotIn q pids

abbrev pub Distinct : List ℕ → Type 0
Distinct [] = Unit
Distinct (pid ∷ pids) = NotIn pid pids × Distinct pids

abbrev Fresh : ℕ → List Child → Type 0
Fresh q [] = Unit
Fresh q (c ∷ children) = (q ≢ c.pid) × Fresh q children

-- Process `pids[j]` with argument list `i + j`, as often as a test holds of them.
abbrev pub expected_children : (ℕ → ℕ → Bool) → ℕ → List ℕ → ℕ
expected_children p i [] = 0
expected_children p i (pid ∷ pids) = weight (p i pid) + expected_children p (i + 1) pids

tally-insert_child :
    (p : ℕ → ℕ → Bool) (c : Child) (children : List Child)
    → Fresh c.pid children
    → tally (is_child p) (insert_child c children)
      ≡ weight (is_child p c) + tally (is_child p) children
unfolding insert_child
tally-insert_child p c [] f = refl
tally-insert_child p c (x ∷ children) (ne, f) = ground (arith, tally-insert_child p c children f)

Fresh-insert_child :
    (q : ℕ) (c : Child) (children : List Child)
    → q ≢ c.pid
    → Fresh q children
    → Fresh q (insert_child c children)
unfolding insert_child
Fresh-insert_child q c [] ne f = (ne, tt)
Fresh-insert_child q c (x ∷ children) ne (nx, f) = elim (Bool-cases (ltb c.pid x.pid)) [
  | inl lt ↦ rw lt (ne, (nx, f))
  | inr ge ↦ elim (Bool-cases (c.pid == x.pid)) [
    | inl same ↦ rw (ge, same) (nx, f)
    | inr other ↦ rw (ge, other) (nx, Fresh-insert_child q c children ne f)
  ]
]

AllFresh : List ℕ → List Child → Type 0
AllFresh [] children = Unit
AllFresh (q ∷ qs) children = Fresh q children × AllFresh qs children

AllFresh-insert_child :
    (qs : List ℕ) (c : Child) (children : List Child)
    → NotIn c.pid qs
    → AllFresh qs children
    → AllFresh qs (insert_child c children)
unfolding AllFresh
AllFresh-insert_child [] c children n f = tt
AllFresh-insert_child (q ∷ qs) c children (ne, n) (fq, f) =
    (Fresh-insert_child q c children (λ e. ne (sym e)) fq, AllFresh-insert_child qs c children n f)

-- What the parent has after forks that all answered with a process.
abbrev pub Holds : ((ℕ → ℕ → Bool) → ℕ) → Forked → Type 0
Holds n (left parent children) =
    (parent ≡ true) × ((p : ℕ → ℕ → Bool) → tally (is_child p) children ≡ n p)
Holds n _ = ⊥

Holds-eq :
    {n m : (ℕ → ℕ → Bool) → ℕ} (f : Forked)
    → ((p : ℕ → ℕ → Bool) → n p ≡ m p)
    → Holds n f
    → Holds m f
Holds-eq (left parent children) e (up, h) = (up, λ p. h p ∙ e p)
Holds-eq (called i) e h = h
Holds-eq aborted e h = h
Holds-eq unforked e h = h

fork_all-parents :
    (pids : List ℕ) (i : ℕ) (rest : List Fork) (children : List Child)
    → Distinct pids
    → AllFresh pids children
    → Holds
        (λ p. expected_children p i pids + tally (is_child p) children)
        (fork_all (length pids) i (parents pids rest) children true)
unfolding fork_all AllFresh
fork_all-parents [] i rest children d f = (refl, λ p. omega arith)
fork_all-parents (pid ∷ pids) i rest children (n, d) (fq, f) =
    let c : Child = record { i = i; pid = pid; buf = [] } in
    Holds-eq _ (λ p. omega (arith, tally-insert_child p c children fq))
      (fork_all-parents pids (i + 1) rest (insert_child c children) d
        (AllFresh-insert_child pids c children n f))

AllFresh-nil : (qs : List ℕ) → AllFresh qs []
unfolding AllFresh
AllFresh-nil [] = tt
AllFresh-nil (q ∷ qs) = (tt, AllFresh-nil qs)

fork_all-called :
    (pids : List ℕ) (i k : ℕ) (rest : List Fork) (children : List Child) (parent : Bool)
    → k < length pids
    → fork_all (length pids) i (parents (take k pids) (in_child ∷ rest)) children parent
      ≡ called (i + k)
unfolding fork_all
fork_all-called [] i k rest children parent h = absurd (omega arith)
fork_all-called (pid ∷ pids) i zero rest children parent h = ap called (omega arith)
fork_all-called (pid ∷ pids) i (suc k) rest children parent h =
    fork_all-called pids (i + 1) k rest
      (insert_child (record { i = i; pid = pid; buf = [] }) children) true (omega arith)
    ∙ ap called (omega arith)

-- For argument lists whose forks all answer with distinct processes, ForkAll leaves the parent
-- with exactly one child for each, which has its process and the number of its list; the child of
-- fork k calls list k and no other.
pub fork_all_lem :
    (pid : ℕ) (pids : List ℕ) (rest : List Fork) (parent : Bool) (k : ℕ)
    → Distinct (pid ∷ pids)
    → k ≤ length pids
    → Holds
        (λ p. expected_children p 0 (pid ∷ pids))
        (fork_all (suc (length pids)) 0 (parents (pid ∷ pids) rest) [] parent)
      × (fork_all (suc (length pids)) 0 (parents (take k (pid ∷ pids)) (in_child ∷ rest)) [] parent
          ≡ called k)
unfolding fork_all insert_child
fork_all_lem pid pids rest parent k (n, d) h = (
  Holds-eq _ (λ p. omega arith)
      (fork_all-parents pids 1 rest (c ∷ []) d
        (AllFresh-insert_child pids c [] n (AllFresh-nil pids))),
  fork_all-called (pid ∷ pids) 0 k rest [] parent (omega arith) ∙ ap called (omega arith),
)
  where
    c : Child
    c = record { i = 0; pid = pid; buf = [] }
