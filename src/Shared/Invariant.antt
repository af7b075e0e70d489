-- ===== src/Shared/Invariant.antt =====
-- The invariant of the handles and their counts. `P` says which count each handle holds on to.
use mathlib.Core.Path.{fun_ext, subst}
use libmandrews.Prelude.{
  ℕ, zero, suc, ◌+◌, ◌-◌, ◌%◌, ◌≤◌, ◌<◌, ◌≡◌, ◌≢◌, ap, ◌∙◌, Bool, true, false, Option, none, some,
  [], ◌∷◌, ◌++◌, arith, ltb, ◌==◌, Bool-cases, inl, inr, update, total, total-update, total-le,
  weight, tally, tally-append,
}
use libmandrews.Shared.{word, Ptr, Handle, Store}

abbrev pub points : ℕ → Ptr → ℕ
points b none = 0
points b (some a) = weight (a == b)

-- how many of the first `n` handles point at count `b`
abbrev pub sharers : ℕ → (ℕ → Ptr) → ℕ → ℕ
sharers n P b = total (points b) n P

abbrev pub owners : ℕ → Option ℕ
owners zero = none
owners (suc k) = some (suc k)

abbrev pub allocated {ℓ} : {A : Type ℓ} → Option A → Bool
allocated none = false
allocated (some _) = true

-- A count is allocated while a handle points at it, and holds the number of such handles; the flag is
-- set whenever there are two; the destructor was called once for every count that has been released.
pub record Counts (n : ℕ) (P : ℕ → Ptr) (s : Store) : Type 0 where
  pub counted : (b : ℕ) → s.cnt b ≡ owners (sharers n P b)
  pub paired : (b : ℕ) → allocated (s.cow b) ≡ allocated (s.cnt b)
  pub flagged : (b : ℕ) → 2 ≤ sharers n P b → s.cow b ≡ some true
  pub fresh : (b : ℕ) → s.next ≤ b → sharers n P b ≡ 0
  pub once :
      (b : ℕ) → tally (λ e. e.0 == b) s.ran + weight (allocated (s.cnt b)) ≡ weight (ltb b s.next)

abbrev pub held : Option Handle → Ptr
held none = none
held (some x) = x.m_cnt

abbrev pub pointers : Store → ℕ → Ptr
pointers s o = held (s.obj o)

abbrev pub Paired : Handle → Type 0
Paired x = (a : ℕ) → x.m_cnt ≡ some a → x.m_cow ≡ some a

pub record Inv (n : ℕ) (s : Store) : Type 0 where
  pub counts : Counts n (pointers s) s
  pub cows : (o : ℕ) (x : Handle) → s.obj o ≡ some x → Paired x

pub points-le : (b : ℕ) (p : Ptr) → points b p ≤ 1
points-le b p = ground arith

-- Counting the handles after one of them has been redirected.
pub sharers-update :
    (n : ℕ) (P : ℕ → Ptr) (o : ℕ) (p : Ptr) (b : ℕ)
    → o < n
    → sharers n (update P o p) b + points b (P o) ≡ sharers n P b + points b p
sharers-update n P o p b h = total-update (points b) n P o p h

module _ {n : ℕ} {P : ℕ → Ptr} {s : Store} (v : Counts n P s) (o : ℕ) (h : o < n) where
  -- The last handle lets go.
  pub Counts-drop :
      (a d : ℕ)
      → P o ≡ some a
      → s.cnt a ≡ some 1
      → Counts n (update P o none) (record s {
        cnt = update s.cnt a none;
        cow = update s.cow a none;
        ran = s.ran ++ (a, d) ∷ [];
      })
  Counts-drop a d e one = record {
    counted = λ b. ground (arith, v.counted b, sharers-update n P o none b h);
    paired = λ b. ground (arith, v.paired b);
    flagged = λ b q. ground (arith, v.counted a, v.flagged b, sharers-update n P o none b h);
    fresh = λ b q. ground (arith, v.fresh b, sharers-update n P o none b h);
    once = λ b. ground (arith, v.once b, tally-append (λ e. e.0 == b) s.ran ((a, d) ∷ []));
  }

  -- One of several lets go.
  pub Counts-release :
      (a k : ℕ)
      → P o ≡ some a
      → s.cnt a ≡ some k
      → k ≢ 1
      → n < word
      → Counts n
          (update P o none)
          (record s { cnt = update s.cnt a (some ((k + word - 1) % word)) })
  Counts-release a k e many ne small = record {
    counted = λ b.
        ground (
          arith,
          v.counted b,
          sharers-update n P o none b h,
          total-le (points b) (points-le b) n P,
        );
    paired = λ b. ground (arith, v.paired b);
    flagged = λ b q. ground (arith, v.flagged b, sharers-update n P o none b h);
    fresh = λ b q. ground (arith, v.fresh b, sharers-update n P o none b h);
    once = λ b. ground (arith, v.once b);
  }

  -- A handle that holds nothing joins the others, and sets the flag.
  pub Counts-acquire :
      (a k : ℕ)
      → P o ≡ none
      → s.cnt a ≡ some k
      → n < word
      → Counts n (update P o (some a)) (record s {
        cnt = update s.cnt a (some ((k + 1) % word));
        cow = update s.cow a (some true);
      })
  Counts-acquire a k e many small = record {
    counted = λ b. ground (
      arith,
      v.counted b,
      sharers-update n P o (some a) b h,
      total-le (points b) (points-le b) n (update P o (some a)),
    );
    paired = λ b. ground (arith, v.paired b);
    flagged = λ b q. ground (arith, v.flagged b, sharers-update n P o (some a) b h);
    fresh = λ b q. ground (arith, v.fresh b, v.counted b, sharers-update n P o (some a) b h);
    once = λ b. ground (arith, v.once b);
  }

  -- A handle that holds nothing gets a count of its own.
  pub Counts-create :
      P o ≡ none
      → Counts n (update P o (some s.next)) (record s {
        cnt = update s.cnt s.next (some 1);
        cow = update s.cow s.next (some false);
        next = s.next + 1;
      })
  Counts-create e = record {
    counted = λ b. ground (arith, v.counted b, v.fresh b, sharers-update n P o (some s.next) b h);
    paired = λ b. ground (arith, v.paired b);
    flagged = λ b q. ground (arith, v.fresh b, v.flagged b, sharers-update n P o (some s.next) b h);
    fresh = λ b q. ground (arith, v.fresh b, sharers-update n P o (some s.next) b h);
    once = λ b. ground (arith, v.once b, v.counted b, v.fresh b);
  }

  -- The sole handle clears the flag.
  pub Counts-clear :
      (a : ℕ) → s.cnt a ≡ some 1 → Counts n P (record s { cow = update s.cow a (some false) })
  Counts-clear a one = record {
    counted = v.counted;
    paired = λ b. ground (arith, v.paired b);
    flagged = λ b q. ground (arith, v.flagged b, v.counted b);
    fresh = v.fresh;
    once = v.once;
  }

-- The same family of pointers, written otherwise.
pub Counts-congr :
    {n : ℕ} {P Q : ℕ → Ptr} {s : Store} → Counts n P s → ((o : ℕ) → P o ≡ Q o) → Counts n Q s
Counts-congr {n} {s} v e = subst (λ R. Counts n R s) (fun_ext e) v

-- The counts do not depend on the handles themselves.
pub Counts-obj :
    {n : ℕ} {P : ℕ → Ptr} {s : Store} (obj : ℕ → Option Handle)
    → Counts n P s
    → Counts n P (record s { obj = obj })
Counts-obj obj v = record {
  counted = v.counted;
  paired = v.paired;
  flagged = v.flagged;
  fresh = v.fresh;
  once = v.once;
}

-- Redirecting handle `o` to `y` keeps each handle's two pointers together.
pub Paired-update :
    (obj : ℕ → Option Handle) (o : ℕ) (y : Handle)
    → Paired y
    → ((j : ℕ) (x : Handle) → o ≢ j → obj j ≡ some x → Paired x)
    → (j : ℕ) (z : Handle) → update obj o (some y) j ≡ some z
    → Paired z
Paired-update obj o y pair rest j z e a za = elim (Bool-cases (o == j)) [
  | inl here ↦ ground (arith, pair a)
  | inr there ↦ rest j z (ground arith) (ground arith) a za
]

-- A pointer handed from handle `p` to handle `o`, which held nothing.
pub Counts-hand_over :
    {n : ℕ} {P : ℕ → Ptr} {s : Store} (o p : ℕ)
    → o < n
    → p < n
    → o ≢ p
    → P o ≡ none
    → Counts n P s
    → Counts n (update (update P o (P p)) p none) s
Counts-hand_over {n} {P} o p h k ne e v = record {
  counted = λ b. v.counted b ∙ ap owners (same b);
  paired = v.paired;
  flagged = λ b q. v.flagged b (omega (arith, same b));
  fresh = λ b q. omega (arith, v.fresh b q, same b);
  once = v.once;
}
  where
    same : (b : ℕ) → sharers n P b ≡ sharers n (update (update P o (P p)) p none) b
    same b =
        ground
          (arith, sharers-update n P o (P p) b h, sharers-update n (update P o (P p)) p none b k)
