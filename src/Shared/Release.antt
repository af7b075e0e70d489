-- ===== src/Shared/Release.antt =====
-- `unref` of Shared.h.
use libmandrews.Prelude.{
  ℕ, ◌+◌, ◌-◌, ◌%◌, ◌≤◌, ◌<◌, ◌≡◌, ◌≢◌, refl, sym, ap, ◌∙◌, Bool, true, false, Option, none, some,
  List, [], ◌∷◌, ◌++◌, arith, leb, ◌==◌, if◌then◌else◌, update, le-total, Returns, Bool-cases, inl,
  inr,
}
use libmandrews.Shared.{word, Ptr, Handle, Store, address, unref}
use libmandrews.Shared.Invariant.{
  points, sharers, allocated, Counts, pointers, Inv, Counts-drop, Counts-release, Counts-congr,
  Counts-obj,
}
use mathlib.Core.Path.{subst}

abbrev pub handle : Ptr → Ptr → ℕ → Handle
handle c w d = record { m_cnt = c; m_cow = w; m_dtr = d }

-- No other handle points at the same count.
abbrev pub sole : ℕ → (ℕ → Ptr) → Ptr → Bool
sole n P none = false
sole n P (some a) = sharers n P a == 1

abbrev pub log_of : Bool → Handle → List (ℕ × ℕ) → List (ℕ × ℕ)
log_of b x ran = if b then ran ++ (address x.m_cnt, x.m_dtr) ∷ [] else ran

-- What `unref` of handle `o`, which was `x`, does to the store.
pub record Unref (n o : ℕ) (x : Handle) (s t : Store) : Type 0 where
  pub counts : Counts n (update (pointers s) o none) t
  pub others : (j : ℕ) → o ≢ j → t.obj j ≡ s.obj j
  pub own : (y : Handle) × (t.obj o ≡ some y) × (y.m_dtr ≡ x.m_dtr)
  pub log : t.ran ≡ log_of (sole n (pointers s) x.m_cnt) x s.ran
  pub fixed : t.next ≡ s.next

-- A count that a handle holds is allocated and positive.
pub held-cnt :
    {n : ℕ} {P : ℕ → Ptr} {s : Store}
    → Counts n P s
    → (o a : ℕ) → o < n
    → P o ≡ some a
    → (s.cnt a ≡ some (sharers n P a)) × (1 ≤ sharers n P a)
held-cnt {n} {P} v o a h e = ground (arith, v.counted a, le-total (points a) n P o h)

abbrev pub dropped : ℕ → ℕ → ℕ → Store → Store
dropped o a d s = record s {
  cnt = update s.cnt a none;
  cow = update s.cow a none;
  obj = update s.obj o (some (handle none none d));
  ran = s.ran ++ (a, d) ∷ [];
}

module _ (s : Store) (o a d : ℕ) (e : s.obj o ≡ some (handle (some a) (some a) d)) where
  pub unref-dropped :
      {f : Bool} → s.cnt a ≡ some 1 → s.cow a ≡ some f → unref o s ≡ some (dropped o a d s)
  unfolding unref
  unref-dropped c w = rw (e, c, w) refl

  pub unref-released :
      {k : ℕ}
      → s.cnt a ≡ some k
      → 1 ≤ k
      → k ≢ 1
      → unref o s ≡ some (record s { cnt = update s.cnt a (some ((k + word - 1) % word)) })
  unfolding unref
  unref-released {k} c pos ne =
      let ok : leb 1 k ≡ true = ground arith in
      let many : (k == 1) ≡ false = ground arith in rw (e, c, ok, many) refl

pub allocated-some {ℓ} : {A : Type ℓ} (o : Option A) → allocated o ≡ true → (a : A) × (o ≡ some a)
allocated-some none e = cc
allocated-some (some a) e = (a, refl)

module _ {n : ℕ} {s : Store} (v : Inv n s) (o : ℕ) (h : o < n) (small : n < word) where
  unref-some :
      (a d : ℕ)
      → s.obj o ≡ some (handle (some a) (some a) d)
      → Returns (unref o s) (Unref n o (handle (some a) (some a) d) s)
  unref-some a d e =
      let held_e : pointers s o ≡ some a = ground arith in
      let (cnt_e, pos) = held-cnt v.counts o a h held_e in
      elim (Bool-cases (sharers n (pointers s) a == 1)) [
        | inl one ↦
            let cnt_one : s.cnt a ≡ some 1 = ground arith in
            let (f, cow_e) = allocated-some (s.cow a) (v.counts.paired a ∙ ap allocated cnt_e) in
            rw (unref-dropped s o a d e cnt_one cow_e) (record {
              counts = Counts-obj _ (Counts-drop v.counts o h a d held_e cnt_one);
              others = λ j ne. ground arith;
              own = (handle none none d, ground arith, refl);
              log = rw one refl;
              fixed = refl;
            })
        | inr many ↦
            let ne : sharers n (pointers s) a ≢ 1 = ground arith in
            rw (unref-released s o a d e cnt_e pos ne) (record {
              counts = Counts-release v.counts o h a _ held_e cnt_e ne small;
              others = λ j ne. refl;
              own = (handle (some a) (some a) d, e, refl);
              log = rw many refl;
              fixed = refl;
            })
      ]

  unref-none :
      (w : Ptr) (d : ℕ)
      → s.obj o ≡ some (handle none w d)
      → Returns (unref o s) (Unref n o (handle none w d) s)
  unfolding unref
  unref-none w d e = rw e (record {
    counts = Counts-congr v.counts (λ j. ground arith);
    others = λ j ne. refl;
    own = (handle none w d, e, refl);
    log = refl;
    fixed = refl;
  })

  unref-cases :
      (c w : Ptr) (d : ℕ)
      → s.obj o ≡ some (handle c w d)
      → ((a : ℕ) → c ≡ some a → w ≡ some a)
      → Returns (unref o s) (Unref n o (handle c w d) s)
  unref-cases none w d e pair = unref-none w d e
  unref-cases (some a) w d e pair =
      let same : w ≡ some a = pair a refl in
      subst (λ u. Returns (unref o s) (Unref n o (handle (some a) u d) s)) (sym same)
        (unref-some a d (e ∙ ap (λ u. some (handle (some a) u d)) same))

  -- `unref` lets go of the count without a fault, and calls the destructor just when the handle was
  -- the only one.
  pub unref_lem : (x : Handle) → s.obj o ≡ some x → Returns (unref o s) (Unref n o x s)
  unref_lem x e = unref-cases x.m_cnt x.m_cow x.m_dtr e (v.cows o x e)
