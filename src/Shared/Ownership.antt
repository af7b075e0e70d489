-- ===== src/Shared/Ownership.antt =====
-- Constructors and `write` of `Shared`.
use libmandrews.Prelude.{
  Returns-some, ℕ, ◌+◌, ◌≤◌, ◌<◌, ◌≡◌, ◌≢◌, refl, sym, ap, ◌∙◌, Bool, true, false, none, some,
  arith, leb, ◌==◌, update, Returns, Bool-cases, inl, inr, ◌>>=◌,
}
use mathlib.Core.Path.{subst}
use libmandrews.Shared.{
  word, Ptr, Handle, Store, unref, create, copy_assign, construct, copy_construct, write,
}
use libmandrews.Shared.Invariant.{
  sharers, allocated, Counts, pointers, Paired, Inv, Counts-create, Counts-clear, Counts-congr,
  Counts-obj, Paired-update,
}
use libmandrews.Shared.Release.{handle, held-cnt, allocated-some, unref_lem}
use libmandrews.Shared.Handles.{copy_assign_lem}

abbrev pub emptied : ℕ → Handle → Store → Store
emptied o x s = record s { obj = update s.obj o (some x) }

abbrev created : ℕ → ℕ → Store → Store
created o d s = record s {
  cnt = update s.cnt s.next (some 1);
  cow = update s.cow s.next (some false);
  next = s.next + 1;
  obj = update s.obj o (some (handle (some s.next) (some s.next) d));
}

-- Handle `o` is the only one of its count, which is not marked for copying.
pub record Exclusive (n o d : ℕ) (s t : Store) : Type 0 where
  pub inv : Inv n t
  pub own :
      (b : ℕ) × (t.obj o ≡ some (handle (some b) (some b) d))
      × (t.cnt b ≡ some 1)
      × (t.cow b ≡ some false)
  pub others : (j : ℕ) → o ≢ j → t.obj j ≡ s.obj j
  pub log : t.ran ≡ s.ran

module _ {n : ℕ} (o : ℕ) (h : o < n) where
  -- A handle that holds nothing, put where no handle was alive.
  pub emptied-Inv :
      {s : Store} (w : Ptr) (d : ℕ)
      → s.obj o ≡ none
      → Inv n s
      → Inv n (emptied o (handle none w d) s)
  emptied-Inv {s} w d e v = record {
    counts = Counts-congr (Counts-obj _ v.counts) (λ j. ground arith);
    cows = Paired-update s.obj o (handle none w d) (λ a z. cc) (λ j z oj jz. v.cows j z jz);
  }

  create-eq : (t : Store) (y : Handle) → t.obj o ≡ some y → create o t ≡ some (created o y.m_dtr t)
  unfolding create
  create-eq t y e = rw e refl

  -- `create`, on a handle of `t` whose pointers count for nothing, where `t` came from `s`.
  create-Exclusive :
      {P : ℕ → Ptr} (s t : Store) (y : Handle)
      → Counts n P t
      → P o ≡ none
      → ((j : ℕ) → o ≢ j → P j ≡ pointers s j)
      → t.obj o ≡ some y
      → ((j : ℕ) → o ≢ j → t.obj j ≡ s.obj j)
      → t.ran ≡ s.ran
      → ((j : ℕ) (x : Handle) → o ≢ j → s.obj j ≡ some x → Paired x)
      → Returns (create o t) (Exclusive n o y.m_dtr s)
  create-Exclusive s t y v e agree now others log pairs = rw (create-eq t y now) (record {
    inv = record {
      counts =
          Counts-congr (Counts-obj _ (Counts-create v o h e))
            (λ j. ground (arith, agree j, others j));
      cows =
          Paired-update t.obj o (handle (some t.next) (some t.next) y.m_dtr) (λ a q. q)
            (λ j z oj jz. pairs j z oj (sym (others j oj) ∙ jz));
    };
    own = (t.next, ground arith, ground arith, ground arith);
    others = λ j oj. ground (arith, others j oj);
    log = log;
  })

  -- The constructor makes a handle that is the only one of a new count; no destructor is called.
  pub construct_lem :
      {s : Store} (d : ℕ) (junk : Ptr)
      → Inv n s
      → s.obj o ≡ none
      → Returns (construct o d junk s) (Exclusive n o d s)
  unfolding construct
  construct_lem {s} d junk v e =
      create-Exclusive {P = pointers s} s (emptied o (handle none junk d) s) (handle none junk d)
        (Counts-obj _ v.counts) (ground arith) (λ j oj. refl) (ground arith) (λ j oj. ground arith)
        refl (λ j x oj. v.cows j x)

  -- In a store of fewer than 2^64 handles with the invariant, copying a handle that is not null
  -- into a place with no live handle returns a store with the invariant, the copy equal to the
  -- original and no other handle changed, and calls no destructor.
  pub copy_construct_lem :
      {s : Store} (small : n < word) (junk : Ptr) (p : ℕ) (y : Handle) (a : ℕ)
      → Inv n s
      → s.obj o ≡ none
      → p < n
      → s.obj p ≡ some y
      → y.m_cnt ≡ some a
      → Returns (copy_construct o p junk s) (λ t.
        Inv n t × (t.obj o ≡ some y) × ((j : ℕ) → o ≢ j → t.obj j ≡ s.obj j) × (t.ran ≡ s.ran))
  unfolding copy_construct
  copy_construct_lem {s} small junk p y a v e k q yc =
      let ne : o ≢ p = ground arith in
      let x = handle none junk y.m_dtr in
      let (t, te, r) = Returns-some (copy_assign o p (emptied o x s)) (
        copy_assign_lem small (emptied-Inv junk y.m_dtr e v) o h p k ne x (ground arith) y a
          (ground arith) yc) in
      rw q (rw te (r.inv, r.now, λ j oj. r.others j oj ∙ (ground arith), r.log))

  module _ (s : Store) (a d : ℕ) (e : s.obj o ≡ some (handle (some a) (some a) d)) where
    pub write-sole :
        s.cnt a ≡ some 1
        → {f : Bool} → s.cow a ≡ some f
        → write o s ≡ some (record s { cow = update s.cow a (some false) })
    unfolding write
    write-sole c w = let self : (a == a) ≡ true = ground arith in rw (e, c, w, self) refl

    write-shared :
        {k : ℕ}
        → s.cnt a ≡ some k
        → 1 ≤ k
        → k ≢ 1
        → s.cow a ≡ some true
        → write o s ≡ (unref o s >>= create o)
    unfolding write
    write-shared {k} c pos ne w =
        let ok : leb 1 k ≡ true = ground arith in
        let many : (k == 1) ≡ false = ground arith in rw (e, c, ok, many, w) refl

    -- In a store of fewer than 2^64 handles with the invariant, write on a handle that is not
    -- null returns, and the handle is then the only one of its count, not marked for copying; no
    -- other handle changes and no destructor is called.
    pub write-Exclusive : n < word → Inv n s → Returns (write o s) (Exclusive n o d s)
    write-Exclusive small v =
        let held_e : pointers s o ≡ some a = ground arith in
        let (cnt_e, pos) = held-cnt v.counts o a h held_e in
        let (f, cow_e) = allocated-some (s.cow a) (v.counts.paired a ∙ ap allocated cnt_e) in
        elim (Bool-cases (sharers n (pointers s) a == 1)) [
          | inl one ↦
              let cnt_one : s.cnt a ≡ some 1 = ground arith in
              rw (write-sole cnt_one cow_e) (record {
                inv = record { counts = Counts-clear v.counts o h a cnt_one; cows = v.cows };
                own = (a, e, cnt_one, ground arith);
                others = λ j oj. refl;
                log = refl;
              })
          | inr many ↦
              let ne : sharers n (pointers s) a ≢ 1 = ground arith in
              let (t, te, u) =
                Returns-some (unref o s) (unref_lem v o h small (handle (some a) (some a) d) e) in
              let (y, now, same_d) = u.own in
              rw (write-shared cnt_e pos ne (v.counts.flagged a (omega arith)), te)
                (subst (λ d'. Returns (create o t) (Exclusive n o d' s)) same_d
                  (create-Exclusive s t y u.counts (ground arith) (λ j oj. ground arith) now
                    u.others (u.log ∙ (rw many refl)) (λ j x oj. v.cows j x)))
        ]
