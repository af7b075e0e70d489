-- ===== src/Shared/Handles.antt =====
-- Assignment and destruction of handles of `Shared` that are alive.
use libmandrews.Prelude.{
  Returns-some, ℕ, ◌+◌, ◌%◌, ◌<◌, ◌≡◌, ◌≢◌, refl, sym, ap, ◌∙◌, Bool, true, none, some, arith,
  update, Returns,
}
use libmandrews.Shared.{word, Handle, Store, unref, copy_assign, move_assign, destruct}
use libmandrews.Shared.Invariant.{
  allocated, pointers, Inv, Counts-acquire, Counts-congr, Counts-obj, Counts-hand_over,
  Paired-update,
}
use libmandrews.Shared.Release.{handle, sole, log_of, held-cnt, allocated-some, unref_lem}

-- After an assignment to handle `o`, which was `x`: it is now `y`.
pub record Assigned (n o : ℕ) (x y : Handle) (s t : Store) : Type 0 where
  pub inv : Inv n t
  pub now : t.obj o ≡ some y
  pub others : (j : ℕ) → o ≢ j → t.obj j ≡ s.obj j
  pub log : t.ran ≡ log_of (sole n (pointers s) x.m_cnt) x s.ran

abbrev copied : ℕ → Store → Handle → ℕ → ℕ → Store
copied o t y a c = record t {
  cnt = update t.cnt a (some ((c + 1) % word));
  cow = update t.cow a (some true);
  obj = update t.obj o (some y);
}

abbrev moved : ℕ → ℕ → Store → Handle → Store
moved o p t y = record t {
  obj = update (update t.obj o (some y)) p (some (handle none none y.m_dtr));
}

module _ {n : ℕ} (small : n < word) {s : Store} (v : Inv n s) (o : ℕ) (h : o < n) where
  module _ (p : ℕ) (k : p < n) (ne : o ≢ p) (x : Handle) (e : s.obj o ≡ some x) where
    copy_assign-eq :
        (y : Handle) (a c : ℕ) (f : Bool) (t : Store)
        → unref o s ≡ some t
        → t.obj p ≡ some y
        → y.m_cnt ≡ some a
        → y.m_cow ≡ some a
        → t.cnt a ≡ some c
        → t.cow a ≡ some f
        → copy_assign o p s ≡ some (copied o t y a c)
    unfolding copy_assign
    copy_assign-eq y a c f t u q yc yw tc tw = rw (u, q, yc, yw) (rw (tc, tw) refl)

    -- In a store of fewer than 2^64 handles with the invariant, copy assignment between two
    -- distinct live handles, the right one not null, returns a store with the invariant in which
    -- the left one equals the right one and no other handle has changed; the destructor of the
    -- left one is called just when it was the only handle of its count.
    pub copy_assign_lem :
        (y : Handle) (a : ℕ)
        → s.obj p ≡ some y
        → y.m_cnt ≡ some a
        → Returns (copy_assign o p s) (Assigned n o x y s)
    copy_assign_lem y a q yc =
        let (t, ue, u) = Returns-some (unref o s) (unref_lem v o h small x e) in
        let tp : t.obj p ≡ some y = u.others p ne ∙ q in
        let at_p : update (pointers s) o none p ≡ some a = ground arith in
        let (tc, pos) = held-cnt u.counts p a k at_p in
        let (f, tw) = allocated-some (t.cow a) (u.counts.paired a ∙ ap allocated tc) in
        rw (copy_assign-eq y a _ f t ue tp yc (v.cows p y q a yc) tc tw) (record {
          inv = record {
            counts =
                Counts-congr
                  (Counts-obj _ (Counts-acquire u.counts o h a _ (ground arith) tc small))
                  (λ j. ground (arith, u.others j));
            cows =
                Paired-update t.obj o y (v.cows p y q)
                  (λ j z oj jz. v.cows j z (sym (u.others j oj) ∙ jz));
          };
          now = ground arith;
          others = λ j oj. ground (arith, u.others j oj);
          log = u.log;
        })

    move_assign-eq :
        (y : Handle) (t : Store)
        → unref o s ≡ some t
        → t.obj p ≡ some y
        → move_assign o p s ≡ some (moved o p t y)
    unfolding move_assign
    move_assign-eq y t u q = rw (u, q) refl

    -- In a store of fewer than 2^64 handles with the invariant, move assignment between two
    -- distinct live handles returns a store with the invariant in which the left one has the
    -- pointers of the right one, the right one is null and no other handle has changed; the
    -- destructor of the left one is called just when it was the only handle of its count.
    pub move_assign_lem :
        (y : Handle)
        → s.obj p ≡ some y
        → Returns (move_assign o p s) (λ t.
          Inv n t
          × (t.obj o ≡ some y)
          × (t.obj p ≡ some (handle none none y.m_dtr))
          × ((j : ℕ) → o ≢ j → p ≢ j → t.obj j ≡ s.obj j)
          × (t.ran ≡ log_of (sole n (pointers s) x.m_cnt) x s.ran))
    move_assign_lem y q =
        let (t, ue, u) = Returns-some (unref o s) (unref_lem v o h small x e) in
        let tp : t.obj p ≡ some y = u.others p ne ∙ q in
        rw (move_assign-eq y t ue tp) (
          record {
            counts =
                Counts-congr (Counts-obj _ (Counts-hand_over o p h k ne (ground arith) u.counts))
                  (λ j. ground (arith, u.others j, ne));
            cows =
                Paired-update (update t.obj o (some y)) p (handle none none y.m_dtr) (λ a z. cc)
                  (λ i z pi.
                    Paired-update t.obj o y (v.cows p y q)
                      (λ j w oj jw. v.cows j w (sym (u.others j oj) ∙ jw)) i z);
          },
          ground arith,
          ground arith,
          λ j oj pj. ground (arith, u.others j oj),
          u.log,
        )

  -- In a store of fewer than 2^64 handles with the invariant, destroying a live handle returns a
  -- store with the invariant without it, with no other handle changed; its destructor is called
  -- just when it was the only handle of its count.
  pub destruct_lem :
      (x : Handle)
      → s.obj o ≡ some x
      → Returns (destruct o s) (λ t.
        Inv n t
        × (t.obj o ≡ none)
        × ((j : ℕ) → o ≢ j → t.obj j ≡ s.obj j)
        × (t.ran ≡ log_of (sole n (pointers s) x.m_cnt) x s.ran))
  unfolding destruct
  destruct_lem x e =
      let (t, ue, u) = Returns-some (unref o s) (unref_lem v o h small x e) in
      rw ue (
        record {
          counts = Counts-congr (Counts-obj _ u.counts) (λ j. ground (arith, u.others j));
          cows =
              λ j z ez a za. ground (arith, u.others j, v.cows j z (ground (arith, u.others j)) a);
        },
        ground arith,
        λ j oj. ground (arith, u.others j oj),
        u.log,
      )
