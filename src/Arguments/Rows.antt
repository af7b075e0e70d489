-- ===== src/Arguments/Rows.antt =====
-- The rows of `Arguments`.
use mathlib.Core.Path.{fun_ext, subst}
use libmandrews.Prelude.{
  ℕ, zero, suc, ◌≤◌, ◌<◌, ◌≡◌, refl, ap, sym, ◌∙◌, none, some, List, [], ◌∷◌, ◌++◌, append_assoc,
  append-nil, arith, length, length-append, get_elem?, Returns, Returns-some, ◌>>=◌, dec_lt,
}
use libmandrews.Arguments.{add, call_helper, call, num, blank, add_all}

get-append_left {ℓ} :
    {A : Type ℓ} (xs ys : List A) (i : ℕ) → i < length xs → get_elem? (xs ++ ys) i ≡ get_elem? xs i
get-append_left [] ys i h = absurd (omega arith)
get-append_left (x ∷ xs) ys zero h = refl
get-append_left (x ∷ xs) ys (suc i) h = get-append_left xs ys i (omega arith)

get-append_end {ℓ} :
    {A : Type ℓ} (xs ys : List A) (a : A) (i : ℕ)
    → i ≡ length xs
    → get_elem? (xs ++ a ∷ ys) i ≡ some a
get-append_end [] ys a zero e = refl
get-append_end [] ys a (suc i) e = absurd (omega arith)
get-append_end (x ∷ xs) ys a zero e = absurd (omega arith)
get-append_end (x ∷ xs) ys a (suc i) e = get-append_end xs ys a i (omega arith)

get-beyond {ℓ} : {A : Type ℓ} (xs : List A) (i : ℕ) → length xs ≤ i → get_elem? xs i ≡ none
get-beyond [] i h = refl
get-beyond (x ∷ xs) zero h = absurd (omega arith)
get-beyond (x ∷ xs) (suc i) h = get-beyond xs i (omega arith)

module _ {V : Type 0} where
  -- Every column has `n` values.
  abbrev pub Height : ℕ → List (List V) → Type 0
  Height n [] = Unit
  Height n (m ∷ ms) = (length m ≡ n) × Height n ms

  -- What `Add` of a row does to columns of height `n`.
  record Added (n : ℕ) (row : List V) (ms ms' : List (List V)) : Type 0 where
    height : Height (suc n) ms'
    width : length ms' ≡ length ms
    old : (i : ℕ) (args : List V) → i < n → call_helper i ms' args ≡ call_helper i ms args
    new : (args : List V) → call_helper n ms' args ≡ some (args ++ row)

  add-Added :
      (n : ℕ) (ms : List (List V)) (row : List V)
      → Height n ms
      → length row ≡ length ms
      → Returns (add ms row) (Added n row ms)
  unfolding add call_helper
  add-Added n [] [] h e = record {
    height = tt;
    width = refl;
    old = λ i args q. refl;
    new = λ args. ap some (sym (append-nil args));
  }
  add-Added n [] (a ∷ row) h e = absurd (omega arith)
  add-Added n (m ∷ ms) [] h e = absurd (omega arith)
  add-Added n (m ∷ ms) (a ∷ row) (tall, h) e =
      let (ms', q, v) = Returns-some (add ms row) (add-Added n ms row h (omega arith)) in
      rw q (record {
        height = (omega (arith, length-append m (a ∷ []), tall), v.height);
        width = omega (arith, v.width);
        old = λ i args k.
            rw (get-append_left m (a ∷ []) i (omega arith))
              (ap (λ f. get_elem? m i >>= f) (fun_ext (λ b. v.old i (args ++ b ∷ []) k)));
        new = λ args.
            rw (get-append_end m [] a n (omega arith))
              (v.new (args ++ a ∷ []) ∙ ap some (append_assoc args (a ∷ []) row));
      })

  -- Columns that hold `rows`, which have `k` values each.
  record Table (k : ℕ) (rows ms : List (List V)) : Type 0 where
    height : Height (length rows) ms
    width : length ms ≡ k
    found : (i : ℕ) → i < length rows → call i ms ≡ get_elem? rows i

  add-Table :
      {k : ℕ} (rows ms : List (List V)) (row : List V)
      → Table k rows ms
      → length row ≡ k
      → Returns (add ms row) (Table k (rows ++ row ∷ []))
  unfolding call
  add-Table {k} rows ms row t e =
      let (ms', q, v) =
        Returns-some (add ms row) (add-Added (length rows) ms row t.height (e ∙ sym t.width)) in
      let taller : suc (length rows) ≡ length (rows ++ row ∷ []) =
        omega (arith, length-append rows (row ∷ [])) in
      rw q (record {
        height = subst (λ n. Height n ms') taller v.height;
        width = v.width ∙ t.width;
        found = λ i h. elim (dec_lt i (length rows)) [
          | yes before ↦
              v.old i [] before ∙ t.found i before ∙ sym (get-append_left rows (row ∷ []) i before)
          | no last ↦
              let at : i ≡ length rows = omega (arith, taller) in
              subst (λ j. call_helper j ms' [] ≡ some row) (sym at) (v.new [])
              ∙ sym (get-append_end rows [] row i at)
        ];
      })

  abbrev pub Wide : ℕ → List (List V) → Type 0
  Wide k [] = Unit
  Wide k (row ∷ rows) = (length row ≡ k) × Wide k rows

  add_all-Table :
      {k : ℕ} (done rows ms : List (List V))
      → Table k done ms
      → Wide k rows
      → Returns (add_all ms rows) (Table k (done ++ rows))
  unfolding add_all
  add_all-Table {k} done [] ms t w = subst (λ l. Table k l ms) (sym (append-nil done)) t
  add_all-Table {k} done (row ∷ rows) ms t (e, w) =
      let (ms', q, t') = Returns-some (add ms row) (add-Table done ms row t e) in
      rw q (
        subst (λ l. Returns (add_all ms' rows) (Table k l)) (append_assoc done (row ∷ []) rows)
          (add_all-Table (done ++ row ∷ []) rows ms' t' w))

blank-Height : (V : Type 0) (k : ℕ) → Height {V = V} 0 (blank k)
blank-Height V zero = tt
blank-Height V (suc k) = (refl, blank-Height V k)

length-blank : (V : Type 0) (k : ℕ) → length (blank {V = V} k) ≡ k
length-blank V zero = refl
length-blank V (suc k) = ap suc (length-blank V k)

module _ {V : Type 0} where
  blank-Table : (k : ℕ) → Table {V = V} k [] (blank k)
  blank-Table k = record {
    height = blank-Height V k;
    width = length-blank V k;
    found = λ i h. absurd (omega arith);
  }

  call-Table :
      {k : ℕ} (rows ms : List (List V))
      → 0 < k
      → Table k rows ms
      → ((i : ℕ) → call i ms ≡ get_elem? rows i) × (num ms ≡ length rows)
  unfolding call call_helper num
  call-Table rows [] pos t = absurd (omega (arith, t.width))
  call-Table rows (m ∷ ms) pos t = (
    λ i. elim (dec_lt i (length rows)) [
      | yes within ↦ t.found i within
      | no beyond ↦
          let out : get_elem? m i ≡ none = get-beyond m i (omega (arith, t.height.0)) in
          let out' : get_elem? rows i ≡ none = get-beyond rows i (omega arith) in
          rw (out, out') refl
    ],
    t.height.0,
  )

  -- For a test with at least one parameter and any argument lists of as many values, adding the
  -- lists one after another succeeds; then calling with number i gives the function exactly list
  -- i, or is out of range as i is, and Num is the number of lists.
  pub call-add_all :
      (k : ℕ) (rows : List (List V))
      → 0 < k
      → Wide k rows
      → Returns
          (add_all (blank k) rows)
          (λ ms. ((i : ℕ) → call i ms ≡ get_elem? rows i) × (num ms ≡ length rows))
  call-add_all k rows pos w =
      let (ms, q, t) =
        Returns-some (add_all (blank k) rows) (add_all-Table [] rows (blank k) (blank-Table k) w) in
      rw q (call-Table rows ms pos t)
