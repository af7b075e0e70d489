-- ===== src/Registry/Order.antt =====
-- The order of the map of the tests, which is that of `RunAll`.
use libmandrews.Prelude.{
  ◌≡◌, refl, sym, ap, ◌∙◌, true, false, none, some, List, [], ◌∷◌, arith, if◌then◌else◌, Bool-cases,
  inl, inr,
}
use mathlib.Core.Path.{subst}
use libmandrews.Registry.{Name, same, before, register, find}
use libmandrews.Registry.Names.{
  same_refl, eq_of_same, same_false_sym, before_trans, before_total, before-same, find-register,
}
use libmandrews.Registry.Calls.{register_all}

module _ {T : Type 0} where
  -- All names of the list come after this one.
  abbrev After : Name → List (Name × T) → Type 0
  After name [] = Unit
  After name ((key, test) ∷ tests) = (before name key ≡ true) × After name tests

  abbrev pub IsOrdered : List (Name × T) → Type 0
  IsOrdered [] = Unit
  IsOrdered ((key, test) ∷ tests) = After key tests × IsOrdered tests

  After-trans :
      (a b : Name) (tests : List (Name × T)) → before a b ≡ true → After b tests → After a tests
  After-trans a b [] p h = tt
  After-trans a b ((key, test) ∷ tests) p (q, h) =
      (before_trans a b key p q, After-trans a b tests p h)

  find-After : (name : Name) (tests : List (Name × T)) → After name tests → find name tests ≡ none
  unfolding find
  find-After name [] h = refl
  find-After name ((key, test) ∷ tests) (p, h) =
      rw (before-same name key p) (find-After name tests h)

  register-After :
      (a name : Name) (test : T) (tests : List (Name × T))
      → before a name ≡ true
      → After a tests
      → After a (register name test tests)
  unfolding register
  register-After a name test [] p h = (p, tt)
  register-After a name test ((key, old) ∷ tests) p (q, h) =
      ground (arith, register-After a name test tests)

  register-IsOrdered :
      (name : Name) (test : T) (tests : List (Name × T))
      → IsOrdered tests
      → IsOrdered (register name test tests)
  unfolding register
  register-IsOrdered name test [] h = (tt, tt)
  register-IsOrdered name test ((key, old) ∷ tests) (a, o) = elim (Bool-cases (before name key)) [
    | inl first ↦ rw first ((first, After-trans name key tests first a), (a, o))
    | inr later ↦ elim (Bool-cases (same name key)) [
      | inl here ↦ rw (later, here) (a, o)
      | inr other ↦
          rw (later, other)
            (
              register-After key name test tests (before_total name key later other) a,
              register-IsOrdered name test tests o,
            )
    ]
  ]

  find-head : (k : Name) (s : T) (xs : List (Name × T)) → find k ((k, s) ∷ xs) ≡ some s
  unfolding find
  find-head k s xs = ap (λ e. if e then some s else find k xs) (same_refl k)

  find-other :
      (n k : Name) (s : T) (xs : List (Name × T))
      → same n k ≡ false
      → find n ((k, s) ∷ xs) ≡ find n xs
  unfolding find
  find-other n k s xs e = ap (λ e. if e then some s else find n xs) e

  -- A map whose first name is earlier has a lookup that another has not.
  earlier_differ :
      (a b : Name) (s t : T) (xs ys : List (Name × T))
      → before a b ≡ true
      → After b ys
      → find a ((a, s) ∷ xs) ≡ find a ((b, t) ∷ ys)
      → ⊥
  earlier_differ a b s t xs ys p h e =
      let impossible : some s ≡ none =
        sym (find-head a s xs) ∙ e ∙ find-After a ((b, t) ∷ ys) (p, After-trans a b ys p h) in
      cc

  tails_agree :
      (k : Name) (s t : T) (xs ys : List (Name × T))
      → After k xs
      → After k ys
      → ((n : Name) → find n ((k, s) ∷ xs) ≡ find n ((k, t) ∷ ys))
      → (n : Name) → find n xs ≡ find n ys
  tails_agree k s t xs ys ax by h n = elim (Bool-cases (same n k)) [
    | inl e ↦
        let at : k ≡ n = sym (eq_of_same n k e) in
        find-After n xs (subst (λ m. After m xs) at ax)
        ∙ sym (find-After n ys (subst (λ m. After m ys) at by))
    | inr e ↦ sym (find-other n k s xs e) ∙ h n ∙ find-other n k t ys e
  ]

  -- In order, the map is what its lookups are.
  ordered_ext :
      (xs ys : List (Name × T))
      → IsOrdered xs
      → IsOrdered ys
      → ((k : Name) → find k xs ≡ find k ys)
      → xs ≡ ys
  unfolding find
  ordered_ext [] [] ox oy h = refl
  ordered_ext [] ((b, t) ∷ ys) ox oy h =
      let impossible : none ≡ some t = h b ∙ find-head b t ys in cc
  ordered_ext ((a, s) ∷ xs) [] ox oy h =
      let impossible : some s ≡ none = sym (find-head a s xs) ∙ h a in cc
  ordered_ext ((a, s) ∷ xs) ((b, t) ∷ ys) (ax, ox) (by, oy) h = elim (Bool-cases (before a b)) [
    | inl first ↦ absurd (earlier_differ a b s t xs ys first by (h a))
    | inr later ↦ elim (Bool-cases (same a b)) [
      | inl here ↦
          let e : a ≡ b = eq_of_same a b here in
          let h2 = subst (λ k. (n : Name) → find n ((k, s) ∷ xs) ≡ find n ((b, t) ∷ ys)) e h in
          let values : some s ≡ some t = sym (find-head b s xs) ∙ h2 b ∙ find-head b t ys in
          let tails : xs ≡ ys =
            ordered_ext xs ys ox oy
              (tails_agree b s t xs ys (subst (λ k. After k xs) e ax) by h2) in
          cc
      | inr other ↦
          absurd (earlier_differ b a t s ys xs (before_total a b later other) ax (sym (h b)))
    ]
  ]

  register_comm :
      (j k : Name) (s t : T) (tests : List (Name × T))
      → same j k ≡ false
      → IsOrdered tests
      → register j s (register k t tests) ≡ register k t (register j s tests)
  register_comm j k s t tests e o =
      ordered_ext _ _ (register-IsOrdered j s _ (register-IsOrdered k t tests o))
        (register-IsOrdered k t _ (register-IsOrdered j s tests o))
        λ n.
          rw
            (
              find-register j n s (register k t tests),
              find-register k n t tests,
              find-register k n t (register j s tests),
              find-register j n s tests,
            )
            (apart n)
    where
      apart :
          (n : Name)
          → (if same n j then some s else (if same n k then some t else find n tests))
            ≡ (if same n k then some t else (if same n j then some s else find n tests))
      apart n = elim (Bool-cases (same n j)) [
        | inl d ↦ elim (Bool-cases (same n k)) [
          | inl c ↦
              let impossible : true ≡ false =
                sym (same_refl k)
                ∙ ap (λ m. same m k) (sym (eq_of_same n k c) ∙ eq_of_same n j d)
                ∙ e in
              cc
          | inr c ↦ rw (c, d) refl
        ]
        | inr d ↦ rw d refl
      ]

  -- The same registrations, but for the order of those of different names.
  pub data Reordered : List (Name × T) → List (Name × T) → Type 0 where
    same_order : {xs : List (Name × T)} → Reordered xs xs
    keeps : {x : Name × T} {xs ys : List (Name × T)} → Reordered xs ys → Reordered (x ∷ xs) (x ∷ ys)
    swaps :
        {j k : Name} {s t : T} {xs : List (Name × T)}
        → same j k ≡ false
        → Reordered ((j, s) ∷ (k, t) ∷ xs) ((k, t) ∷ (j, s) ∷ xs)
    chains : {xs ys zs : List (Name × T)} → Reordered xs ys → Reordered ys zs → Reordered xs zs

  -- Registering tests one after another, on top of a map whose names stand in the order of
  -- std::string, gives the same map, and so the same order of RunAll, whatever the order of the
  -- registrations of different names is.
  pub register_all-Reordered :
      {xs ys : List (Name × T)} (tests : List (Name × T))
      → IsOrdered tests
      → Reordered xs ys
      → register_all xs tests ≡ register_all ys tests
  register_all-Reordered tests o same_order = refl
  register_all-Reordered tests o (keeps {x = (name, test)} r) =
      register_all-Reordered (register name test tests) (register-IsOrdered name test tests o) r
  register_all-Reordered tests o (swaps {j} {k} {s} {t} {xs} e) =
      ap (register_all xs) (register_comm k j t s tests (same_false_sym j k e) o)
  register_all-Reordered tests o (chains r q) =
      register_all-Reordered tests o r ∙ register_all-Reordered tests o q
