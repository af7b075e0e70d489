-- ===== src/Registry/Names.antt =====
-- The map of the registered tests.
use libmandrews.Prelude.{
  ◌≡◌, refl, sym, ap, ◌∙◌, Bool, true, false, Option, some, List, [], ◌∷◌, arith, if◌then◌else◌,
  Bool-cases, inl, inr,
}
use libmandrews.Registry.{Name, same, before, register, find}

pub same_refl : (a : Name) → same a a ≡ true
same_refl [] = refl
same_refl (c ∷ a) = ground (arith, same_refl a)

pub eq_of_same : (a b : Name) → same a b ≡ true → a ≡ b
eq_of_same [] [] h = refl
eq_of_same [] (d ∷ b) h = cc
eq_of_same (c ∷ a) [] h = cc
eq_of_same (c ∷ a) (d ∷ b) h = ground (arith, eq_of_same a b)

pub same_false_sym : (j k : Name) → same j k ≡ false → same k j ≡ false
same_false_sym j k e = elim (Bool-cases (same k j)) [
  | inl h ↦
      let impossible : true ≡ false =
        sym (same_refl k) ∙ ap (λ n. same n k) (eq_of_same k j h) ∙ e in
      cc
  | inr h ↦ h
]

-- The order of the names is strict and total.
before_irrefl : (a : Name) → before a a ≡ false
unfolding before
before_irrefl [] = refl
before_irrefl (c ∷ a) = ground (arith, before_irrefl a)

pub before_trans : (a b d : Name) → before a b ≡ true → before b d ≡ true → before a d ≡ true
unfolding before
before_trans [] [] [] p q = p
before_trans [] (x ∷ b) [] p q = q
before_trans [] b (e ∷ d) p q = refl
before_trans (c ∷ a) [] d p q = ground (arith, p)
before_trans (c ∷ a) (x ∷ b) [] p q = ground (arith, q)
before_trans (c ∷ a) (x ∷ b) (e ∷ d) p q = ground (arith, before_trans a b d)

pub before_total : (a b : Name) → before a b ≡ false → same a b ≡ false → before b a ≡ true
unfolding before
before_total [] [] p q = ground (arith, q)
before_total [] (d ∷ b) p q = ground (arith, p)
before_total (c ∷ a) [] p q = refl
before_total (c ∷ a) (d ∷ b) p q = ground (arith, before_total a b)

pub before-same : (a b : Name) → before a b ≡ true → same a b ≡ false
before-same a b p = elim (Bool-cases (same a b)) [
  | inl e ↦
      let impossible : true ≡ false =
        sym p ∙ ap (before a) (sym (eq_of_same a b e)) ∙ before_irrefl a in
      cc
  | inr e ↦ e
]

module _ {T : Type 0} where
  -- A name that was registered last is found.
  pub find-register :
      (j k : Name) (test : T) (tests : List (Name × T))
      → find k (register j test tests) ≡ (if same k j then some test else find k tests)
  unfolding find register
  find-register j k test [] = refl
  find-register j k test ((key, old) ∷ tests) = elim (Bool-cases (before j key)) [
    | inl first ↦ rw first refl
    | inr later ↦ elim (Bool-cases (same j key)) [
      | inl here ↦
          let e : j ≡ key = eq_of_same j key here in
          rw (later, here) (rw e (by_test (same k key) (find k tests) old))
      | inr other ↦
          rw (later, other, find-register j k test tests)
            (apart j k key test old (find k tests) other)
    ]
  ]
    where
      apart :
          (j k key : Name) (test old : T) (o : Option T)
          → same j key ≡ false
          → (if same k key then some old else (if same k j then some test else o))
            ≡ (if same k j then some test else (if same k key then some old else o))
      apart j k key test old o other = elim (Bool-cases (same k key)) [
        | inl e ↦ elim (Bool-cases (same k j)) [
          | inl d ↦
              let at_key : j ≡ key = sym (eq_of_same k j d) ∙ eq_of_same k key e in
              let impossible : true ≡ false =
                sym (same_refl key) ∙ ap (λ n. same n key) (sym at_key) ∙ other in
              cc
          | inr d ↦ rw (e, d) refl
        ]
        | inr e ↦ rw e refl
      ]

      by_test :
          (b : Bool) (o : Option T) (old : T)
          → (if b then some test else o) ≡ (if b then some test else (if b then some old else o))
      by_test true o old = refl
      by_test false o old = refl
