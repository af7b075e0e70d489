-- ===== src/Registry/Declared.antt =====
-- The macros TEST and TEST_CASE of testing.h: what is registered before `main`, and under which names.
use libmandrews.Prelude.{
  ℕ, ◌≡◌, ◌≢◌, refl, sym, ap, ◌∙◌, false, some, List, [], ◌∷◌, ◌++◌, arith, map, if◌then◌else◌,
  Bool-cases, inl, inr,
}
use libmandrews.Registry.{Name, same, register, find}
use libmandrews.Registry.Names.{same_refl, eq_of_same, find-register}
use libmandrews.Registry.Calls.{register_all}

-- `TEST(n)` and `TEST_CASE(test, case_)`, by their names.
pub data Declared : Type 0 where
  test : Name → Declared
  test_case : Name → Name → Declared

abbrev pub colons : Name → Name
colons name = b':' ∷ b':' ∷ name

-- What `DEFINE_TEST` and `TEST_CASE` give to `DEFINE_TEST_ALIAS`.
unfoldable pub alias : Declared → Name
alias (test n) = n
alias (test_case n case_) = n ++ colons case_

module _ {T : Type 0} where
  -- The static initialisation: `Run` of each declaration calls `Create`, which registers the test.
  unfoldable pub static_init : List (Declared × T) → List (Name × T)
  unfolding alias register
  static_init declarations = register_all (map (λ d. (alias d.0, d.1)) declarations) []

-- A name of the language has no colon.
abbrev pub IsIdentifier : Name → Type 0
IsIdentifier [] = Unit
IsIdentifier (c ∷ name) = (c ≢ b':') × IsIdentifier name

abbrev pub AreIdentifiers : Declared → Type 0
AreIdentifiers (test n) = IsIdentifier n
AreIdentifiers (test_case n case_) = IsIdentifier n × IsIdentifier case_

head_eq : {c d : ℕ} {a b : Name} → (c ∷ a) ≡ (d ∷ b) → (c ≡ d) × (a ≡ b)
head_eq e = ground (arith, e)

plain_differ : (n m case_ : Name) → IsIdentifier n → n ≡ m ++ colons case_ → ⊥
plain_differ [] [] case_ i e = ground (arith, e)
plain_differ [] (c ∷ m) case_ i e = ground (arith, e)
plain_differ (c ∷ n) [] case_ (ne, i) e = ne (head_eq e).0
plain_differ (c ∷ n) (d ∷ m) case_ (ne, i) e = plain_differ n m case_ i (head_eq e).1

cases_agree :
    (n m a b : Name)
    → IsIdentifier n
    → IsIdentifier m
    → n ++ colons a ≡ m ++ colons b
    → (n ≡ m) × (a ≡ b)
cases_agree [] [] a b i j e = (refl, (head_eq (head_eq e).1).1)
cases_agree [] (d ∷ m) a b i (ne, j) e = absurd (ne (sym (head_eq e).0))
cases_agree (c ∷ n) [] a b (ne, i) j e = absurd (ne (head_eq e).0)
cases_agree (c ∷ n) (d ∷ m) a b (_, i) (_, j) e =
    let (c_eq, rest) = head_eq e in
    let (n_eq, case_eq) = cases_agree n m a b i j rest in (ground arith, case_eq)

-- Different declarations have different names.
pub alias-injective :
    (d e : Declared) → AreIdentifiers d → AreIdentifiers e → alias d ≡ alias e → d ≡ e
unfolding alias
alias-injective (test n) (test m) i j h = ap test h
alias-injective (test n) (test_case m b) i j h = absurd (plain_differ n m b i h)
alias-injective (test_case n a) (test m) i j h = absurd (plain_differ m n a j (sym h))
alias-injective (test_case n a) (test_case m b) (i, _) (j, _) h =
    let (n_eq, case_eq) = cases_agree n m a b i j h in cc

differ :
    (d e : Declared)
    → AreIdentifiers d
    → AreIdentifiers e
    → d ≢ e
    → same (alias d) (alias e) ≡ false
differ d e i j ne = elim (Bool-cases (same (alias d) (alias e))) [
  | inl h ↦ absurd (ne (alias-injective d e i j (eq_of_same (alias d) (alias e) h)))
  | inr h ↦ h
]

module _ {T : Type 0} where
  -- The declarations of the list are others, and have names of the language.
  abbrev pub AllOther : Declared → List (Declared × T) → Type 0
  AllOther d [] = Unit
  AllOther d ((e, body) ∷ declarations) = (d ≢ e) × AreIdentifiers e × AllOther d declarations

  named : Declared × T → Name × T
  named d = (alias d.0, d.1)

  find-others :
      (d : Declared) (declarations : List (Declared × T)) (tests : List (Name × T))
      → AreIdentifiers d
      → AllOther d declarations
      → find (alias d) (register_all (map named declarations) tests) ≡ find (alias d) tests
  unfolding named
  find-others d [] tests i o = refl
  find-others d ((e, body) ∷ declarations) tests i (ne, j, o) =
      find-others d declarations (register (alias e) body tests) i o
      ∙ find-register (alias e) (alias d) body tests
      ∙ ap (λ b. if b then some body else find (alias d) tests) (differ d e i j ne)

  find-from :
      (before later : List (Declared × T)) (d : Declared) (body : T) (tests : List (Name × T))
      → AreIdentifiers d
      → AllOther d later
      → find (alias d) (register_all (map named (before ++ (d, body) ∷ later)) tests) ≡ some body
  unfolding named
  find-from [] later d body tests i o =
      find-others d later (register (alias d) body tests) i o
      ∙ find-register (alias d) (alias d) body tests
      ∙ ap (λ b. if b then some body else find (alias d) tests) (same_refl (alias d))
  find-from ((e, other) ∷ before) later d body tests i o =
      find-from before later d body (register (alias e) other tests) i o

  -- A test that is declared, and not again behind that, is found by the name of its declaration,
  -- whatever else is declared.
  pub find-declared :
      (before later : List (Declared × T)) (d : Declared) (body : T)
      → AreIdentifiers d
      → AllOther d later
      → find (alias d) (static_init (before ++ (d, body) ∷ later)) ≡ some body
  unfolding static_init named
  find-declared before later d body i o = find-from before later d body [] i o
