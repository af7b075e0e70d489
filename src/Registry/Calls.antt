-- ===== src/Registry/Calls.antt =====
-- `Run` and `RunAll` over the map of the registered tests.
use libmandrews.Prelude.{
  ℕ, ◌+◌, ◌≡◌, refl, sym, ap, ◌∙◌, Bool, true, false, ◌&&◌, none, some, List, [], ◌∷◌, ◌++◌,
  append_assoc, append-nil, arith, if◌then◌else◌, Bool-cases, inl, inr, tally, weight,
}
use libmandrews.Registry.{
  Name, same, before, value, register, find, run_found, run, run_loop, run_all,
}
use libmandrews.Registry.Names.{same_false_sym, find-register}

module _ {T : Type 0} where
  abbrev pub bodies : List (Name × T) → List T
  bodies [] = []
  bodies ((key, test) ∷ tests) = test ∷ bodies tests

  -- The tests that are registered one after another.
  abbrev pub register_all : List (Name × T) → List (Name × T) → List (Name × T)
  register_all [] tests = tests
  register_all ((name, test) ∷ rest) tests = register_all rest (register name test tests)

  abbrev pub Unnamed : Name → List (Name × T) → Type 0
  Unnamed name [] = Unit
  Unnamed name ((key, test) ∷ tests) = (same name key ≡ false) × Unnamed name tests

  abbrev pub AllDistinct : List (Name × T) → Type 0
  AllDistinct [] = Unit
  AllDistinct ((name, test) ∷ rest) = Unnamed name rest × AllDistinct rest

  -- None of the names is registered yet.
  abbrev AllNew : List (Name × T) → List (Name × T) → Type 0
  AllNew [] tests = Unit
  AllNew ((name, test) ∷ rest) tests = (find name tests ≡ none) × AllNew rest tests

  AllNew-register :
      (j : Name) (test : T) (rest tests : List (Name × T))
      → Unnamed j rest
      → AllNew rest tests
      → AllNew rest (register j test tests)
  AllNew-register j test [] tests u n = tt
  AllNew-register j test ((name, other) ∷ rest) tests (apart, u) (e, n) =
      let same_sym : same name j ≡ false = same_false_sym j name apart in
      (rw (find-register j name test tests, same_sym) e, AllNew-register j test rest tests u n)

  AllNew-nil : (rest : List (Name × T)) → AllNew rest []
  unfolding find
  AllNew-nil [] = tt
  AllNew-nil ((name, test) ∷ rest) = (refl, AllNew-nil rest)

module _ {T : Type 0} (call : T → Bool) where
  -- Run of a name that was registered last calls that test; any other name fares as before.
  pub run-register :
      (input : List ℕ) (j k : Name) (test : T) (tests : List (Name × T))
      → run call input k (register j test tests)
        ≡ (if same k j then value (call test) else run call input k tests)
  unfolding run
  run-register input j k test tests = rw (find-register j k test tests) (of_test (same k j))
    where
      of_test :
          (b : Bool)
          → run_found call input (if b then some test else find k tests)
            ≡ (if b then value (call test) else run_found call input (find k tests))
      of_test true = refl
      of_test false = refl

  abbrev pub all_pass : List T → Bool
  all_pass [] = true
  all_pass (test ∷ tests) = call test && all_pass tests

  and_assoc : (a b d : Bool) → ((a && b) && d) ≡ (a && (b && d))
  and_assoc true b d = refl
  and_assoc false b d = refl

  run_loop_lem :
      (ok : Bool) (log : List T) (tests : List (Name × T))
      → run_loop call ok log tests ≡ (ok && all_pass (bodies tests), log ++ bodies tests)
  unfolding run_loop
  run_loop_lem true log [] = rw (append-nil log) refl
  run_loop_lem false log [] = rw (append-nil log) refl
  run_loop_lem ok log ((key, test) ∷ tests) =
      run_loop_lem (ok && call test) (log ++ test ∷ []) tests
      ∙ (rw
          (
            and_assoc ok (call test) (all_pass (bodies tests)),
            append_assoc log (test ∷ []) (bodies tests),
          )
          refl)

  bodies-register :
      (p : T → Bool) (name : Name) (test : T) (tests : List (Name × T))
      → find name tests ≡ none
      → (tally p (bodies (register name test tests)) ≡ weight (p test) + tally p (bodies tests))
        × (all_pass (bodies (register name test tests)) ≡ (call test && all_pass (bodies tests)))
  unfolding register find
  bodies-register p name test [] e = (refl, refl)
  bodies-register p name test ((key, old) ∷ tests) e = elim (Bool-cases (same name key)) [
    | inl here ↦
        let impossible : some old ≡ none =
          ap (λ b. if b then some old else find name tests) (sym here) ∙ e in
        cc
    | inr other ↦
        let (one, all) =
          bodies-register p name test tests
            (ap (λ b. if b then some old else find name tests) (sym other) ∙ e) in
        elim (Bool-cases (before name key)) [
          | inl first ↦ rw first (refl, refl)
          | inr later ↦ rw (later, other) (omega (arith, one), ground (arith, all))
        ]
  ]

  bodies-register_all :
      (p : T → Bool) (rest tests : List (Name × T))
      → AllDistinct rest
      → AllNew rest tests
      → (tally p (bodies (register_all rest tests))
          ≡ tally p (bodies rest) + tally p (bodies tests))
        × (all_pass (bodies (register_all rest tests))
            ≡ (all_pass (bodies rest) && all_pass (bodies tests)))
  bodies-register_all p [] tests d n = (omega arith, refl)
  bodies-register_all p ((name, test) ∷ rest) tests (u, d) (e, n) =
      let (one, all) = bodies-register p name test tests e in
      let (count, pass) =
        bodies-register_all p rest (register name test tests) d
          (AllNew-register name test rest tests u n) in
      (omega (arith, one, count), ground (arith, all, pass))

  -- After tests with distinct names have been registered in any order, RunAll calls each of them
  -- exactly once and returns whether all have returned true.
  pub run_all-registered :
      (tests : List (Name × T)) (p : T → Bool)
      → AllDistinct tests
      → ((run_all call (register_all tests [])).0 ≡ all_pass (bodies tests))
        × (tally p (run_all call (register_all tests [])).1 ≡ tally p (bodies tests))
  unfolding run_all
  run_all-registered tests p d = (
    (rw
        (
          run_loop_lem true [] (register_all tests []),
          (bodies-register_all (λ _. true) tests [] d (AllNew-nil tests)).1,
        )
        (and_true (all_pass (bodies tests)))),
    (rw (run_loop_lem true [] (register_all tests []))
        (omega (arith, (bodies-register_all p tests [] d (AllNew-nil tests)).0))),
  )
    where
      and_true : (b : Bool) → (b && true) ≡ b
      and_true true = refl
      and_true false = refl
