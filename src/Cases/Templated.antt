-- ===== src/Cases/Templated.antt =====
-- `TemplatedCase` of cases.h: argument lists with their names, a time limit and the status to expect. A
-- failed assertion is `none`, and so is a list of the wrong length, which the compiler refuses.
use libmandrews.Prelude.{
  ℕ, zero, suc, ◌<◌, ◌≡◌, refl, sym, ap, ◌∙◌, true, false, Option, none, some, List, [], ◌∷◌, ◌++◌,
  append_assoc, append-nil, arith, ◌==◌, ltb, if◌then◌else◌, length, get_elem?, Returns,
  Returns-some, ◌>>=◌, Option-cases, Bool-cases, inl, inr,
}
use libmandrews.Arguments.{add, add_all, call, num, blank}
use libmandrews.Arguments.Rows.{Wide, call-add_all}

abbrev pub Name : Type 0
Name = List ℕ

pub record Templated (V : Type 0) : Type 0 where
  pub expected : ℕ
  pub timeout : ℕ
  pub args : List (List V)
  pub arg_names : List Name

get-past : {A : Type 0} (xs : List A) (i : ℕ) → ltb i (length xs) ≡ false → get_elem? xs i ≡ none
get-past [] i h = refl
get-past (x ∷ xs) zero h = ground arith
get-past (x ∷ xs) (suc i) h = get-past xs i (ground arith)

module _ {V : Type 0} where
  -- A case for a function of `k` parameters.
  abbrev pub create_case : ℕ → Templated V
  create_case k = record { expected = 0; timeout = 1; args = blank k; arg_names = [] }

  -- `operator[]`, `operator()`, `operator/` and `operator%`
  abbrev pub name_list : Name → Templated V → Templated V
  name_list n c = record c { arg_names = c.arg_names ++ n ∷ [] }

  abbrev pub add_list : List V → Templated V → Option (Templated V)
  add_list row c = do args ← add c.args row; some (record c { args = args })

  abbrev pub expect : ℕ → Templated V → Templated V
  expect n c = record c { expected = n }

  abbrev pub limit_to : ℕ → Templated V → Templated V
  limit_to n c = record c { timeout = n }

  -- `Num`, `ArgName` and `Call`
  unfoldable pub case_num : Templated V → Option ℕ
  unfolding num
  case_num c = if num c.args == length c.arg_names then some (num c.args) else none

  unfoldable pub arg_name : ℕ → Templated V → Option Name
  arg_name i c = if ltb i (length c.arg_names) then get_elem? c.arg_names i else none

  unfoldable pub case_call : ℕ → Templated V → Option (List V)
  unfolding call
  case_call i c = call i c.args

  -- What CASE writes: `[#list] list` for each argument list.
  unfoldable pub declare : List (Name × List V) → Templated V → Option (Templated V)
  unfolding add
  declare [] c = some c
  declare ((n, row) ∷ lists) c = do c ← add_list row (name_list n c); declare lists c

  abbrev pub names : List (Name × List V) → List Name
  names [] = []
  names ((n, row) ∷ lists) = n ∷ names lists

  abbrev pub rows : List (Name × List V) → List (List V)
  rows [] = []
  rows ((n, row) ∷ lists) = row ∷ rows lists

  declare-some :
      (lists : List (Name × List V)) (c : Templated V) (ms : List (List V))
      → add_all c.args (rows lists) ≡ some ms
      → declare lists c ≡ some (record c { args = ms; arg_names = c.arg_names ++ names lists })
  unfolding declare add_all
  declare-some [] c ms e =
      rw (append-nil c.arg_names) (ap (λ o. o >>= λ a. some (record c { args = a })) e)
  declare-some ((n, row) ∷ lists) c ms e = elim (Option-cases (add c.args row)) [
    | inl fails ↦ let impossible : none ≡ some ms = (rw fails at e) in cc
    | inr (args, adds) ↦
        let rest : add_all args (rows lists) ≡ some ms = (rw adds at e) in
        rw adds (
          declare-some lists (record c { args = args; arg_names = c.arg_names ++ n ∷ [] }) ms rest
          ∙ ap (λ ns. some (record c { args = ms; arg_names = ns }))
              (append_assoc c.arg_names (n ∷ []) (names lists)))
  ]

  arg_name-get : (i : ℕ) (c : Templated V) → arg_name i c ≡ get_elem? c.arg_names i
  unfolding arg_name
  arg_name-get i c = elim (Bool-cases (ltb i (length c.arg_names))) [
    | inl within ↦ rw within refl
    | inr past ↦ rw past (sym (get-past c.arg_names i past))
  ]

  length-names : (lists : List (Name × List V)) → length (names lists) ≡ length lists
  length-names [] = refl
  length-names ((n, row) ∷ lists) = ap suc (length-names lists)

  length-rows : (lists : List (Name × List V)) → length (rows lists) ≡ length lists
  length-rows [] = refl
  length-rows ((n, row) ∷ lists) = ap suc (length-rows lists)

  -- A case for at least one parameter, declared with any named argument lists of as many values,
  -- has Num equal to the number of lists; ArgName and Call with number i give name i and list i,
  -- or fail as i is out of range.
  pub declare_lem :
      (k : ℕ) (lists : List (Name × List V))
      → 0 < k
      → Wide k (rows lists)
      → Returns (declare lists (create_case k)) (λ c.
        (case_num c ≡ some (length lists))
        × ((i : ℕ) → arg_name i c ≡ get_elem? (names lists) i)
        × ((i : ℕ) → case_call i c ≡ get_elem? (rows lists) i))
  unfolding case_num case_call
  declare_lem k lists pos w =
      let (ms, e, (found, height)) =
        Returns-some (add_all (blank k) (rows lists)) (call-add_all k (rows lists) pos w) in
      let all_named : (num ms == length (names lists)) ≡ true =
        ground (arith, height, length-names lists, length-rows lists) in
      rw (declare-some lists (create_case k) ms e)
        (rw all_named (ap some (height ∙ length-rows lists)), λ i. arg_name-get i _, found)

-- Without parameters there is one argument list, and any other number of names fails.
pub case_num-nullary :
    (V : Type 0) (c : Templated V)
    → c.args ≡ blank 0
    → case_num c ≡ (if length c.arg_names == 1 then some 1 else none)
unfolding case_num num
case_num-nullary V c e = rw e (ground arith)
