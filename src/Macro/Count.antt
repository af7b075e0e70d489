-- ===== src/Macro/Count.antt =====
-- `NUM_ARGS`, `HAS_ARGS` and `DEFAULT`.
use libmandrews.Prelude.{
  ℕ, zero, suc, ◌+◌, ◌-◌, ◌≤◌, ◌<◌, ◌≡◌, refl, ap, ◌∙◌, some, List, [], ◌∷◌, ◌++◌, arith, length,
  get_elem?,
}
use libmandrews.Macro.{
  Tokens, Entry, arg, number, yes_token, limit, countdown, yeses, entries, present, num_args,
  default,
}

length-entries : (args : List Tokens) → length (entries args) ≡ length args
length-entries [] = refl
length-entries (a ∷ args) = ap suc (length-entries args)

get-append_right :
    (xs ys : List Entry) (i : ℕ) → get_elem? (xs ++ ys) (length xs + i) ≡ get_elem? ys i
get-append_right [] ys i = let e : 0 + i ≡ i = omega arith in rw e refl
get-append_right (x ∷ xs) ys i =
    let e : suc (length xs) + i ≡ suc (length xs + i) = omega arith in
    rw e (get-append_right xs ys i)

get-countdown : (n i : ℕ) → i ≤ n → get_elem? (countdown n) i ≡ some (number (n - i))
get-countdown zero zero h = refl
get-countdown zero (suc i) h = absurd (omega arith)
get-countdown (suc n) zero h = ap (λ k. some (number k)) (omega arith)
get-countdown (suc n) (suc i) h =
    get-countdown n i (omega arith) ∙ ap (λ k. some (number k)) (omega arith)

-- The entry of `ARG_45` behind `args` arguments.
entry_at :
    (args : List Tokens) (ys : List Entry) (i j : ℕ)
    → length args + i ≡ j
    → get_elem? (entries args ++ ys) j ≡ get_elem? ys i
entry_at args ys i j e =
    let e' : j ≡ length (entries args) + i = omega (arith, length-entries args) in
    rw e' (get-append_right (entries args) ys i)

pub length-present : (args : List Tokens) → length (present args) ≤ length args
length-present [] = omega arith
length-present ([] ∷ []) = omega arith
length-present ([] ∷ b ∷ args) = omega arith
length-present ((t ∷ a) ∷ args) = omega arith

-- `NUM_ARGS` of up to 43 arguments, of none too, is their number.
pub num_args-length :
    (args : List Tokens)
    → length args ≤ limit
    → num_args args ≡ some (number (length (present args)))
unfolding num_args
num_args-length args h =
    let h' : length (present args) ≤ limit = omega (arith, length-present args) in
    entry_at (present args) (countdown limit) (limit - length (present args)) 43 (omega arith)
    ∙ get-countdown limit (limit - length (present args)) (omega arith)
    ∙ ap (λ k. some (number k)) (omega arith)

get-entries :
    (args : List Tokens) (ys : List Entry) (i : ℕ)
    → i < length args
    → (a : Tokens) × (get_elem? (entries args ++ ys) i ≡ some (arg a))
get-entries [] ys i h = absurd (omega arith)
get-entries (a ∷ args) ys zero h = (a, refl)
get-entries (a ∷ args) ys (suc i) h = get-entries args ys i (omega arith)

present-many : (args : List Tokens) → 1 < length args → present args ≡ args
present-many [] h = refl
present-many ([] ∷ []) h = absurd (omega arith)
present-many ([] ∷ b ∷ args) h = refl
present-many ((t ∷ a) ∷ args) h = refl

-- From 44 arguments on `NUM_ARGS` is no number, but one of the arguments.
pub num_args-overflow :
    (args : List Tokens) → limit < length args → (a : Tokens) × (num_args args ≡ some (arg a))
unfolding num_args
num_args-overflow args h =
    rw (present-many args (omega arith)) (get-entries args (countdown limit) 43 h)

get-yeses : (n i : ℕ) → i < n → get_elem? (yeses n) i ≡ some yes_token
get-yeses zero i h = absurd (omega arith)
get-yeses (suc n) zero h = refl
get-yeses (suc n) (suc i) h = get-yeses n i (omega arith)

-- The arguments if there are any, else the default.
abbrev pub given : Tokens → List Tokens → List Tokens
given d [] = d ∷ []
given d (a ∷ args) = a ∷ args

default-of :
    (d : Tokens) (args found : List Tokens)
    → present args ≡ found
    → length found ≤ limit
    → default d args ≡ some (given d found)
unfolding default
default-of d args [] e h = rw e refl
default-of d args (a ∷ found) e h =
    let many : get_elem? (entries (a ∷ found) ++ yeses limit) 43 ≡ some yes_token =
      entry_at (a ∷ found) (yeses limit) (limit - length (a ∷ found)) 43 (omega arith)
      ∙ get-yeses limit (limit - length (a ∷ found)) (omega arith) in
    rw e (rw many (ap some e))

-- DEFAULT of up to 43 arguments expands to the arguments if there are any, and else to the
-- default.
pub default-given :
    (d : Tokens) (args : List Tokens)
    → length args ≤ limit
    → default d args ≡ some (given d (present args))
default-given d args h = default-of d args (present args) refl (omega (arith, length-present args))
