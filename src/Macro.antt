-- ===== src/Macro.antt =====
-- macro.h: macros over argument lists. An argument, and what a macro expands to, is a list of tokens;
-- `none` stands for a use that does not expand: too few arguments, or the name of a numbered macro that
-- macro.h does not define. The arguments of a call are found before they are expanded.
pub mod Count
pub mod Reduce
pub mod Spread
mod Tests
use libmandrews.Prelude.{
  ℕ, zero, suc, ◌-◌, Bool, true, false, Option, none, some, List, [], ◌∷◌, ◌++◌, ltb, if◌then◌else◌,
  get_elem?, ◌>>=◌, ◌>>◌, guard, leb,
}

abbrev pub Tokens : Type 0
Tokens = List ℕ

abbrev pub comma : ℕ
comma = b','

abbrev pub semicolon : ℕ
semicolon = b';'

abbrev pub equals : ℕ
equals = b'='

-- White space between tokens is not a token.
abbrev pub identity : Tokens → Tokens
identity a = a

abbrev pub reverse__reduce : Tokens → Tokens → Tokens
reverse__reduce a b = b ++ comma ∷ a

abbrev pub comma_separate : Tokens → Tokens → Tokens
comma_separate a b = a ++ comma ∷ b

abbrev pub space_separate : Tokens → Tokens → Tokens
space_separate a b = a ++ b

abbrev pub semicolon_separate : Tokens → Tokens → Tokens
semicolon_separate a b = a ++ semicolon ∷ b

abbrev pub equals_separate : Tokens → Tokens → Tokens
equals_separate a b = a ++ equals ∷ b

-- `REST` as a reducer is given an argument without a comma and drops it.
abbrev pub rest : Tokens → Tokens → Tokens
rest a b = b

-- What stands in the argument list of `ARG_45`.
pub data Entry : Type 0 where
  dummy : Entry
  arg : Tokens → Entry
  number : ℕ → Entry
  yes_token no_token : Entry

abbrev pub limit : ℕ
limit = 43

abbrev pub arg_45 : List Entry → Option Entry
arg_45 entries = get_elem? entries 44

-- n, n - 1, …, 0
abbrev pub countdown : ℕ → List Entry
countdown zero = number zero ∷ []
countdown (suc n) = number (suc n) ∷ countdown n

-- n times `YES`, then `NO`
abbrev pub yeses : ℕ → List Entry
yeses zero = no_token ∷ []
yeses (suc n) = yes_token ∷ yeses n

abbrev pub entries : List Tokens → List Entry
entries [] = []
entries (a ∷ args) = arg a ∷ entries args

-- `, ##__VA_ARGS__` takes the comma back where the arguments are one argument without a token.
abbrev pub present : List Tokens → List Tokens
present [] = []
present ([] ∷ []) = []
present ([] ∷ b ∷ args) = [] ∷ b ∷ args
present ((t ∷ a) ∷ args) = (t ∷ a) ∷ args

unfoldable pub num_args : List Tokens → Option Entry
num_args args = arg_45 (dummy ∷ entries (present args) ++ countdown limit)

unfoldable pub has_args : List Tokens → Option Entry
has_args args = arg_45 (dummy ∷ entries (present args) ++ yeses limit)

-- `DEFAULT__YES` and `DEFAULT__NO`, the only names that `DEFAULT` can make that are defined.
abbrev pub default_of : Entry → Tokens → List Tokens → Option (List Tokens)
default_of yes_token d args = some (present args)
default_of no_token d args = some (d ∷ [])
default_of _ d args = none

unfoldable pub default : Tokens → List Tokens → Option (List Tokens)
unfolding has_args
default d args = do e ← has_args args; default_of e d args

-- `MAP_REDUCE_0` to `MAP_REDUCE_43`.
unfoldable pub map_reduce_at :
    ℕ → (Tokens → Tokens) → (Tokens → Tokens → Tokens) → List Tokens → Option Tokens
map_reduce_at zero m r args = some []
map_reduce_at (suc n) m r [] = none
map_reduce_at (suc zero) m r (a0 ∷ args) = some (m a0)
map_reduce_at (suc (suc n)) m r (a0 ∷ args) = do
  b ← map_reduce_at (suc n) m r args
  some (r (m a0) b)

-- `CONCAT(MAP_REDUCE_, n)` names a macro for a number up to 43 only.
abbrev pub named : (ℕ → Option Tokens) → Entry → Option Tokens
named f (number n) = if leb n limit then f n else none
named f _ = none

unfoldable pub map_reduce :
    (Tokens → Tokens) → (Tokens → Tokens → Tokens) → List Tokens → Option Tokens
unfolding num_args map_reduce_at
map_reduce m r args = do e ← num_args args; named (λ n. map_reduce_at n m r args) e

unfoldable pub last : List Tokens → Option Tokens
last args = map_reduce identity rest args

unfoldable pub append : List Tokens → Option Tokens
append args = map_reduce identity space_separate args

unfoldable pub reverse : List Tokens → Option Tokens
reverse args = map_reduce identity reverse__reduce args

-- `REPEAT_0` to `REPEAT_43`.
unfoldable pub repeat_at : ℕ → (Tokens → Tokens) → (Tokens → Tokens → Tokens) → Tokens → Tokens
repeat_at zero m r a0 = []
repeat_at (suc zero) m r a0 = m a0
repeat_at (suc (suc n)) m r a0 = r (m a0) (repeat_at (suc n) m r a0)

unfoldable pub repeat : ℕ → Tokens → Option Tokens
unfolding repeat_at
repeat n a = if leb n limit then some (repeat_at n identity comma_separate a) else none
