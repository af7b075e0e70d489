-- ===== src/Output/Null.antt =====
-- The streams `std::cnul` and `std::cftl` of output.h, whose buffer is a `NulStreambuf`.
use libmandrews.Prelude.{
  ℕ, zero, suc, ◌+◌, ◌≤◌, ◌≡◌, refl, Bool, true, false, not, Option, none, some, List, [], ◌∷◌,
  arith, ◌>>=◌, ◌>>◌, guard, Returns, length,
}

abbrev pub buffer_size : ℕ
buffer_size = 64

-- `(c == EOF) ? '\0' : c`, where `none` is EOF.
abbrev pub code_of : Option ℕ → Option ℕ
code_of none = some 0
code_of (some c) = some c

-- `overflow`, which does not store the character; `fatal` is the parameter `FTL`. The answer is with
-- what is left of `dummyBuffer`, and the outer `none` is a failed assertion.
unfoldable pub overflow : Bool → Option ℕ → Option (Option ℕ × ℕ)
overflow fatal c = do guard (not fatal); some (code_of c, buffer_size)

-- `std::streambuf::sputc`: it stores a character if there is room, and else calls `overflow`. At first
-- a stream has no room.
unfoldable pub sputc : Bool → ℕ → ℕ → Option (Option ℕ × ℕ)
unfolding overflow
sputc fatal c zero = overflow fatal (some c)
sputc fatal c (suc left) = some (some c, left)

-- `std::streambuf::sputn`: it stops at EOF, and answers how many characters it has put.
unfoldable pub sputn : Bool → List ℕ → ℕ → Option (ℕ × ℕ)
unfolding sputc
sputn fatal [] left = some (0, left)
sputn fatal (c ∷ text) left = do
  (answer, left) ← sputc fatal c left
  elim answer [
    | none ↦ some (0, left)
    | some _ ↦ do (n, left) ← sputn fatal text left; some (n + 1, left)
  ]

-- A text on `NulOStream` and on `FtlOStream`, whose buffers start with no room.
unfoldable pub nul_write : List ℕ → Option (ℕ × ℕ)
unfolding sputn
nul_write text = sputn false text 0

unfoldable pub ftl_write : List ℕ → Option (ℕ × ℕ)
unfolding sputn
ftl_write text = sputn true text 0

-- `n` characters were put.
abbrev pub IsPut : ℕ → ℕ × ℕ → Type 0
IsPut n r = (r.0 ≡ n) × (r.1 ≤ buffer_size)

one_more :
    (n : ℕ) (o : Option (ℕ × ℕ))
    → Returns o (IsPut n)
    → Returns (o >>= λ r. some (r.0 + 1, r.1)) (IsPut (suc n))
one_more n none h = h
one_more n (some r) (e, le) = (omega (arith, e), le)

cnul_lem :
    (text : List ℕ) (left : ℕ)
    → left ≤ buffer_size
    → Returns (sputn false text left) (IsPut (length text))
unfolding sputn sputc overflow
cnul_lem [] left h = (refl, h)
cnul_lem (c ∷ text) zero h =
    one_more (length text) (sputn false text buffer_size) (cnul_lem text buffer_size (omega arith))
cnul_lem (c ∷ text) (suc left) h =
    one_more (length text) (sputn false text left) (cnul_lem text left (omega arith))

-- A text on cnul is put whole, and nothing but an empty text can be put on cftl.
pub write_lem :
    (text : List ℕ) (c : ℕ)
    → Returns (nul_write text) (IsPut (length text))
      × (ftl_write (c ∷ text) ≡ none)
      × (ftl_write [] ≡ some (0, 0))
unfolding nul_write ftl_write sputc overflow
write_lem text c = (cnul_lem text 0 (omega arith), refl, refl)
