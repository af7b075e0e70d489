-- ===== src/Output/Print.antt =====
-- `Dump::Print` of output.h: a message goes out in lines of at most `readLen` characters, each behind
-- the prompt (on the first line) or as many blanks, and behind a carat or two spaces. Characters are
-- numbers; `ss_` is the text that has not been read yet. `none` is a read behind the end of the buffer.
pub mod Lines
pub mod Rejoin
pub mod Truncation
pub mod Bounds
use libmandrews.Output.Prompt.{max_buffer_length}
use libmandrews.Prelude.{
  ℕ, zero, suc, ◌-◌, Bool, true, false, not, Option, none, some, List, [], ◌∷◌, ◌++◌, ◌==◌, leb,
  if◌then◌else◌, length, drop, replicate, ◌>>=◌, ◌>>◌, guard,
}

abbrev pub newline : ℕ
newline = 10

-- What `ss_.get(buffer, n + 1, '\n')` puts into the buffer.
unfoldable pub get : ℕ → List ℕ → List ℕ
get zero text = []
get (suc n) [] = []
get (suc n) (c ∷ text) = if c == newline then [] else c ∷ get n text

-- The text of a buffer as a C string, up to the first NUL.
unfoldable pub c_string : List ℕ → List ℕ
c_string [] = []
c_string (c ∷ text) = if c == 0 then [] else c ∷ c_string text

-- One line of output. `first` says that the prompt stands before it, not blanks.
pub record Line : Type 0 where
  pub first : Bool
  pub carat : Bool
  pub text : List ℕ

-- `ss_.ignore()`, unless the line is full.
abbrev pub after : Bool → List ℕ → List ℕ
after true text = text
after false text = drop 1 text

-- The loop. The first argument bounds its rounds. The buffer has one character more than
-- `max_buffer_length`, for the NUL behind what is read.
unfoldable pub print_loop : ℕ → ℕ → List ℕ → Bool → Bool → Option (List Line)
unfolding get c_string
print_loop zero read_len ss starts first = some []
print_loop (suc fuel) read_len ss starts first =
    let buffer = get read_len ss in
    let wrap = length (c_string buffer) == read_len in
    let rest = print_loop fuel read_len (after wrap (drop (length buffer) ss)) (not wrap) false in
    guard (leb (length buffer) max_buffer_length)
    >> (if length buffer == 0
        then some []
        else rest >>= λ lines.
            some ((record { first = first; carat = starts; text = c_string buffer }) ∷ lines))

-- A round that goes on takes a character at least, so the rounds are enough. A width below zero reads
-- nothing, as a width of zero does.
unfoldable pub print : (max_total_length prefix : ℕ) → List ℕ → Option (List Line)
unfolding print_loop
print max_total_length prefix ss =
    print_loop (suc (length ss)) (max_total_length - prefix - 2) ss true true
