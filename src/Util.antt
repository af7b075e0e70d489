-- ===== src/Util.antt =====
-- `parse_arguments` and `print_trace` of util.h. Texts are lists of characters without their final NUL.
-- `none` is a failed assertion, or a write behind the end of a buffer.
pub mod Parsing
pub mod Trace
pub mod System
mod Tests
use libmandrews.Prelude.{
  ℕ, zero, suc, ◌+◌, Bool, true, false, Option, none, some, List, [], ◌∷◌, ◌++◌, ltb, ◌==◌,
  if◌then◌else◌, length, get_elem?, set, drop, ◌>>=◌, ◌>>◌, guard,
}
use libmandrews.Output.Print.{c_string}

abbrev pub Text : Type 0
Text = List ℕ

-- `parse_arguments`. Each parameter is read by its own `operator>>`.
unfoldable pub parse_arguments {ℓ} : {V : Type ℓ} → List (Text → V) → List Text → Option (List V)
parse_arguments [] argv = do guard (length argv == 1); some []
parse_arguments (read ∷ reads) argv = do
  guard (length argv == length reads + 2)
  arg ← get_elem? argv 1
  rest ← parse_arguments reads (drop 1 argv)
  some (read arg ∷ rest)

abbrev pub open_paren : ℕ
open_paren = b'('

abbrev pub close_paren : ℕ
close_paren = b')'

abbrev pub plus : ℕ
plus = b'+'

abbrev pub colon : ℕ
colon = b':'

abbrev pub sz : ℕ
sz = 1000

-- The loop over the characters: the places of the last `(` and of the last `+`, from place `j` on.
unfoldable pub scan : ℕ → Text → Option ℕ × Option ℕ → Option ℕ × Option ℕ
scan j [] found = found
scan j (c ∷ text) (begin, end) =
    if c == open_paren
    then scan (j + 1) text (some j, end)
    else (if c == plus then scan (j + 1) text (begin, some j) else scan (j + 1) text (begin, end))

-- `*begin++ = '\0'; *end = '\0'`
abbrev pub cut : ℕ → ℕ → Text → Text
cut begin end text = set (set text begin 0) end 0

-- The name to print: what `__cxa_demangle` gives, or the symbol itself with `()` behind it, for which
-- `strncpy` and `strncat` need three characters of room.
abbrev pub function_of : Option Text → Text → Option Text
function_of (some ret) symbol = some ret
function_of none symbol =
    if ltb (length symbol + 2) sz then some (symbol ++ open_paren ∷ close_paren ∷ []) else none

module _ (demangle : Text → Option Text) where
  abbrev pub line_of : Text → Option ℕ × Option ℕ → Option Text
  line_of text (some begin, some end) =
      let left = cut begin end text in
      let symbol = c_string (drop (begin + 1) left) in
      do function ← function_of (demangle symbol) symbol; some (c_string left ++ colon ∷ function)
  line_of text (none, end) = some text
  line_of text (some begin, none) = some text

  unfoldable pub trace_line : Text → Option Text
  unfolding scan c_string
  trace_line text = line_of text (scan 0 text (none, none))

  unfoldable pub trace_lines : List Text → Option (List Text)
  unfolding trace_line
  trace_lines [] = some []
  trace_lines (text ∷ rest) = do
    line ← trace_line text
    lines ← trace_lines rest
    some (line ∷ lines)

  -- `print_trace`, which leaves out its own frame.
  unfoldable pub print_trace : List Text → Option (List Text)
  unfolding trace_lines
  print_trace stack_strings = trace_lines (drop 1 stack_strings)
