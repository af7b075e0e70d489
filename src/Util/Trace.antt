-- ===== src/Util/Trace.antt =====
-- The lines of `print_trace`.
use libmandrews.Prelude.{
  ℕ, suc, ◌+◌, ◌≡◌, ◌≢◌, ◌<◌, refl, ap, ◌∙◌, true, Option, none, some, List, [], ◌∷◌, ◌++◌, arith,
  ◌==◌, ltb, false, if◌then◌else◌, length, length-append, set, drop, Bool-cases, inl, inr, map,
  append_assoc, ◌>>=◌,
}
use libmandrews.Output.Print.{c_string}
use libmandrews.Util.{
  Text, open_paren, close_paren, plus, colon, sz, scan, cut, function_of, trace_line, trace_lines,
  print_trace,
}

abbrev pub NoNul : Text → Type 0
NoNul [] = Unit
NoNul (c ∷ text) = (c ≢ 0) × NoNul text

-- No `(` and no `+`.
abbrev pub Unmarked : Text → Type 0
Unmarked [] = Unit
Unmarked (c ∷ text) = (c ≢ open_paren) × (c ≢ plus) × Unmarked text

c_string-NoNul : (text : Text) → NoNul text → c_string text ≡ text
unfolding c_string
c_string-NoNul [] n = refl
c_string-NoNul (c ∷ text) (ne, n) = ground (arith, c_string-NoNul text n)

c_string-stop : (text rest : Text) → NoNul text → c_string (text ++ 0 ∷ rest) ≡ text
unfolding c_string
c_string-stop [] rest n = refl
c_string-stop (c ∷ text) rest (ne, n) = ground (arith, c_string-stop text rest n)

scan-append :
    (j : ℕ) (xs ys : Text) (found : Option ℕ × Option ℕ)
    → scan j (xs ++ ys) found ≡ scan (j + length xs) ys (scan j xs found)
unfolding scan
scan-append j [] ys found = ap (λ i. scan i ys found) (omega arith)
scan-append j (c ∷ xs) ys (begin, end) =
    let e : j + suc (length xs) ≡ j + 1 + length xs = omega arith in
    rw e (elim (Bool-cases (c == open_paren)) [
      | inl paren ↦ rw paren (scan-append (j + 1) xs ys (some j, end))
      | inr other ↦ elim (Bool-cases (c == plus)) [
        | inl sign ↦ rw (other, sign) (scan-append (j + 1) xs ys (begin, some j))
        | inr neither ↦ rw (other, neither) (scan-append (j + 1) xs ys (begin, end))
      ]
    ])

scan-Unmarked :
    (j : ℕ) (text : Text) (found : Option ℕ × Option ℕ) → Unmarked text → scan j text found ≡ found
unfolding scan
scan-Unmarked j [] found u = refl
scan-Unmarked j (c ∷ text) (begin, end) (no_paren, no_plus, u) =
    ground (arith, scan-Unmarked (j + 1) text (begin, end) u)

set-append : (xs ys : Text) (c d : ℕ) → set (xs ++ c ∷ ys) (length xs) d ≡ xs ++ d ∷ ys
set-append [] ys c d = refl
set-append (x ∷ xs) ys c d = ap (λ l. x ∷ l) (set-append xs ys c d)

drop-after : (xs : Text) (c : ℕ) (ys : Text) → drop (length xs + 1) (xs ++ c ∷ ys) ≡ ys
drop-after [] c ys = refl
drop-after (x ∷ xs) c ys =
    let more : suc (length xs) + 1 ≡ suc (length xs + 1) = omega arith in
    ap (λ n. drop n (x ∷ (xs ++ c ∷ ys))) more ∙ drop-after xs c ys

-- The text of a frame: a path, a symbol in parentheses, and an offset to it.
abbrev pub frame : Text → Text → Text → Text
frame path symbol offset = path ++ (open_paren ∷ (symbol ++ (plus ∷ offset)))

scan-frame :
    (path symbol offset : Text)
    → Unmarked symbol
    → Unmarked offset
    → scan 0 (frame path symbol offset) (none, none)
      ≡ (some (length path), some (length path + 1 + length symbol))
unfolding scan
scan-frame path symbol offset s o =
    let n = length path in
    let found = scan 0 path (none, none) in
    let first = scan-append 0 path (open_paren ∷ (symbol ++ (plus ∷ offset))) (none, none) in
    let second = scan-append (n + 1) symbol (plus ∷ offset) (some n, found.1) in
    let third = scan-Unmarked (n + 1) symbol (some n, found.1) s in
    let place : 0 + n ≡ n = omega arith in
    first
    ∙ rw place (
        second
        ∙ rw third (
            scan-Unmarked (n + 1 + length symbol + 1) offset (some n, some (n + 1 + length symbol))
              o))

cut-frame :
    (path symbol offset : Text)
    → cut (length path) (length path + 1 + length symbol) (frame path symbol offset)
      ≡ path ++ (0 ∷ (symbol ++ (0 ∷ offset)))
cut-frame path symbol offset =
    let first = set-append path (symbol ++ plus ∷ offset) open_paren 0 in
    let place : length path + 1 + length symbol ≡ length (path ++ 0 ∷ symbol) =
      omega (arith, length-append path (0 ∷ symbol)) in
    let join = append_assoc path (0 ∷ symbol) (plus ∷ offset) in
    rw first (
      rw (place, ← join)
        (set-append (path ++ 0 ∷ symbol) offset plus 0
          ∙ append_assoc path (0 ∷ symbol) (0 ∷ offset)))

-- The line for a frame, by what `function_of` makes of its symbol.
trace_line-function_of :
    (demangle : Text → Option Text) (path symbol offset : Text)
    → NoNul path
    → NoNul symbol
    → Unmarked symbol
    → Unmarked offset
    → trace_line demangle (frame path symbol offset)
      ≡ (function_of (demangle symbol) symbol >>= λ function. some (path ++ colon ∷ function))
unfolding trace_line
trace_line-function_of demangle path symbol offset np ns s o =
    let left = cut-frame path symbol offset in
    let behind : drop (length path + 1) (path ++ (0 ∷ (symbol ++ (0 ∷ offset))))
        ≡ symbol ++ (0 ∷ offset) =
      drop-after path 0 (symbol ++ (0 ∷ offset)) in
    rw (scan-frame path symbol offset s o) (
      rw left (
        rw (behind, c_string-stop symbol offset ns, c_string-stop path (symbol ++ (0 ∷ offset)) np)
          refl))

-- What the line of a frame has to be, by what the demangler answers.
abbrev pub line_for : Text → Text → Option Text → Option Text
line_for path symbol (some name) = some (path ++ b':' ∷ name)
line_for path symbol none =
    if ltb (length symbol) 998 then some (path ++ b':' ∷ (symbol ++ b'(' ∷ b')' ∷ [])) else none

function_of-line_for :
    (path symbol : Text) (ret : Option Text)
    → (function_of ret symbol >>= λ function. some (path ++ colon ∷ function))
      ≡ line_for path symbol ret
function_of-line_for path symbol (some name) = refl
function_of-line_for path symbol none = elim (Bool-cases (ltb (length symbol) 998)) [
  | inl small ↦ let fits : ltb (length symbol + 2) sz ≡ true = ground arith in rw (small, fits) refl
  | inr large ↦
      let over : ltb (length symbol + 2) sz ≡ false = ground arith in rw (large, over) refl
]

-- The line of print_trace for a frame that is a path, a symbol in parentheses and an offset is
-- the path, a colon and the demangled symbol, or the symbol with () behind it if it has no
-- demangled name; if such a symbol has more than 997 characters, the buffer overflows.
pub trace_line-frame :
    (demangle : Text → Option Text) (path symbol offset : Text)
    → NoNul path
    → NoNul symbol
    → Unmarked symbol
    → Unmarked offset
    → trace_line demangle (frame path symbol offset) ≡ line_for path symbol (demangle symbol)
trace_line-frame demangle path symbol offset np ns s o =
    trace_line-function_of demangle path symbol offset np ns s o
    ∙ function_of-line_for path symbol (demangle symbol)

-- A stack of such frames, printed line by line, if each symbol has room or a demangled name.
pub record Frame : Type 0 where
  pub path : Text
  pub symbol : Text
  pub offset : Text

abbrev pub text_of : Frame → Text
text_of f = frame f.path f.symbol f.offset

abbrev pub Proper : Frame → Type 0
Proper f = NoNul f.path × NoNul f.symbol × Unmarked f.symbol × Unmarked f.offset

abbrev pub AllProper : List Frame → Type 0
AllProper [] = Unit
AllProper (f ∷ frames) = Proper f × AllProper frames

abbrev pub named : Frame → Text → Text
named f function = f.path ++ (colon ∷ function)

abbrev pub name_or : Option Text → Text → Text
name_or (some ret) symbol = ret
name_or none symbol = symbol ++ open_paren ∷ close_paren ∷ []

abbrev pub Roomy : List Frame → Type 0
Roomy [] = Unit
Roomy (f ∷ frames) = (length f.symbol + 2 < sz) × Roomy frames

function_of-roomy :
    (ret : Option Text) (symbol : Text)
    → length symbol + 2 < sz
    → function_of ret symbol ≡ some (name_or ret symbol)
function_of-roomy (some name) symbol room = refl
function_of-roomy none symbol room =
    let fits : ltb (length symbol + 2) sz ≡ true = ground arith in rw fits refl

module _ (demangle : Text → Option Text) where
  abbrev pub printed : List Frame → List Text
  printed [] = []
  printed (f ∷ frames) = named f (name_or (demangle f.symbol) f.symbol) ∷ printed frames

  trace_lines-frames :
      (frames : List Frame)
      → AllProper frames
      → Roomy frames
      → trace_lines demangle (map text_of frames) ≡ some (printed frames)
  unfolding trace_lines
  trace_lines-frames [] p r = refl
  trace_lines-frames (f ∷ frames) ((np, ns, s, o), p) (room, r) =
      let line = trace_line-function_of demangle f.path f.symbol f.offset np ns s o in
      let name = function_of-roomy (demangle f.symbol) f.symbol room in
      rw (line, name, trace_lines-frames frames p r) refl

  -- A stack of frames that are a path, a symbol and an offset is printed frame by frame without
  -- its own frame, if every symbol is short enough.
  pub print_trace-frames :
      (own : Text) (frames : List Frame)
      → AllProper frames
      → Roomy frames
      → print_trace demangle (own ∷ map text_of frames) ≡ some (printed frames)
  unfolding print_trace
  print_trace-frames own frames p r = trace_lines-frames frames p r
