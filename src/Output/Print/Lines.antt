-- ===== src/Output/Print/Lines.antt =====
-- The lines of `Dump::Print` where the buffer has room for each.
use libmandrews.Prelude.{
  ℕ, zero, suc, ◌+◌, ◌-◌, ◌≤◌, ◌≡◌, refl, Bool, true, false, not, some, List, [], ◌∷◌, arith, ◌==◌,
  leb, if◌then◌else◌, length, drop, Bool-cases, inl, inr,
}
use libmandrews.Output.Print.{get, c_string, Line, after, print_loop, print}

-- The loop without a look at the end of the buffer.
unfoldable pub lines_of : ℕ → ℕ → List ℕ → Bool → Bool → List Line
lines_of zero read_len ss starts first = []
lines_of (suc fuel) read_len ss starts first =
    let buffer = get read_len ss in
    let wrap = length (c_string buffer) == read_len in
    let rest = lines_of fuel read_len (after wrap (drop (length buffer) ss)) (not wrap) false in
    if length buffer == 0
    then []
    else (record { first = first; carat = starts; text = c_string buffer }) ∷ rest

length-get : (n : ℕ) (text : List ℕ) → length (get n text) ≤ n
unfolding get
length-get zero text = omega arith
length-get (suc n) [] = omega arith
length-get (suc n) (c ∷ text) = ground (arith, length-get n text)

print_loop-lines_of :
    (fuel w : ℕ) (ss : List ℕ) (starts first : Bool)
    → w ≤ 1024
    → print_loop fuel w ss starts first ≡ some (lines_of fuel w ss starts first)
unfolding print_loop lines_of
print_loop-lines_of zero w ss starts first h = refl
print_loop-lines_of (suc fuel) w ss starts first h =
    let buffer = get w ss in
    let wrap = length (c_string buffer) == w in
    let rest =
      print_loop-lines_of fuel w (after wrap (drop (length buffer) ss)) (not wrap) false h in
    let fits : leb (length buffer) 1024 ≡ true = ground (arith, length-get w ss) in
    elim (Bool-cases (length buffer == 0)) [
      | inl stops ↦ rw (fits, stops) refl
      | inr goes_on ↦ rw (fits, goes_on, rest) refl
    ]

-- The width of a line of text that `Print` reckons with, for which the buffer has room.
pub print-lines_of :
    (total prefix : ℕ) (ss : List ℕ)
    → total ≤ prefix + 1026
    → print total prefix ss ≡ some (lines_of (suc (length ss)) (total - prefix - 2) ss true true)
unfolding print
print-lines_of total prefix ss h =
    print_loop-lines_of (suc (length ss)) (total - prefix - 2) ss true true (omega arith)
