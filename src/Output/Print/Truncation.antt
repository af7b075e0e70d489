-- ===== src/Output/Print/Truncation.antt =====
-- Where the loop of `Dump::Print` stops.
use libmandrews.Prelude.{
  ℕ, zero, suc, ◌≡◌, ◌≢◌, refl, Bool, List, [], ◌∷◌, ◌++◌, arith, length, drop,
}
use libmandrews.Output.Print.{newline, get, c_string}
use libmandrews.Output.Print.Lines.{lines_of}

-- The characters of a block: no newline, no NUL.
abbrev pub Plain : List ℕ → Type 0
Plain [] = Unit
Plain (c ∷ text) = (c ≢ newline) × (c ≢ 0) × Plain text

-- Blocks of exactly the width `w`.
abbrev pub Blocks : ℕ → List (List ℕ) → Type 0
Blocks w [] = Unit
Blocks w (b ∷ bs) = (length b ≡ w) × Plain b × Blocks w bs

abbrev pub flatten : List (List ℕ) → List ℕ
flatten [] = []
flatten (b ∷ bs) = b ++ flatten bs

pub get-block : (b rest : List ℕ) → Plain b → get (length b) (b ++ rest) ≡ b
unfolding get
get-block [] rest plain = refl
get-block (c ∷ b) rest (a, _, plain) = ground (arith, get-block b rest plain)

pub c_string-Plain : (b : List ℕ) → Plain b → c_string b ≡ b
unfolding c_string
c_string-Plain [] plain = refl
c_string-Plain (c ∷ b) (_, a, plain) = ground (arith, c_string-Plain b plain)

pub drop-block : {A : Type 0} (b rest : List A) → drop (length b) (b ++ rest) ≡ rest
drop-block [] rest = refl
drop-block (c ∷ b) rest = drop-block b rest

pub get-newline : (n : ℕ) (later : List ℕ) → get n (newline ∷ later) ≡ []
unfolding get
get-newline zero later = refl
get-newline (suc n) later = refl

pub get-nil : (n : ℕ) → get n [] ≡ []
unfolding get
get-nil zero = refl
get-nil (suc n) = refl

-- The loop ends where nothing is read.
pub stop-at :
    (fuel w : ℕ) (ss : List ℕ) (starts first : Bool)
    → get w ss ≡ []
    → lines_of fuel w ss starts first ≡ []
unfolding lines_of
stop-at zero w ss starts first e = refl
stop-at (suc fuel) w ss starts first e = rw e refl
