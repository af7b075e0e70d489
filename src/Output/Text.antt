-- ===== src/Output/Text.antt =====
-- The text of a `Dump` as the `std::stringstream` that it is: characters, and the place where the next
-- one is written. A stream that is made of a string starts at its front, and writes over it.
use libmandrews.Prelude.{
  ℕ, ◌+◌, ◌≡◌, append_assoc, ◌↔◌, refl, sym, ap, ◌∙◌, Bool, true, false, not, List, [], ◌∷◌, ◌++◌,
  append-nil, arith, ltb, ◌==◌, if◌then◌else◌, length, length-append, take, drop, take-append,
  drop-append, drop-nil, drop-drop,
}
use libmandrews.Output.Dump.{Dump, put}

pub record Text : Type 0 where
  pub str : List ℕ
  pub place : ℕ

abbrev pub of_string : List ℕ → Text
of_string s = record { str = s; place = 0 }

-- `ss_ << t`, with the characters of `t`.
unfoldable pub insert : Text → List ℕ → Text
insert t s = record {
  str = take t.place t.str ++ s ++ drop (t.place + length s) t.str;
  place = t.place + length s;
}

-- The copy constructor.
unfoldable pub copy : Text → Text
copy t = of_string t.str

-- `operator>>` of `Dump`: the whole text, which stays.
unfoldable pub extract : Text → List ℕ
extract t = t.str

-- `ss_.clear(); ss_.str(std::string());`
unfoldable pub reset : Text → Text
reset t = of_string []

-- `std::string::compare`: the sign of its result.
pub data Sign : Type 0 where
  negative nought positive : Sign

unfoldable pub compare : List ℕ → List ℕ → Sign
compare [] [] = nought
compare [] (d ∷ b) = negative
compare (c ∷ a) [] = positive
compare (c ∷ a) (d ∷ b) =
    let rest = compare a b in if c == d then rest else (if ltb c d then negative else positive)

abbrev pub is_nought : Sign → Bool
is_nought nought = true
is_nought _ = false

unfoldable pub expect : List ℕ → Text → Bool
unfolding compare
expect expected t = is_nought (compare expected t.str)

-- `EXPECT_STREAM` and `EXPECT_STREAM_NOT`, before the rest of a test.
unfoldable pub expect_stream : Text → List ℕ → Bool → Bool
unfolding expect
expect_stream t expected rest = if not (expect expected t) then false else rest

unfoldable pub expect_stream_not : Text → List ℕ → Bool → Bool
unfolding expect
expect_stream_not t expected rest = if expect expected t then false else rest

compare-eq : (a b : List ℕ) → compare a b ≡ nought → a ≡ b
unfolding compare
compare-eq [] [] e = refl
compare-eq [] (d ∷ b) e = ground (arith, e)
compare-eq (c ∷ a) [] e = ground (arith, e)
compare-eq (c ∷ a) (d ∷ b) e = ground (arith, compare-eq a b)

compare_self : (a : List ℕ) → compare a a ≡ nought
unfolding compare
compare_self [] = refl
compare_self (c ∷ a) = ground (arith, compare_self a)

-- The stream expects a text exactly if that is what it holds.
pub expect_lem : (expected : List ℕ) (t : Text) → (expect expected t ≡ true) ↔ (t.str ≡ expected)
unfolding expect
expect_lem expected t = (of_expect, λ e. rw (e, compare_self expected) refl)
  where
    nought_of : (s : Sign) → is_nought s ≡ true → s ≡ nought
    nought_of negative e = ground (arith, e)
    nought_of nought e = refl
    nought_of positive e = ground (arith, e)

    of_expect : is_nought (compare expected t.str) ≡ true → t.str ≡ expected
    of_expect e = sym (compare-eq expected t.str (nought_of (compare expected t.str) e))

-- A stream whose part before the place is `front`.
abbrev over : List ℕ → List ℕ → Text
over front rest = record { str = front ++ rest; place = length front }

insert-over :
    (front rest s : List ℕ) → insert (over front rest) s ≡ over (front ++ s) (drop (length s) rest)
unfolding insert
insert-over front rest s =
    rw
      (
        take-append front rest,
        drop-append front rest (length s),
        append_assoc front s (drop (length s) rest),
        length-append front s,
      )
      refl

-- The stream of a message that was made by `operator<<` alone.
abbrev pub Appends : Text → Dump → Type 0
Appends t d = t ≡ over d.ss []

-- Such a message goes on so.
pub insert-Appends :
    (t : Text) (d : Dump) (s : List ℕ) → Appends t d → Appends (insert t s) (put d s)
unfolding put
insert-Appends t d s e =
    ap (λ t. insert t s) e ∙ insert-over d.ss [] s ∙ ap (over (d.ss ++ s)) (drop-nil (length s))

unfoldable pub insert_all : Text → List (List ℕ) → Text
unfolding insert
insert_all t [] = t
insert_all t (s ∷ texts) = insert_all (insert t s) texts

abbrev pub concat : List (List ℕ) → List ℕ
concat [] = []
concat (s ∷ texts) = s ++ concat texts

insert_all-over :
    (front rest : List ℕ) (texts : List (List ℕ))
    → (insert_all (over front rest) texts).str
      ≡ front ++ concat texts ++ drop (length (concat texts)) rest
unfolding insert_all
insert_all-over front rest [] = rw (append-nil front) refl
insert_all-over front rest (s ∷ texts) =
    ap (λ t. (insert_all t texts).str) (insert-over front rest s)
    ∙ insert_all-over (front ++ s) (drop (length s) rest) texts
    ∙ (rw
        (
          append_assoc front s (concat texts),
          drop-drop (length (concat texts)) (length s) rest,
          length-append s (concat texts),
        )
        refl)

-- Writing texts to a copy of a message writes them over the start of the message, of which only
-- the rest behind their length stays; to a message that was reset it gives the texts alone.
pub copy-insert_all :
    (t : Text) (texts : List (List ℕ))
    → ((insert_all (copy t) texts).str ≡ concat texts ++ drop (length (concat texts)) t.str)
      × ((insert_all (reset t) texts).str ≡ concat texts)
unfolding copy reset
copy-insert_all t texts = (
  insert_all-over [] t.str texts,
  insert_all-over [] [] texts
      ∙ ap (λ l. concat texts ++ l) (drop-nil (length (concat texts)))
      ∙ append-nil (concat texts),
)
