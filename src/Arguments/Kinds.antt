-- ===== src/Arguments/Kinds.antt =====
-- `Argument` of arguments.h: how the value, the pointer or the reference of a parameter is kept between
-- `Add` and `Call`. Memory is a function from addresses to values.
use libmandrews.Prelude.{
  ℕ, zero, suc, length, length-map, ◌<◌, ◌≡◌, refl, ap, ◌∙◌, Option, none, some, List, [], ◌∷◌, map,
  get_elem?, Returns, Returns-some,
}
use libmandrews.Arguments.{add_all, call, blank}
use libmandrews.Arguments.Rows.{Wide, call-add_all}

-- The type of a parameter: `T`, `T*` or `T&`.
pub data Kind : Type 0 where
  plain pointer reference : Kind

-- What is kept: `_t`.
pub data Argument (V : Type 0) : Type 0 where
  value : V → Argument V
  points : ℕ → Argument V
  refers : ℕ → Argument V

module _ {V : Type 0} where
  -- The constructors, given the variable at address `x`, or its address for a pointer.
  unfoldable pub keep : (ℕ → V) → Kind × ℕ → Argument V
  keep memory (plain, x) = value (memory x)
  keep memory (pointer, x) = points x
  keep memory (reference, x) = refers x

  -- What the function reads by its parameter, through `operator T&` or `operator T*`.
  unfoldable pub read : (ℕ → V) → Argument V → V
  read memory (value v) = v
  read memory (points x) = memory x
  read memory (refers x) = memory x

  -- The lists as they are kept, each with the memory when it was added.
  abbrev pub kept : List ((ℕ → V) × List (Kind × ℕ)) → List (List (Argument V))
  kept [] = []
  kept ((before, row) ∷ rows) = map (keep before) row ∷ kept rows

  -- What a function with such parameters is to read.
  abbrev pub meant : (ℕ → V) → (ℕ → V) → Kind × ℕ → V
  meant before memory (plain, x) = before x
  meant before memory (pointer, x) = memory x
  meant before memory (reference, x) = memory x

  abbrev pub reads : (ℕ → V) → Option (List (Argument V)) → Option (List V)
  reads memory none = none
  reads memory (some row) = some (map (read memory) row)

  abbrev pub means : (ℕ → V) → Option ((ℕ → V) × List (Kind × ℕ)) → Option (List V)
  means memory none = none
  means memory (some (before, row)) = some (map (meant before memory) row)

  abbrev pub AllWide : ℕ → List ((ℕ → V) × List (Kind × ℕ)) → Type 0
  AllWide k [] = Unit
  AllWide k ((before, row) ∷ rows) = (length row ≡ k) × AllWide k rows

  kept-Wide :
      (k : ℕ) (rows : List ((ℕ → V) × List (Kind × ℕ))) → AllWide k rows → Wide k (kept rows)
  kept-Wide k [] w = tt
  kept-Wide k ((before, row) ∷ rows) (e, w) = (length-map row (keep before) ∙ e, kept-Wide k rows w)

  read-keep :
      (before memory : ℕ → V) (row : List (Kind × ℕ))
      → map (read memory) (map (keep before) row) ≡ map (meant before memory) row
  unfolding read keep
  read-keep before memory [] = refl
  read-keep before memory ((plain, x) ∷ row) = ap (◌∷◌ (before x)) (read-keep before memory row)
  read-keep before memory ((pointer, x) ∷ row) = ap (◌∷◌ (memory x)) (read-keep before memory row)
  read-keep before memory ((reference, x) ∷ row) = ap (◌∷◌ (memory x)) (read-keep before memory row)

  reads-kept :
      (memory : ℕ → V) (rows : List ((ℕ → V) × List (Kind × ℕ))) (i : ℕ)
      → reads memory (get_elem? (kept rows) i) ≡ means memory (get_elem? rows i)
  reads-kept memory [] i = refl
  reads-kept memory ((before, row) ∷ rows) zero = ap some (read-keep before memory row)
  reads-kept memory ((before, row) ∷ rows) (suc i) = reads-kept memory rows i

  -- Calling with list i gives the function the plain values that the variables had when the list was
  -- added, and through pointers and references the values that they have now.
  pub call-reads :
      (k : ℕ) (rows : List ((ℕ → V) × List (Kind × ℕ)))
      → 0 < k
      → AllWide k rows
      → Returns (add_all (blank k) (kept rows)) (λ ms.
        (i : ℕ) (memory : ℕ → V) → reads memory (call i ms) ≡ means memory (get_elem? rows i))
  call-reads k rows pos w =
      let (ms, e, (found, _)) =
        Returns-some (add_all (blank k) (kept rows))
          (call-add_all k (kept rows) pos (kept-Wide k rows w)) in
      rw e λ i memory. ap (reads memory) (found i) ∙ reads-kept memory rows i
