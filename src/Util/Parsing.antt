-- ===== src/Util/Parsing.antt =====
-- `parse_arguments`.
use libmandrews.Prelude.{
  suc, ◌+◌, ◌≡◌, refl, true, false, none, some, List, [], ◌∷◌, arith, ◌==◌, if◌then◌else◌, length,
  Bool-cases, inl, inr,
}
use libmandrews.Util.{Text, parse_arguments}

module _ {V : Type 0} where
  abbrev pub read_all : List (Text → V) → List Text → List V
  read_all (read ∷ reads) (arg ∷ args) = read arg ∷ read_all reads args
  read_all _ _ = []

  -- parse_arguments reads each argument in order if there are as many as parameters, and else
  -- fails.
  pub parse_arguments_lem :
      (reads : List (Text → V)) (program : Text) (args : List Text)
      → parse_arguments reads (program ∷ args)
        ≡ (if length args == length reads then some (read_all reads args) else none)
  unfolding parse_arguments
  parse_arguments_lem [] program [] = refl
  parse_arguments_lem [] program (arg ∷ args) = ground arith
  parse_arguments_lem (read ∷ reads) program [] = ground arith
  parse_arguments_lem (read ∷ reads) program (arg ∷ args) =
      elim (Bool-cases (length args == length reads)) [
        | inl fits ↦
            let one : (suc (suc (length args)) == length reads + 2) ≡ true = ground arith in
            let two : (suc (length args) == suc (length reads)) ≡ true = ground arith in
            rw (one, two) (rw (parse_arguments_lem reads arg args, fits) refl)
        | inr other ↦
            let one : (suc (suc (length args)) == length reads + 2) ≡ false = ground arith in
            let two : (suc (length args) == suc (length reads)) ≡ false = ground arith in
            rw (one, two) refl
      ]
