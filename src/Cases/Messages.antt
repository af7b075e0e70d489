-- ===== src/Cases/Messages.antt =====
-- What `Begin`, `Finish` and `Succeed` of cases.hpp print, each a message on a channel. What a stream
-- makes of an integer and of a double of milliseconds is a parameter.
use libmandrews.Prelude.{
  ℕ, ◌≡◌, refl, sym, ap, ◌∙◌, Bool, true, false, List, [], ◌∷◌, ◌++◌, append_assoc, arith, ◌==◌,
  if◌then◌else◌,
}
use libmandrews.Output.Channel.{Channel, out, err, escape, codes}
use libmandrews.Output.Prompt.Escapes.{NoEscape, inside}
use libmandrews.Cases.{Case, Result, success, failure, timeout}

abbrev pub Text : Type 0
Text = List ℕ

abbrev pub cyan : Text
cyan = escape ∷ codes "[0;36m"

abbrev pub blue : Text
blue = escape ∷ codes "[1;34m"

abbrev pub red : Text
red = escape ∷ codes "[1;31m"

-- As the source has it.
abbrev pub odd_blue : Text
odd_blue = escape ∷ codes "[1;14m"

abbrev pub plain : Text
plain = escape ∷ codes "[0m"

pub record Message : Type 0 where
  pub channel : Channel
  pub text : Text

abbrev pub with_arguments : Text → Text
with_arguments [] = []
with_arguments (c ∷ args) =
    codes " with arguments '" ++ (cyan ++ ((c ∷ args) ++ (plain ++ codes "'")))

abbrev pub test_name : Text → Text
test_name name = codes "Test '" ++ (cyan ++ (name ++ (plain ++ codes "' ")))

abbrev pub message : Channel → Text → Message
message channel text = record { channel = channel; text = text }

unfoldable pub begin : Text → Text → Message
begin name args = message out (
    codes "Beginning test '"
    ++ (cyan
        ++ (name
            ++ (plain
                ++ (codes "' with arguments '" ++ (cyan ++ (args ++ (plain ++ codes "'"))))))))

abbrev pub in_time : (ℕ → Text) → ℕ → Text
in_time milliseconds usecs =
    codes "\n\tin " ++ (blue ++ (milliseconds usecs ++ (plain ++ codes " milliseconds")))

module _ (int : ℕ → Text) (milliseconds : ℕ → Text) where
  unfoldable pub finish : Case → Text → Text → ℕ → ℕ → Result → Message
  finish c name args usecs status success = message out (
      test_name name
      ++ (codes "succeeded"
          ++ (with_arguments args
              ++ (in_time milliseconds usecs
                  ++ (codes " with exit code "
                      ++ (blue ++ (int status ++ (plain ++ codes "!"))))))))
  finish c name args usecs status failure = message err (
      test_name name
      ++ (red
          ++ (codes "failed"
              ++ (plain
                  ++ (with_arguments args
                      ++ (in_time milliseconds usecs
                          ++ (codes " with exit code "
                              ++ (odd_blue
                                  ++ (int status
                                      ++ (plain
                                          ++ (codes "!\n\tExpected "
                                              ++ (blue
                                                  ++ (int c.expected
                                                      ++ (plain ++ codes "."))))))))))))))
  finish c name args usecs status timeout = message err (
      test_name name
      ++ (red
          ++ (codes "timed out"
              ++ (plain ++ (with_arguments args ++ (in_time milliseconds usecs ++ codes " "))))))

  unfoldable pub succeed : Text → ℕ → Message
  succeed name usecs =
      message out (test_name name ++ (codes "succeeded" ++ in_time milliseconds usecs))

-- The text outside the escape sequences.
abbrev pub shown_from : Bool → Text → Text
shown_from b [] = []
shown_from true (c ∷ text) = shown_from (inside true c) text
shown_from false (c ∷ text) =
    let rest = shown_from (inside false c) text in if c == escape then rest else c ∷ rest

abbrev pub visible : Text → Text
visible text = shown_from false text

visible-plain : (xs ys : Text) → NoEscape xs → visible (xs ++ ys) ≡ xs ++ visible ys
visible-plain [] ys p = refl
visible-plain (x ∷ xs) ys (ne, p) =
    let other : (x == escape) ≡ false = ground arith in
    rw other (ap (λ l. x ∷ l) (visible-plain xs ys p))

-- A piece of a text, with what stands behind it as it is seen.
visible-part :
    (xs ys zs rest : Text)
    → NoEscape xs
    → visible (ys ++ rest) ≡ zs ++ visible rest
    → visible ((xs ++ ys) ++ rest) ≡ (xs ++ zs) ++ visible rest
visible-part xs ys zs rest p e =
    ap visible (append_assoc xs ys rest)
    ∙ visible-plain xs (ys ++ rest) p
    ∙ ap (λ t. xs ++ t) e
    ∙ sym (append_assoc xs zs (visible rest))

-- The same messages without their colours.
abbrev pub told_arguments : Text → Text
told_arguments [] = []
told_arguments (c ∷ args) = codes " with arguments '" ++ ((c ∷ args) ++ codes "'")

abbrev pub told_name : Text → Text
told_name name = codes "Test '" ++ (name ++ codes "' ")

visible-arguments :
    (args rest : Text)
    → NoEscape args
    → visible (with_arguments args ++ rest) ≡ told_arguments args ++ visible rest
visible-arguments [] rest p = refl
visible-arguments (c ∷ args) rest p =
    ap (λ t. codes " with arguments '" ++ t)
      (visible-part (c ∷ args) (plain ++ codes "'") (codes "'") rest p refl)

visible-name :
    (name rest : Text)
    → NoEscape name
    → visible (test_name name ++ rest) ≡ told_name name ++ visible rest
visible-name name rest p =
    ap (λ t. codes "Test '" ++ t) (visible-part name (plain ++ codes "' ") (codes "' ") rest p refl)

abbrev pub told_time : (ℕ → Text) → ℕ → Text
told_time milliseconds usecs = codes "\n\tin " ++ (milliseconds usecs ++ codes " milliseconds")

module _ (int : ℕ → Text) (milliseconds : ℕ → Text) where
  abbrev pub told : Case → Text → Text → ℕ → ℕ → Result → Text
  told c name args usecs status success =
      told_name name
      ++ (codes "succeeded"
          ++ (told_arguments args
              ++ (told_time milliseconds usecs
                  ++ (codes " with exit code " ++ (int status ++ codes "!")))))
  told c name args usecs status failure =
      told_name name
      ++ (codes "failed"
          ++ (told_arguments args
              ++ (told_time milliseconds usecs
                  ++ (codes " with exit code "
                      ++ (int status
                          ++ (codes "!\n\tExpected " ++ (int c.expected ++ codes ".")))))))
  told c name args usecs status timeout =
      told_name name
      ++ (codes "timed out" ++ (told_arguments args ++ (told_time milliseconds usecs ++ codes " ")))

  visible-time :
      (usecs : ℕ) (rest : Text)
      → NoEscape (milliseconds usecs)
      → visible (in_time milliseconds usecs ++ rest) ≡ told_time milliseconds usecs ++ visible rest
  visible-time usecs rest p =
      ap (λ t. codes "\n\tin " ++ t)
        (visible-part (milliseconds usecs) (plain ++ codes " milliseconds") (codes " milliseconds")
          rest p refl)

  -- Names, arguments, times and numbers with no escapes.
  visible-middle :
      (args rest tail : Text) (usecs : ℕ)
      → NoEscape args
      → NoEscape (milliseconds usecs)
      → visible rest ≡ tail
      → visible (with_arguments args ++ (in_time milliseconds usecs ++ rest))
        ≡ told_arguments args ++ (told_time milliseconds usecs ++ tail)
  visible-middle args rest tail usecs p q e =
      visible-arguments args (in_time milliseconds usecs ++ rest) p
      ∙ ap (λ t. told_arguments args ++ t)
          (visible-time usecs rest q ∙ ap (λ t. told_time milliseconds usecs ++ t) e)

  visible-number :
      (n : ℕ) (rest tail : Text)
      → NoEscape (int n)
      → visible rest ≡ tail
      → visible (int n ++ (plain ++ rest)) ≡ int n ++ tail
  visible-number n rest tail p e = visible-plain (int n) (plain ++ rest) p ∙ ap (λ t. int n ++ t) e

  -- Where names, arguments and what the stream makes of numbers hold no escapes, the message of Finish
  -- reads, its colours aside, as `told` says, for each of the three results.
  pub finish_lem :
      (c : Case) (name args : Text) (usecs status : ℕ) (r : Result)
      → NoEscape name
      → NoEscape args
      → NoEscape (milliseconds usecs)
      → NoEscape (int status)
      → NoEscape (int c.expected)
      → visible (finish int milliseconds c name args usecs status r).text
        ≡ told c name args usecs status r
  unfolding finish
  finish_lem c name args usecs status success pn pa pt ps pe =
      visible-name name _ pn
      ∙ ap (λ t. told_name name ++ (codes "succeeded" ++ t))
          (visible-middle args _ _ usecs pa pt (
            ap (λ t. codes " with exit code " ++ t)
              (visible-number status (codes "!") (codes "!") ps refl)))
  finish_lem c name args usecs status failure pn pa pt ps pe =
      visible-name name _ pn
      ∙ ap (λ t. told_name name ++ (codes "failed" ++ t))
          (visible-middle args _ _ usecs pa pt (
            ap (λ t. codes " with exit code " ++ t)
              (visible-number status _ _ ps (
                ap (λ t. codes "!\n\tExpected " ++ t)
                  (visible-number c.expected (codes ".") (codes ".") pe refl)))))
  finish_lem c name args usecs status timeout pn pa pt ps pe =
      visible-name name _ pn
      ∙ ap (λ t. told_name name ++ (codes "timed out" ++ t))
          (visible-middle args (codes " ") (codes " ") usecs pa pt refl)
