-- ===== src/Output/Capture.antt =====
-- `CAPTURE` and `SingleIter` of output.h: a message on a stream for the length of a block.
use libmandrews.Prelude.{
  ℕ, ◌≤◌, Returns, ◌≡◌, refl, ap, ◌∙◌, true, Option, some, List, [], ◌∷◌, ◌++◌, append_assoc,
  append-nil, ◌>>=◌,
}
use libmandrews.Output.Channel.{Stream}
use libmandrews.Output.Dump.{
  Dump, on_stream, put, Env, Event, wrote, Flushed, returned, dead, events, output, flush,
}
use libmandrews.Output.Print.{Line, print}
use libmandrews.Output.Print.Lines.{print-lines_of}
use libmandrews.Output.Text.{concat}

-- What the loop over a `SingleIter` goes through.
abbrev pub single_iter {ℓ} : {A : Type ℓ} → A → List A
single_iter a = a ∷ []

-- The block writes texts to the message.
unfoldable pub put_all : Dump → List (List ℕ) → Dump
unfolding put
put_all d [] = d
put_all d (s ∷ texts) = put_all (put d s) texts

-- What follows a flush that returns.
abbrev pub then_rest : Flushed → Option (List Event) → Option (List Event)
then_rest (returned shown d) rest = do more ← rest; some (shown ++ more)
then_rest (dead shown) rest = some shown

-- The loop, and the destructor of each message behind it.
unfoldable pub over_each : Env → List ℕ → List (List ℕ) → List Dump → Option (List Event)
unfolding put_all flush
over_each env input texts [] = some []
over_each env input texts (d ∷ dumps) = do
  r ← flush env input (put_all d texts)
  then_rest r (over_each env input texts dumps)

unfoldable pub capture :
    Env → List ℕ → Stream → List ℕ → List ℕ → List (List ℕ) → Option (List Event)
unfolding over_each on_stream
capture env input os file line texts =
    over_each env input texts (single_iter (on_stream os file line))

put_all-concat :
    (d : Dump) (texts : List (List ℕ)) → put_all d texts ≡ record d { ss = d.ss ++ concat texts }
unfolding put_all put
put_all-concat d [] = rw (append-nil d.ss) refl
put_all-concat d (s ∷ texts) =
    put_all-concat (put d s) texts
    ∙ ap (λ l. record d { ss = l }) (append_assoc d.ss s (concat texts))

-- With NVERBOSE and a terminal of up to 1026 columns the texts of the block are printed once, as one
-- message on the stream.
pub capture_lem :
    (env : Env) (input : List ℕ) (os : Stream) (file line : List ℕ) (texts : List (List ℕ))
    → env.nverbose ≡ true
    → env.max_total_length ≤ 1026
    → Returns (capture env input os file line texts) (λ shown.
      (lines : List Line) × (print env.max_total_length 0 (concat texts) ≡ some lines)
      × (shown ≡ wrote os [] lines ∷ []))
unfolding capture over_each flush events output on_stream
capture_lem env input os file line texts quiet narrow =
    let printed = print-lines_of env.max_total_length 0 (concat texts) narrow in
    rw (put_all-concat (on_stream os file line) texts, quiet, printed) (_, refl, refl)
