-- ===== src/Output/Dump/Flush.antt =====
-- `Dump::flush`.
use mathlib.Core.Option.{some-injective}
use libmandrews.Prelude.{
  sym, ap, ◌∙◌, ℕ, ◌*◌, ◌≤◌, ◌<◌, ◌||◌, length, Returns, Returns-some, ◌≡◌, ◌⊎◌, refl, Bool, true,
  false, Option, none, some, List, [], ◌∷◌, arith, ◌==◌, if◌then◌else◌, Bool-cases, Option-cases,
  ◌+◌, inl, inr, ◌>>=◌,
}
use libmandrews.Output.Channel.{Channel, out, err, ftl, brk, dbg, dmy, buf, codes, channel_color}
use libmandrews.Output.Print.{print}
use libmandrews.Output.Prompt.{prompt}
use libmandrews.Output.Prompt.Escapes.{NoEscape}
use libmandrews.Output.Prompt.Width.{prompt-width}
use libmandrews.Output.Print.Lines.{print-lines_of}
use libmandrews.Output.Dump.{
  Dump, Env, Event, wrote, asked, aborted, returned, dead, aborts, output, question, choose, events,
  flush,
}

-- A flush ends the program on `FTL`, and on `BRK` if the answer is `n`.
abbrev pub fatal : Channel → Option ℕ → Bool
fatal ftl answer = true
fatal brk (some t) = t == b'n'
fatal _ answer = false

-- A choice is one of the two answers.
pub choose-yn : (input : List ℕ) (t : ℕ) → choose input ≡ some t → (t ≡ b'y') ⊎ (t ≡ b'n')
unfolding choose
choose-yn [] t e = cc
choose-yn (c ∷ input) t e = ground (arith, choose-yn input t)

output-goes_on :
    (env : Env) (d : Dump) (tag : List ℕ) (e : Event) (l : List Event)
    → output env d tag ≡ some e
    → aborts (e ∷ l) ≡ aborts l
unfolding output
output-goes_on env d tag e l h = elim (Bool-cases env.nverbose) [
  | inl quiet ↦ elim (Option-cases (print env.max_total_length 0 d.ss)) [
    | inl over ↦ let impossible : none ≡ some e = (rw (quiet, over) at h) in cc
    | inr (lines, fits) ↦
        let wrote_it : some (wrote d.os [] lines) ≡ some e = (rw (quiet, fits) at h) in
        ap (λ x. aborts (x ∷ l)) (sym (some-injective (wrote d.os [] lines) e wrote_it))
  ]
  | inr loud ↦ elim (Option-cases (prompt d.color tag d.file d.line env.indentation)) [
    | inl long ↦ let impossible : none ≡ some e = (rw (loud, long) at h) in cc
    | inr (p, pe) ↦ elim (Option-cases (print env.max_total_length p.real_len d.ss)) [
      | inl over ↦ let impossible : none ≡ some e = (rw (loud, pe, over) at h) in cc
      | inr (lines, fits) ↦
          let wrote_it : some (wrote d.os p.text lines) ≡ some e = (rw (loud, pe, fits) at h) in
          ap (λ x. aborts (x ∷ l)) (sym (some-injective (wrote d.os p.text lines) e wrote_it))
    ]
  ]
]

-- A first event from `output` decides nothing.
first-aborts :
    (env : Env) (d : Dump) (tag : List ℕ) (l : List Event) (shown : List Event) (o : Option Event)
    → output env d tag ≡ o
    → (o >>= λ e. some (e ∷ l)) ≡ some shown
    → aborts shown ≡ aborts l
first-aborts env d tag l shown none q h = cc
first-aborts env d tag l shown (some e) q h =
    ap aborts (sym (some-injective (e ∷ l) shown h)) ∙ output-goes_on env d tag e l q

question-aborts :
    (env : Env) (d : Dump) (tag : List ℕ) (shown : List Event) (answer : Option ℕ)
    → (output env d tag >>= λ e. question answer >>= λ rest. some (e ∷ rest)) ≡ some shown
    → aborts shown ≡ fatal brk answer
question-aborts env d tag shown none h = ground arith
question-aborts env d tag shown (some t) h =
    first-aborts env d tag (if t == b'n' then asked ∷ aborted ∷ [] else asked ∷ []) shown
      (output env d tag) refl h
    ∙ by_answer (t == b'n')
  where
    by_answer : (b : Bool) → aborts (if b then asked ∷ aborted ∷ [] else asked ∷ []) ≡ b
    by_answer true = refl
    by_answer false = refl

events-aborts :
    (env : Env) (input : List ℕ) (d : Dump) (c : Channel) (shown : List Event)
    → events env input d c ≡ some shown
    → aborts shown ≡ fatal c (choose input)
unfolding events
events-aborts env input d out shown h =
    first-aborts env d (codes "OUT") [] shown (output env d (codes "OUT")) refl h
events-aborts env input d err shown h =
    first-aborts env d (codes "ERR") [] shown (output env d (codes "ERR")) refl h
events-aborts env input d ftl shown h =
    first-aborts env d (codes "FTL") (aborted ∷ []) shown (output env d (codes "FTL")) refl h
events-aborts env input d brk shown h = question-aborts env d (codes "BRK") shown (choose input) h
events-aborts env input d buf shown h =
    first-aborts env d (codes "BUF") [] shown (output env d (codes "BUF")) refl h
events-aborts env input d dbg shown h = elim (Bool-cases env.ndebug) [
  | inl off ↦ ap aborts (sym (some-injective [] shown (rw off at h)))
  | inr on ↦
      first-aborts env d (codes "DBG") [] shown (output env d (codes "DBG")) refl (rw on at h)
]
events-aborts env input d dmy shown h = ap aborts (sym (some-injective [] shown h))

-- What a flush wants of its message: the colour of its channel, a line number of up to four digits, no
-- escape in the names, and an indentation and a terminal that the buffers have room for.
pub record Ready (env : Env) (d : Dump) : Type 0 where
  pub color : d.color ≡ channel_color d.channel
  pub short : length d.line ≤ 4
  pub plain_file : NoEscape d.file
  pub plain_line : NoEscape d.line
  pub room : env.indentation * 2 < 896
  pub narrow : env.max_total_length ≤ 1026

-- Someone answers the question.
abbrev pub answered : List ℕ → Bool
answered [] = false
answered (t ∷ input) = t == b'y' || t == b'n' || answered input

choose-answered : (input : List ℕ) → answered input ≡ true → (t : ℕ) × (choose input ≡ some t)
unfolding choose
choose-answered [] h = cc
choose-answered (c ∷ input) h = elim (Bool-cases (c == b'y' || c == b'n')) [
  | inl yn ↦ rw yn (c, refl)
  | inr other ↦ let h' : answered input ≡ true = ground arith in rw other (choose-answered input h')
]

output-Ready :
    {env : Env} {d : Dump} (tag : List ℕ)
    → Ready env d
    → length tag ≡ 3
    → NoEscape tag
    → (e : Event) × (output env d tag ≡ some e)
unfolding output
output-Ready {env} {d} tag r three plain = elim (Bool-cases env.nverbose) [
  | inl quiet ↦ rw (quiet, print-lines_of env.max_total_length 0 d.ss r.narrow) (_, refl)
  | inr loud ↦
      let (p, pe, _) =
        Returns-some (prompt (channel_color d.channel) tag d.file d.line env.indentation) (
          prompt-width d.channel tag d.file d.line env.indentation r.short r.plain_file r.plain_line
            plain (omega (arith, r.room))) in
      let fits : env.max_total_length ≤ p.real_len + 1026 = omega (arith, r.narrow) in
      rw (loud, r.color, pe, print-lines_of env.max_total_length p.real_len d.ss fits) (_, refl)
]

events-Ready :
    {env : Env} {d : Dump} (input : List ℕ) (c : Channel)
    → Ready env d
    → answered input ≡ true
    → (shown : List Event) × (events env input d c ≡ some shown)
unfolding events
events-Ready input out r h =
    let (e, q) =
      output-Ready (codes "OUT") r refl (omega arith, (omega arith, (omega arith, tt))) in
    rw q (_, refl)
events-Ready input err r h =
    let (e, q) =
      output-Ready (codes "ERR") r refl (omega arith, (omega arith, (omega arith, tt))) in
    rw q (_, refl)
events-Ready input ftl r h =
    let (e, q) =
      output-Ready (codes "FTL") r refl (omega arith, (omega arith, (omega arith, tt))) in
    rw q (_, refl)
events-Ready input brk r h =
    let (e, q) =
      output-Ready (codes "BRK") r refl (omega arith, (omega arith, (omega arith, tt))) in
    let (t, a) = choose-answered input h in rw (q, a) (_, refl)
events-Ready input buf r h =
    let (e, q) =
      output-Ready (codes "BUF") r refl (omega arith, (omega arith, (omega arith, tt))) in
    rw q (_, refl)
events-Ready {env} input dbg r h = elim (Bool-cases env.ndebug) [
  | inl off ↦ rw off (_, refl)
  | inr on ↦
      let (e, q) =
        output-Ready (codes "DBG") r refl (omega arith, (omega arith, (omega arith, tt))) in
      rw (on, q) (_, refl)
]
events-Ready input dmy r h = (_, refl)

-- If a message has the colour of its channel, a line number of up to four digits and no escapes
-- in its names, the terminal has at most 1026 columns, the indentation fits the buffer, and an
-- answer is there, a flush ends in abort on FTL, on BRK exactly when the answer is n, and on no
-- other channel; else it returns, and has emptied the message and changed nothing else of it.
pub flush-aborts :
    (env : Env) (input : List ℕ) (d : Dump)
    → Ready env d
    → answered input ≡ true
    → Returns (flush env input d) (λ r.
      (shown : List Event) × (aborts shown ≡ fatal d.channel (choose input))
      × (r ≡ (
          if fatal d.channel (choose input)
          then dead shown
          else returned shown (record d { ss = [] }))))
unfolding flush
flush-aborts env input d r h =
    let (shown, q) = events-Ready input d.channel r h in
    let ends = events-aborts env input d d.channel shown q in rw (q, ends) (shown, ends, refl)
