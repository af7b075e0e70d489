-- ===== src/Timing/Timers.antt =====
-- Timers, one inside another.
use libmandrews.Prelude.{
  ℕ, suc, ◌+◌, ◌-◌, ◌%◌, ◌*◌, ◌≤◌, ◌≡◌, refl, ap, ◌∙◌, Bool, false, some, List, [], ◌∷◌, ◌++◌,
  arith, length, tally, tally-append, weight, Returns, Returns-some, ◌==◌,
}
use libmandrews.Output.Dump.{indent, unindent}
use libmandrews.Timing.{word, Note, beginning, took, World, now, finish, Code, done, timed, run}

-- The notes that a test of the name and the indentation holds of: those of a beginning, and those of an
-- end.
abbrev pub is_beginning : (ℕ → ℕ → Bool) → Note → Bool
is_beginning p (beginning name depth) = p name depth
is_beginning p (took name depth us) = false

abbrev pub is_end : (ℕ → ℕ → Bool) → Note → Bool
is_end p (beginning name depth) = false
is_end p (took name depth us) = p name depth

abbrev pub timers : Code → ℕ
timers done = 0
timers (timed name body rest) = timers body + timers rest + 1

-- The indentation is as before, each timer has asked the clock twice, and as many have begun as ended.
pub record Kept (p : ℕ → ℕ → Bool) (n : ℕ) (w v : World) : Type 0 where
  pub level : v.indentation ≡ w.indentation
  pub asked : length v.clocks + 2 * n ≡ length w.clocks
  pub paired :
      tally (is_beginning p) v.notes + tally (is_end p) w.notes
      ≡ tally (is_beginning p) w.notes + tally (is_end p) v.notes

cons-of : (l : List ℕ) → 1 ≤ length l → (t : ℕ) × (later : List ℕ) × (l ≡ t ∷ later)
cons-of [] h = absurd (omega arith)
cons-of (t ∷ later) h = (t, later, refl)

now-some :
    (w : World)
    → 1 ≤ length w.clocks
    → (t : ℕ) × (later : List ℕ) × (now w ≡ some (t, record w { clocks = later }))
      × (length w.clocks ≡ suc (length later))
now-some w h = let (t, later, e) = cons-of w.clocks h in (t, later, rw e refl, ap length e)

unindent-indent : (i : ℕ) → unindent (indent i) ≡ i
unfolding unindent indent
unindent-indent i =
    let some_level : (i + 1 == 0) ≡ false = ground arith in rw some_level (omega arith)

-- Blocks under timers, with a clock that answers often enough, run to their end: the indentation
-- is as before, each timer has asked the clock twice, and at every name and indentation as many
-- timers have ended as have begun.
pub run-Kept :
    (code : Code) (w : World) (p : ℕ → ℕ → Bool)
    → 2 * timers code ≤ length w.clocks
    → Returns (run code w) (Kept p (timers code) w)
unfolding run
run-Kept done w p h = record { level = refl; asked = omega arith; paired = refl }
run-Kept (timed name body rest) w p h =
    let inside : World = record w {
      notes = w.notes ++ beginning name w.indentation ∷ [];
      indentation = indent w.indentation;
    } in
    let (t, later, e, fewer) = now-some inside (omega arith) in
    let (v, ve, k) =
      Returns-some (run body (record inside { clocks = later }))
        (run-Kept body (record inside { clocks = later }) p (omega (arith, fewer))) in
    let (u, last, ue, fewer') = now-some v (omega (arith, k.asked, fewer)) in
    let out = finish name t (u, record v { clocks = last }) in
    let (z, ze, r) =
      Returns-some (run rest out) (run-Kept rest out p (omega (arith, k.asked, fewer, fewer'))) in
    let level : out.indentation ≡ w.indentation =
      ap unindent k.level ∙ unindent-indent w.indentation in
    rw (e, ve, ue, ze)
      (record {
        level = r.level ∙ level;
        asked = omega (arith, r.asked, k.asked, fewer, fewer');
        paired = omega (
          arith,
          r.paired,
          k.paired,
          ap (λ i. weight (p name i)) level,
          tally-append (is_beginning p) w.notes (beginning name w.indentation ∷ []),
          tally-append (is_end p) w.notes (beginning name w.indentation ∷ []),
          tally-append (is_beginning p) v.notes
              (took name out.indentation ((u + word - t) % word) ∷ []),
          tally-append (is_end p) v.notes (took name out.indentation ((u + word - t) % word) ∷ []),
        );
      })
