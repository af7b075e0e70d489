-- ===== src/Output/Tests.antt =====
-- Short messages on the log.
use libmandrews.Prelude.{List, ◌≤◌, true, ◌≡◌, refl, false, [], ◌∷◌, arith, Returns}
use libmandrews.Output.Channel.{brk, channel_color, codes}
use libmandrews.Output.Print.{newline, print}
use libmandrews.Output.Print.Bounds.{Fit, characters, Prompted, print-Fit}
use libmandrews.Output.Print.Rejoin.{rejoin, print-rejoin}
use libmandrews.Output.Dump.{Dump, Env, Event, dead, aborts, choose, flush}
use libmandrews.Output.Channel.{cerr}
use libmandrews.Output.Dump.Flush.{Ready, flush-aborts}
use libmandrews.Output.Text.{of_string, insert_all, copy, reset, copy-insert_all}

-- Room for three characters, and lines of two and one.
print-rejoin_example :
    Returns (print 10 5 (codes "ab\nc")) (λ lines. rejoin lines ≡ newline ∷ codes "ab\nc")
print-rejoin_example =
    print-rejoin 10 5 (codes "ab\nc") (omega arith) (omega arith) (λ e. cc)
      (omega arith, (omega arith, (omega arith, (λ e. cc), (omega arith, tt))))

-- A line of three characters, and one of five that goes on two lines.
print-Fit_example :
    Returns
      (print 10 5 (codes "ab\ncdefg"))
      (λ lines. Fit 10 5 lines × (characters lines ≤ 8) × Prompted true lines)
print-Fit_example = print-Fit 10 5 (codes "ab\ncdefg") (omega arith)

abbrev message : Dump
message = record {
  channel = brk;
  file = codes "f.c";
  line = codes "7";
  color = channel_color brk;
  ss = codes "why?";
  os = cerr;
}

abbrev env : Env
env = record { nverbose = false; ndebug = false; max_total_length = 80; indentation = 0 }

ready : Ready env message
unfolding channel_color
ready = record {
  color = refl;
  short = omega arith;
  plain_file = (omega arith, (omega arith, (omega arith, tt)));
  plain_line = (omega arith, tt);
  room = omega arith;
  narrow = omega arith;
}

-- The question is answered with something else first, then with no.
flush-aborts_example :
    Returns
      (flush env (codes "xn") message)
      (λ r. (shown : List Event) × (aborts shown ≡ true) × (r ≡ dead shown))
unfolding choose
flush-aborts_example = flush-aborts env (codes "xn") message ready refl

-- A copy of `hello`, to which `J` is written.
copy-insert_all_example :
    ((insert_all (copy (of_string (codes "hello"))) (codes "J" ∷ [])).str ≡ codes "Jello")
    × ((insert_all (reset (of_string (codes "hello"))) (codes "J" ∷ [])).str ≡ codes "J")
copy-insert_all_example = copy-insert_all (of_string (codes "hello")) (codes "J" ∷ [])
