-- ===== src/Output/Dump.antt =====
-- The class `Dump` of output.h: a message on a channel, and what a flush does with it. DEBUG and VERBOSE
-- are defined, as the build defines them; the environment can still turn them off. `none` is a failed
-- assertion, a read behind the end of the buffer of
-- `Print`, or a question whose answers have run out.
pub mod Flush
use libmandrews.Prelude.{
  ℕ, zero, suc, ◌+◌, ◌-◌, ◌≡◌, Bool, true, false, not, ◌||◌, Option, none, some, List, [], ◌∷◌,
  ◌++◌, ltb, ◌==◌, if◌then◌else◌, ◌>>=◌, ◌>>◌, guard,
}
use libmandrews.Output.Channel.{
  Channel, out, err, ftl, brk, dbg, dmy, buf, Stream, other, channel_stream, channel_color, codes,
}
use libmandrews.Output.Print.{Line, print}
use libmandrews.Output.Prompt.{Prefix, prompt}

pub record Dump : Type 0 where
  pub channel : Channel
  pub file : List ℕ
  pub line : List ℕ
  pub color : List ℕ
  pub ss : List ℕ
  pub os : Stream

-- The constructor for a channel, which may not be `BUF`, and the one for a stream.
unfoldable pub on_channel : Channel → List ℕ → List ℕ → Option Dump
unfolding channel_stream channel_color
on_channel buf file line = none
on_channel c file line = some (record {
  channel = c;
  file = file;
  line = line;
  color = channel_color c;
  ss = [];
  os = channel_stream c;
})

unfoldable pub on_stream : Stream → List ℕ → List ℕ → Dump
unfolding channel_color
on_stream os file line = record {
  channel = buf;
  file = file;
  line = line;
  color = channel_color buf;
  ss = [];
  os = os;
}

-- `operator<<`, with what the stream makes of the operand.
unfoldable pub put : Dump → List ℕ → Dump
put d text = record d { ss = d.ss ++ text }

-- The environment: NVERBOSE and NDEBUG are set, the width of the terminal, the indentation.
pub record Env : Type 0 where
  pub nverbose : Bool
  pub ndebug : Bool
  pub max_total_length : ℕ
  pub indentation : ℕ

unfoldable pub indent : ℕ → ℕ
indent i = i + 1

unfoldable pub unindent : ℕ → ℕ
unindent i = if i == 0 then 0 else i - 1

-- What a flush shows: lines on a stream behind a prompt, the question of `BRK`, the end of the program.
pub data Event : Type 0 where
  wrote : Stream → List ℕ → List Line → Event
  asked : Event
  aborted : Event

unfoldable pub output : Env → Dump → List ℕ → Option Event
unfolding print prompt
output env d tag =
    if env.nverbose
    then (do lines ← print env.max_total_length 0 d.ss; some (wrote d.os [] lines))
    else (do
      p ← prompt d.color tag d.file d.line env.indentation
      lines ← print env.max_total_length p.real_len d.ss
      some (wrote d.os p.text lines))

-- `Choice::operator>>` for `y` and `n`: it reads until one of them comes.
unfoldable pub choose : List ℕ → Option ℕ
choose [] = none
choose (t ∷ input) = let again = choose input in if t == b'y' || t == b'n' then some t else again

abbrev question : Option ℕ → Option (List Event)
question none = none
question (some t) = some (if t == b'n' then asked ∷ aborted ∷ [] else asked ∷ [])

-- The switch of `flush`.
unfoldable pub events : Env → List ℕ → Dump → Channel → Option (List Event)
unfolding output choose
events env input d out = do e ← output env d (codes "OUT"); some (e ∷ [])
events env input d err = do e ← output env d (codes "ERR"); some (e ∷ [])
events env input d ftl = do e ← output env d (codes "FTL"); some (e ∷ aborted ∷ [])
events env input d brk = do
  e ← output env d (codes "BRK")
  rest ← question (choose input)
  some (e ∷ rest)
events env input d buf = do e ← output env d (codes "BUF"); some (e ∷ [])
events env input d dbg =
    if env.ndebug then some [] else (do e ← output env d (codes "DBG"); some (e ∷ []))
events env input d dmy = some []

-- How a call of `flush` ends: back at its caller, or in `abort`, which does not return.
pub data Flushed : Type 0 where
  returned : List Event → Dump → Flushed
  dead : List Event → Flushed

abbrev pub aborts : List Event → Bool
aborts [] = false
aborts (aborted ∷ l) = true
aborts (asked ∷ l) = aborts l
aborts (wrote os p lines ∷ l) = aborts l

-- `flush`, which leaves the message empty if it gets there.
unfoldable pub flush : Env → List ℕ → Dump → Option Flushed
unfolding events
flush env input d = do
  shown ← events env input d d.channel
  some (if aborts shown then dead shown else returned shown (record d { ss = [] }))
