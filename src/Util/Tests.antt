-- ===== src/Util/Tests.antt =====
-- A frame of a stack.
use libmandrews.Prelude.{◌≡◌, Option, none, some, arith}
use libmandrews.Output.Channel.{codes}
use libmandrews.Util.{Text, trace_line}
use libmandrews.Util.Trace.{frame, trace_line-frame}

abbrev whole : Text → Option Text
whole symbol = none

trace_line-frame_example :
    trace_line whole (frame (codes "a") (codes "f") (codes "1)")) ≡ some (codes "a:f()")
trace_line-frame_example =
    trace_line-frame whole (codes "a") (codes "f") (codes "1)") (omega arith, tt) (omega arith, tt)
      (omega arith, omega arith, tt) (omega arith, omega arith, (omega arith, omega arith, tt))
