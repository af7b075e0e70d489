-- ===== src/Registry/Signals.antt =====
-- The signal handlers of testing.h and testing.hpp: `SetHandler`, `default_handle` and `handle`. A signal
-- is its number on Linux. A signal that is raised in its own handler is delivered when that returns, and
-- nothing follows the `raise` there.
use libmandrews.Prelude.{
  ℕ, zero, suc, ◌≡◌, ◌⊎◌, refl, true, Option, none, some, List, [], ◌∷◌, ◌++◌, append_assoc, arith,
  ◌==◌, update, inl, ap, ◌∙◌,
}

abbrev pub sigint : ℕ
sigint = 2

abbrev pub sigill : ℕ
sigill = 4

abbrev pub sigabrt : ℕ
sigabrt = 6

abbrev pub sigfpe : ℕ
sigfpe = 8

abbrev pub sigsegv : ℕ
sigsegv = 11

abbrev pub sigterm : ℕ
sigterm = 15

-- SIG_DFL, which ends the process on the signals above, `default_handle`, and `handle<A>`.
pub data Handler : Type 0 where
  standard default_handle handle : Handler

-- What is on the log: the trace of the stack, and the message of `handle` on a signal.
pub data Event : Type 0 where
  trace : Event
  received : ℕ → Event

pub record Process : Type 0 where
  pub handlers : ℕ → Handler
  pub log : List Event

unfoldable pub signal : ℕ → Handler → Process → Process
signal n h p = record p { handlers = update p.handlers n h }

unfoldable pub set_handler : Handler → Process → Process
unfolding signal
set_handler h p =
    signal sigterm h
      (signal sigsegv h (signal sigint h (signal sigill h (signal sigfpe h (signal sigabrt h p)))))

abbrev pub print : Event → Process → Process
print e p = record p { log = p.log ++ e ∷ [] }

-- The bodies of `default_handle`, before its `raise`, and of `handle`, whose message aborts.
unfoldable pub default_handled : ℕ → Process → Process
unfolding signal
default_handled n p = signal n standard (print trace p)

unfoldable pub handled : ℕ → Process → Process
unfolding set_handler
handled n p = print (received n) (set_handler default_handle p)

-- The signal that ends the process, and the log. Each handler raises a signal again; `none` is a
-- bound on their number that is too small.
unfoldable pub deliver : ℕ → ℕ → Process → Option (ℕ × List Event)
unfolding default_handled handled
deliver zero n p = none
deliver (suc rounds) n p = elim (p.handlers n) [
  | standard ↦ some (n, p.log)
  | default_handle ↦ deliver rounds n (default_handled n p)
  | handle ↦ deliver rounds sigabrt (handled n p)
]

-- The signals of `SetHandler`.
abbrev pub IsCaught : ℕ → Type 0
IsCaught n =
    (n ≡ sigabrt) ⊎ (n ≡ sigfpe) ⊎ (n ≡ sigill) ⊎ (n ≡ sigint) ⊎ (n ≡ sigsegv) ⊎ (n ≡ sigterm)

set_handler_lem :
    (n : ℕ) (h : Handler) (p : Process) → IsCaught n → (set_handler h p).handlers n ≡ h
unfolding set_handler signal
set_handler_lem n h p c = ground (arith, c)

default_handle_lem :
    (k n : ℕ) (p : Process)
    → p.handlers n ≡ default_handle
    → deliver (suc (suc k)) n p ≡ some (n, p.log ++ trace ∷ [])
unfolding deliver signal default_handled
default_handle_lem k n p e =
    let here : (n == n) ≡ true = ground arith in rw (deliver, e, deliver, here) refl

-- A signal of SetHandler ends the process: with default_handle after one trace of the stack, by
-- that signal; with handle after its message and one trace, by SIGABRT, and the handlers need no
-- more than the given rounds.
pub deliver_lem :
    (k n : ℕ) (p : Process)
    → IsCaught n
    → (deliver (suc (suc k)) n (set_handler default_handle p) ≡ some (n, p.log ++ trace ∷ []))
      × (deliver (suc (suc (suc k))) n (set_handler handle p)
          ≡ some (sigabrt, p.log ++ received n ∷ trace ∷ []))
unfolding deliver set_handler handled
deliver_lem k n p c = (
  default_handle_lem k n (set_handler default_handle p) (set_handler_lem n default_handle p c),
  (rw (deliver, set_handler_lem n handle p c)
      (default_handle_lem k sigabrt
          (print (received n) (set_handler default_handle (set_handler handle p)))
          (set_handler_lem sigabrt default_handle (set_handler handle p) (inl refl))
        ∙ ap (λ l. some (sigabrt, l)) (append_assoc p.log (received n ∷ []) (trace ∷ [])))),
)
