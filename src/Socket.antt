-- ===== src/Socket.antt =====
-- The classes `Socket`, `TcpSocket` and `UnixSocket` of socket.h and socket.cpp, and the making of a
-- `Connection`. What the system calls answer is an argument.
pub mod Connecting
pub mod Listening
pub mod Descriptors
mod Tests
use libmandrews.Prelude.{
  ℕ, ◌+◌, ◌-◌, ◌%◌, ◌^◌, Bool, true, false, not, Option, none, some, List, [], ◌∷◌, ◌++◌, ltb,
  if◌then◌else◌, length,
}

-- A `Connection`: its descriptor, and whether it is the client's end.
pub record Link : Type 0 where
  pub sock : ℕ
  pub client : Bool

abbrev pub client_link : ℕ → Link
client_link sock = record { sock = sock; client = true }

-- The messages on the log.
pub data Report : Type 0 where
  bind_failed listen_failed connecting_failed : Report

-- `Connection::accept`: null if `accept4` fails.
unfoldable pub accept : Option ℕ → Option Link
accept none = none
accept (some sock) = some (record { sock = sock; client = false })

pub record Listener : Type 0 where
  pub fd : ℕ  -- _sock
  pub stopping : Bool  -- std::atomic<bool> _shutdown

-- The constructors; a refusal of `socket` is a fatal message, which aborts.
unfoldable pub make_socket : Option ℕ → Option Listener
make_socket none = none
make_socket (some fd) = some (record { fd = fd; stopping = false })

unfoldable pub shutdown : Listener → Listener
shutdown s = record s { stopping = true }

-- `TcpSocket::bind`
unfoldable pub bind : Bool → List Report
bind bound = if bound then [] else bind_failed ∷ []

-- `sizeof(sun_path)` on Linux.
abbrev pub sun_path_size : ℕ
sun_path_size = 108

-- `UnixSocket::bind`: `strcpy` writes a path that is too long behind the end of `sun_path`.
unfoldable pub unix_bind : List ℕ → Bool → Option (List Report)
unfolding bind
unix_bind path bound = if ltb (length path) sun_path_size then some (bind bound) else none

-- `TcpSocket::connect`, one attempt.
unfoldable pub tcp_connect : ℕ → Bool → Option Link × List Report
tcp_connect sock connected =
    if connected then (some (client_link sock), []) else (none, connecting_failed ∷ [])

-- One round of the loop of `UnixSocket::connect`: what `::connect` answers, and what `now()` returns
-- after the sleep.
pub record Try : Type 0 where
  pub connected : Bool
  pub clock : ℕ

abbrev pub us_per_sec : ℕ
us_per_sec = 1000000

-- `now() - start < 1 * US_PER_SEC`, on 64 bits
abbrev pub in_time : ℕ → ℕ → Bool
in_time start clock = ltb ((clock + 2 ^ 64 - start) % 2 ^ 64) us_per_sec

pub data Attempt : Type 0 where
  looping : Attempt
  finished : Option Link → List Report → Attempt

-- The attempt after the loop.
abbrev pub last_attempt : ℕ → Bool → Attempt
last_attempt sock true = finished (some (client_link sock)) []
last_attempt sock false = finished none (connecting_failed ∷ [])

-- `final` is the answer to the attempt after the loop; `msec_timeout` is not read.
unfoldable pub unix_connect : ℕ → ℕ → List Try → Bool → Attempt
unix_connect sock start [] final = looping
unix_connect sock start (t ∷ tries) final =
    let again = unix_connect sock start tries final in
    if t.connected
    then finished (some (client_link sock)) []
    else (if in_time start t.clock then again else last_attempt sock final)

-- One turn of the loop of `listen`: the value of `_shutdown`, whether `::poll` returns 0, and what
-- `accept4` answers.
pub record Turn : Type 0 where
  pub stopped : Bool
  pub timed_out : Bool
  pub accepted : Option ℕ

abbrev pub added : List Link → Option Link → List Link
added threads none = threads
added threads (some conn) = threads ++ conn ∷ []

-- The loop: `none` while no turn has seen the shutdown. A thread is known by its connection.
unfoldable pub listen_loop : List Turn → List Link → Option (List Link)
unfolding accept
listen_loop [] threads = none
listen_loop (t ∷ turns) threads =
    let next =
      listen_loop turns (if t.timed_out then threads else added threads (accept t.accepted)) in
    if t.stopped then some threads else next

-- What a thread does with its connection.
pub data Act : Type 0 where
  called : Link → Act
  closed : Link → Act

-- The threads that have been joined, and what each has done, in its order. What the threads do
-- among one another is in no order.
abbrev pub served : List Link → List (List Act)
served [] = []
served (c ∷ threads) = (called c ∷ closed c ∷ []) ∷ served threads

-- The handlers of SIGPIPE: the one that does nothing, and others.
pub data Handler : Type 0 where
  handle_sigpipe : Handler
  handler_at : ℕ → Handler

-- The `signal` of the system, as it is documented: it returns the handler until now, and the other is the
-- handler from now on.
abbrev pub signal : Handler → Handler → Handler × Handler
signal handle installed = (installed, handle)

-- What the threads have done, the handler while they ran and the one in the end, and what was reported.
pub record Listened : Type 0 where
  pub acts : List (List Act)
  pub meanwhile : Handler
  pub handler : Handler
  pub reports : List Report

-- The threads are joined, and the handler that `signal` returned is put back.
abbrev pub joined : Handler × Handler → Option (List Link) → Option Listened
joined (handle, installed) none = none
joined (handle, installed) (some threads) =
    let (_, restored) = signal handle installed in
    some (record { acts = served threads; meanwhile = installed; handler = restored; reports = [] })

-- `listen`; `listening` says whether `::listen` succeeds, and `installed` handles SIGPIPE.
unfoldable pub listen : Bool → Handler → List Turn → Option Listened
unfolding listen_loop
listen listening installed turns =
    if listening
    then joined (signal handle_sigpipe installed) (listen_loop turns [])
    else some (record {
      acts = [];
      meanwhile = installed;
      handler = installed;
      reports = listen_failed ∷ [];
    })
