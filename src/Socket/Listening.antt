-- ===== src/Socket/Listening.antt =====
-- `Socket::listen`.
use libmandrews.Prelude.{
  ℕ, Bool, false, ◌||◌, Option, none, some, List, [], ◌∷◌, ◌++◌, map, if◌then◌else◌,
}
use libmandrews.Socket.{Link, Turn, Act, called, closed}

-- The connection on a descriptor that `accept` has answered with.
abbrev pub arrived : Option ℕ → List Link
arrived none = []
arrived (some sock) = (record { sock = sock; client = false }) ∷ []

-- The connections that are accepted in the turns before the shutdown is seen.
abbrev pub arrivals : List Turn → List Link
arrivals [] = []
arrivals (t ∷ turns) =
    if t.stopped
    then []
    else (if t.timed_out then arrivals turns else arrived t.accepted ++ arrivals turns)

abbrev pub sees_shutdown : List Turn → Bool
sees_shutdown [] = false
sees_shutdown (t ∷ turns) = t.stopped || sees_shutdown turns

-- One thread for each connection, which calls the callback with it and closes it.
abbrev pub called_and_closed : List Link → List (List Act)
called_and_closed threads = map (λ c. called c ∷ closed c ∷ []) threads
