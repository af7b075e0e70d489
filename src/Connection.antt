-- ===== src/Connection.antt =====
-- The class `Connection` of socket.h and socket.cpp: the loops of `recv` and `send`. What `::poll`,
-- `::recv` and `::send` answer is a list of rounds, one for each turn of the loop; when the list ends
-- the call has not returned yet.
pub mod Receive
pub mod Send
pub mod RoundTrip
mod Tests
use libmandrews.Prelude.{
  ℕ, zero, suc, ◌+◌, ◌-◌, ◌%◌, ◌^◌, Bool, true, false, List, [], ◌∷◌, ◌++◌, leb, if◌then◌else◌,
  length, take, drop,
}

-- `::poll` times out, fails, or finds the socket ready; then `::recv` fails or delivers some bytes.
pub data Arrival : Type 0 where
  quiet poll_failed recv_failed : Arrival
  received : List ℕ → Arrival

-- The same for `::send`, which accepts a number of bytes.
pub data Departure : Type 0 where
  quiet poll_failed send_failed : Departure
  sent : ℕ → Departure

-- The message at `error:`. That of `send` says in which call it failed.
pub data Failure : Type 0 where
  receive_failed poll_error send_to_error : Failure

-- A call that has returned true, one that has returned false after a message, and one that is still in
-- its loop. Each holds the bytes moved so far; the last the bytes or the number left.
pub data Outcome (Left : Type 0) : Type 0 where
  succeeded : List ℕ → Outcome Left
  failed : Failure → List ℕ → Outcome Left
  pending : Left → List ℕ → Outcome Left

-- `int recved = ::recv(…)` keeps the low 32 bits, and is negative if the highest of them is set.
abbrev pub to_int : ℕ → ℕ
to_int n = n % 2 ^ 32

abbrev pub is_negative : ℕ → Bool
is_negative n = leb (2 ^ 31) (to_int n)

-- `got` is the part of the buffer before the pointer `data`.
unfoldable pub recv : List Arrival → ℕ → List ℕ → Outcome ℕ
recv rounds zero got = succeeded got
recv [] (suc len) got = pending (suc len) got
recv (quiet ∷ rounds) (suc len) got = recv rounds (suc len) got
recv (poll_failed ∷ rounds) (suc len) got = failed receive_failed got
recv (recv_failed ∷ rounds) (suc len) got = failed receive_failed got
recv (received bytes ∷ rounds) (suc len) got =
    let rest =
      recv rounds (suc len - to_int (length bytes)) (got ++ take (to_int (length bytes)) bytes) in
    if is_negative (length bytes) then failed receive_failed got else rest

-- The buffer that is left starts at the pointer `data` and has `len` bytes.
unfoldable pub send : List Departure → List ℕ → List ℕ → Outcome (List ℕ)
send rounds [] wire = succeeded wire
send [] (b ∷ data') wire = pending (b ∷ data') wire
send (quiet ∷ rounds) (b ∷ data') wire = send rounds (b ∷ data') wire
send (poll_failed ∷ rounds) (b ∷ data') wire = failed poll_error wire
send (send_failed ∷ rounds) (b ∷ data') wire = failed send_to_error wire
send (sent k ∷ rounds) (b ∷ data') wire =
    send rounds (drop k (b ∷ data')) (wire ++ take k (b ∷ data'))

-- The templates for an object of `size` bytes, and for one whose bytes are `bytes`.
unfoldable pub recv_object : List Arrival → ℕ → Outcome ℕ
unfolding recv
recv_object rounds size = recv rounds size []

unfoldable pub send_object : List Departure → List ℕ → Outcome (List ℕ)
unfolding send
send_object rounds bytes = send rounds bytes []
