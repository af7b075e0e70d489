-- ===== src/Connection/Tests.antt =====
-- Calls of `send` and `recv` on a few bytes.
use libmandrews.Prelude.{ℕ, ◌≡◌, refl, List, [], ◌∷◌, arith}
use libmandrews.Connection.{
  Arrival, quiet, recv_failed, received, Departure, sent, succeeded, recv, send,
}
use libmandrews.Connection.Receive.{stream, Received, recv_lem}
use libmandrews.Connection.RoundTrip.{recv-send}

abbrev bytes : List ℕ
bytes = 10 ∷ 20 ∷ 30 ∷ []

-- two bytes, a pause, and the third
abbrev arriving : List Arrival
arriving = received (10 ∷ 20 ∷ []) ∷ quiet ∷ received (30 ∷ []) ∷ []

abbrev cut : List Arrival
cut = received (10 ∷ 20 ∷ []) ∷ recv_failed ∷ []

abbrev leaving : List Departure
leaving = sent 1 ∷ quiet ∷ sent 2 ∷ []

recv-send_example : recv arriving 3 [] ≡ succeeded bytes
unfolding send
recv-send_example =
    recv-send leaving arriving bytes bytes [] refl refl tt
      (omega arith, omega arith, (omega arith, omega arith, tt))

recv_lem_example : Received (stream cut) [] 3 (recv cut 3 [])
recv_lem_example = recv_lem cut 3 (omega arith, omega arith, tt)
