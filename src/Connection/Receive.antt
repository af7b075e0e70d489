-- ===== src/Connection/Receive.antt =====
-- `Connection::recv`.
use libmandrews.Prelude.{
  ℕ, zero, suc, ◌+◌, ◌-◌, ◌≤◌, ◌<◌, ◌≡◌, refl, ap, ◌∙◌, false, List, [], ◌∷◌, ◌++◌, arith, length,
  length-append, take, append_assoc, append-nil,
}
use libmandrews.Connection.{
  Arrival, quiet, poll_failed, recv_failed, received, Outcome, succeeded, failed, pending, to_int,
  is_negative, recv,
}

-- What is documented of `::recv`: it delivers at most as many bytes as it is asked for, and at most
-- 0x7ffff000.
abbrev pub max_transfer : ℕ
max_transfer = 0x7ffff000

abbrev pub Fits : List Arrival → ℕ → Type 0
Fits [] len = Unit
Fits (received bytes ∷ rounds) len =
    (length bytes ≤ len) × (length bytes ≤ max_transfer) × Fits rounds (len - length bytes)
Fits (quiet ∷ rounds) len = Fits rounds len
Fits (poll_failed ∷ rounds) len = Unit
Fits (recv_failed ∷ rounds) len = Unit

-- The bytes that arrive, in order.
abbrev pub stream : List Arrival → List ℕ
stream [] = []
stream (received bytes ∷ rounds) = bytes ++ stream rounds
stream (quiet ∷ rounds) = stream rounds
stream (poll_failed ∷ rounds) = stream rounds
stream (recv_failed ∷ rounds) = stream rounds

pub take-all {ℓ} : {A : Type ℓ} (xs : List A) → take (length xs) xs ≡ xs
take-all [] = refl
take-all (x ∷ xs) = ap (λ l. x ∷ l) (take-all xs)

-- What a call of `recv` for `len` bytes leaves behind, if the socket delivers `bytes` and the buffer
-- already holds `got`: on success `len` bytes more, the first of the stream; in any case a prefix of it.
abbrev pub Received : List ℕ → List ℕ → ℕ → Outcome ℕ → Type 0
Received bytes got len (succeeded buf) =
    (length buf ≡ length got + len) × (rest : List ℕ) × (buf ++ rest ≡ got ++ bytes)
Received bytes got len (failed f buf) =
    (length buf < length got + len) × (rest : List ℕ) × (buf ++ rest ≡ got ++ bytes)
Received bytes got len (pending left buf) =
    (0 < left)
    × (length buf + left ≡ length got + len)
    × (rest : List ℕ) × (buf ++ rest ≡ got ++ bytes)

-- One chunk earlier.
Received-step :
    (bytes ys got : List ℕ) (len : ℕ) (o : Outcome ℕ)
    → length bytes ≤ len
    → Received ys (got ++ bytes) (len - length bytes) o
    → Received (bytes ++ ys) got len o
Received-step bytes ys got len (succeeded buf) h (full, rest, e) =
    (omega (arith, full, length-append got bytes), rest, e ∙ append_assoc got bytes ys)
Received-step bytes ys got len (failed f buf) h (part, rest, e) =
    (omega (arith, part, length-append got bytes), rest, e ∙ append_assoc got bytes ys)
Received-step bytes ys got len (pending left buf) h (pos, sum, rest, e) =
    (pos, omega (arith, sum, length-append got bytes), rest, e ∙ append_assoc got bytes ys)

recv-Received :
    (rounds : List Arrival) (len : ℕ) (got : List ℕ)
    → Fits rounds len
    → Received (stream rounds) got len (recv rounds len got)
unfolding recv
recv-Received rounds zero got fits = (omega arith, stream rounds, refl)
recv-Received [] (suc len) got fits = (omega arith, omega arith, [], refl)
recv-Received (quiet ∷ rounds) (suc len) got fits = recv-Received rounds (suc len) got fits
recv-Received (poll_failed ∷ rounds) (suc len) got fits = (omega arith, stream rounds, refl)
recv-Received (recv_failed ∷ rounds) (suc len) got fits = (omega arith, stream rounds, refl)
recv-Received (received bytes ∷ rounds) (suc len) got (short, small, fits) =
    let whole : to_int (length bytes) ≡ length bytes = omega arith in
    let ok : is_negative (length bytes) ≡ false = ground arith in
    rw (ok, whole, take-all)
      (Received-step bytes (stream rounds) got (suc len) _ short
        (recv-Received rounds (suc len - length bytes) (got ++ bytes) fits))

-- If recv of the system delivers at most what it is asked for and at most its documented maximum,
-- Connection::recv returns true only with exactly the first len bytes that arrive; on a failure
-- or before it returns it holds fewer, the first that arrived.
pub recv_lem :
    (rounds : List Arrival) (len : ℕ)
    → Fits rounds len
    → Received (stream rounds) [] len (recv rounds len [])
recv_lem rounds len fits = recv-Received rounds len [] fits

-- Rounds that deliver nothing: the peer is silent, or has closed and `::recv` returns 0.
abbrev pub Idle : List Arrival → Type 0
Idle [] = Unit
Idle (quiet ∷ rounds) = Idle rounds
Idle (received bytes ∷ rounds) = (bytes ≡ []) × Idle rounds
Idle (poll_failed ∷ rounds) = ⊥
Idle (recv_failed ∷ rounds) = ⊥

-- While the peer sends nothing or has closed, so that recv of the system returns 0, a call of
-- Connection::recv that wants bytes neither succeeds nor fails.
pub recv-Idle :
    (rounds : List Arrival) (len : ℕ) (got : List ℕ)
    → Idle rounds
    → recv rounds (suc len) got ≡ pending (suc len) got
unfolding recv
recv-Idle [] len got idle = refl
recv-Idle (quiet ∷ rounds) len got idle = recv-Idle rounds len got idle
recv-Idle (poll_failed ∷ rounds) len got idle = absurd idle
recv-Idle (recv_failed ∷ rounds) len got idle = absurd idle
recv-Idle (received bytes ∷ rounds) len got (none_came, idle) =
    let zero_off : suc len - 0 ≡ suc len = omega arith in
    rw (none_came, append-nil, zero_off) (recv-Idle rounds len got idle)
