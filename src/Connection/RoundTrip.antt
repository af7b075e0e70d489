-- ===== src/Connection/RoundTrip.antt =====
-- Bytes through `Connection::send` on one side and `Connection::recv` on the other.
use mathlib.Core.Path.{subst}
use libmandrews.Prelude.{
  ℕ, zero, suc, ◌-◌, ◌≤◌, ◌≡◌, refl, ap, ◌∙◌, false, List, [], ◌∷◌, ◌++◌, arith, length,
  length-append,
}
use libmandrews.Connection.{
  Arrival, quiet, poll_failed, recv_failed, received, Departure, succeeded, to_int, is_negative,
  recv, send,
}
use libmandrews.Connection.Receive.{Fits, stream, take-all, Received, recv_lem}
use libmandrews.Connection.Send.{Sent, send_lem}

-- No call fails.
abbrev pub Clean : List Arrival → Type 0
Clean [] = Unit
Clean (quiet ∷ rounds) = Clean rounds
Clean (received bytes ∷ rounds) = Clean rounds
Clean (poll_failed ∷ rounds) = ⊥
Clean (recv_failed ∷ rounds) = ⊥

-- With enough bytes under way and no failing call, `recv` returns true.
pub recv-Clean :
    (rounds : List Arrival) (len : ℕ) (got : List ℕ)
    → Clean rounds
    → Fits rounds len
    → len ≤ length (stream rounds)
    → (buf : List ℕ) × (recv rounds len got ≡ succeeded buf)
unfolding recv
recv-Clean rounds zero got clean fits enough = (got, refl)
recv-Clean [] (suc len) got clean fits enough = absurd (omega arith)
recv-Clean (quiet ∷ rounds) (suc len) got clean fits enough =
    recv-Clean rounds (suc len) got clean fits enough
recv-Clean (poll_failed ∷ rounds) (suc len) got clean fits enough = absurd clean
recv-Clean (recv_failed ∷ rounds) (suc len) got clean fits enough = absurd clean
recv-Clean (received bytes ∷ rounds) (suc len) got clean (short, small, fits) enough =
    let whole : to_int (length bytes) ≡ length bytes = omega arith in
    let ok : is_negative (length bytes) ≡ false = ground arith in
    rw (ok, whole, take-all)
      (recv-Clean rounds (suc len - length bytes) (got ++ bytes) clean fits
        (omega (arith, length-append bytes (stream rounds))))

-- Two ways to cut a list at one place are the same.
append-inj_left {ℓ} :
    {A : Type ℓ} (xs ys zs ws : List A) → length xs ≡ length ys → xs ++ zs ≡ ys ++ ws → xs ≡ ys
append-inj_left [] [] zs ws n e = refl
append-inj_left [] (y ∷ ys) zs ws n e = absurd (omega arith)
append-inj_left (x ∷ xs) [] zs ws n e = absurd (omega arith)
append-inj_left (x ∷ xs) (y ∷ ys) zs ws n e = cc (append-inj_left xs ys zs ws (omega arith) (cc))

-- If send has returned true for some bytes and what it put on the wire arrives first on the other
-- side with no failing call, within what the system call may deliver, recv for as many bytes
-- returns true with exactly those bytes.
pub recv-send :
    (out : List Departure) (rounds : List Arrival) (bytes wire later : List ℕ)
    → send out bytes [] ≡ succeeded wire
    → stream rounds ≡ wire ++ later
    → Clean rounds
    → Fits rounds (length bytes)
    → recv rounds (length bytes) [] ≡ succeeded bytes
recv-send out rounds bytes wire later done arrives clean fits =
    let all_sent : wire ≡ bytes = subst (Sent bytes []) done (send_lem out bytes []) in
    let on_wire : stream rounds ≡ bytes ++ later = arrives ∙ ap (λ l. l ++ later) all_sent in
    let enough : length bytes ≤ length (stream rounds) =
      omega (arith, ap length on_wire, length-append bytes later) in
    let (buf, ends) = recv-Clean rounds (length bytes) [] clean fits enough in
    let (full, rest, e) =
      subst (Received (stream rounds) [] (length bytes)) ends
        (recv_lem rounds (length bytes) fits) in
    ends ∙ ap succeeded (append-inj_left buf bytes rest later (omega (arith, full)) (e ∙ on_wire))
