-- ===== src/Connection/Send.antt =====
-- `Connection::send`.
use libmandrews.Prelude.{
  ℕ, zero, suc, ◌≤◌, ◌≡◌, ◌≢◌, refl, sym, ap, ◌∙◌, List, [], ◌∷◌, ◌++◌, arith, length, length-drop,
  take, drop, take-append-drop, append_assoc, append-nil,
}
use libmandrews.Connection.{
  Departure, quiet, poll_failed, send_failed, sent, receive_failed, Outcome, succeeded, failed,
  pending, send,
}

-- What a call of `send` leaves behind: on success the wire has all the bytes; else it has some of
-- them, in order, and others are left. A failure names the call that failed.
abbrev pub Sent : List ℕ → List ℕ → Outcome (List ℕ) → Type 0
Sent bytes wire (succeeded out) = out ≡ wire ++ bytes
Sent bytes wire (failed f out) =
    (f ≢ receive_failed) × (rest : List ℕ) × (rest ≢ []) × (out ++ rest ≡ wire ++ bytes)
Sent bytes wire (pending rest out) = (rest ≢ []) × (out ++ rest ≡ wire ++ bytes)

module _ (k : ℕ) (bytes wire : List ℕ) where
  join : (wire ++ take k bytes) ++ drop k bytes ≡ wire ++ bytes
  join =
      append_assoc wire (take k bytes) (drop k bytes)
      ∙ ap (λ l. wire ++ l) (take-append-drop k bytes)

  -- What holds of the rest of the call holds of the call.
  Sent-step :
      (o : Outcome (List ℕ)) → Sent (drop k bytes) (wire ++ take k bytes) o → Sent bytes wire o
  Sent-step (succeeded out) h = h ∙ join
  Sent-step (failed f out) (ne, rest, some_left, e) = (ne, rest, some_left, e ∙ join)
  Sent-step (pending rest out) (some_left, e) = (some_left, e ∙ join)

-- Connection::send returns true only when all bytes have been handed over in order; on a failure,
-- which names the call that failed, and before it returns, a proper prefix has been.
pub send_lem :
    (rounds : List Departure) (bytes wire : List ℕ) → Sent bytes wire (send rounds bytes wire)
unfolding send
send_lem rounds [] wire = sym (append-nil wire)
send_lem [] (b ∷ bytes) wire = (λ e. cc, refl)
send_lem (quiet ∷ rounds) (b ∷ bytes) wire = send_lem rounds (b ∷ bytes) wire
send_lem (poll_failed ∷ rounds) (b ∷ bytes) wire = (λ e. cc, b ∷ bytes, λ e. cc, refl)
send_lem (send_failed ∷ rounds) (b ∷ bytes) wire = (λ e. cc, b ∷ bytes, λ e. cc, refl)
send_lem (sent k ∷ rounds) (b ∷ bytes) wire =
    Sent-step k (b ∷ bytes) wire _
      (send_lem rounds (drop k (b ∷ bytes)) (wire ++ take k (b ∷ bytes)))

-- how many rounds hand over at least one byte before any call fails
abbrev pub productive : List Departure → ℕ
productive [] = 0
productive (quiet ∷ rounds) = productive rounds
productive (poll_failed ∷ rounds) = 0
productive (send_failed ∷ rounds) = 0
productive (sent zero ∷ rounds) = productive rounds
productive (sent (suc k) ∷ rounds) = suc (productive rounds)

-- Connection::send returns true, with all bytes handed over, if at least as many rounds hand over
-- a byte as there are bytes, before any call fails.
pub send-productive :
    (rounds : List Departure) (bytes wire : List ℕ)
    → length bytes ≤ productive rounds
    → send rounds bytes wire ≡ succeeded (wire ++ bytes)
unfolding send
send-productive rounds [] wire h = ap succeeded (sym (append-nil wire))
send-productive [] (b ∷ bytes) wire h = absurd (omega arith)
send-productive (quiet ∷ rounds) (b ∷ bytes) wire h = send-productive rounds (b ∷ bytes) wire h
send-productive (poll_failed ∷ rounds) (b ∷ bytes) wire h = absurd (omega arith)
send-productive (send_failed ∷ rounds) (b ∷ bytes) wire h = absurd (omega arith)
send-productive (sent zero ∷ rounds) (b ∷ bytes) wire h =
    rw append-nil (send-productive rounds (b ∷ bytes) wire h)
send-productive (sent (suc k) ∷ rounds) (b ∷ bytes) wire h =
    send-productive rounds (drop k bytes) (wire ++ b ∷ take k bytes)
      (omega (arith, length-drop k bytes))
    ∙ ap succeeded (
        append_assoc wire (b ∷ take k bytes) (drop k bytes)
        ∙ ap (λ l. wire ++ b ∷ l) (take-append-drop k bytes))
