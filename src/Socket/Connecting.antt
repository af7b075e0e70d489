-- ===== src/Socket/Connecting.antt =====
-- `UnixSocket::connect`.
use libmandrews.Prelude.{
  ℕ, ◌≡◌, refl, Bool, true, false, ◌||◌, not, none, some, List, [], ◌∷◌, arith, if◌then◌else◌,
  Bool-cases, inl, inr,
}
use libmandrews.Socket.{
  client_link, connecting_failed, Try, in_time, finished, last_attempt, unix_connect,
}

-- Some round ends too late for another.
abbrev pub expires : ℕ → List Try → Bool
expires start [] = false
expires start (t ∷ tries) = not (in_time start t.clock) || expires start tries

-- An attempt succeeds in a round up to the first that ends after the second.
abbrev pub reached : ℕ → List Try → Bool
reached start [] = false
reached start (t ∷ tries) =
    t.connected || (if in_time start t.clock then reached start tries else false)

-- Once an attempt has succeeded or the clock has passed a second, UnixSocket::connect has
-- returned: a connection if an attempt up to then succeeded or else the one after the loop did,
-- and otherwise null with a message.
pub unix_connect_lem :
    (sock start : ℕ) (tries : List Try) (final : Bool)
    → (expires start tries || reached start tries) ≡ true
    → unix_connect sock start tries final ≡ (
        if reached start tries || final
        then finished (some (client_link sock)) []
        else finished none (connecting_failed ∷ []))
unfolding unix_connect
unix_connect_lem sock start [] final h = cc
unix_connect_lem sock start (t ∷ tries) final h = elim (Bool-cases t.connected) [
  | inl ok ↦ rw ok refl
  | inr refused ↦ elim (Bool-cases (in_time start t.clock)) [
    | inl early ↦
        let h' : (expires start tries || reached start tries) ≡ true = ground arith in
        rw (refused, early) (unix_connect_lem sock start tries final h')
    | inr late ↦ rw (refused, late) (by_final final)
  ]
]
  where
    by_final :
        (b : Bool)
        → last_attempt sock b ≡ (
            if b
            then finished (some (client_link sock)) []
            else finished none (connecting_failed ∷ []))
    by_final true = refl
    by_final false = refl
