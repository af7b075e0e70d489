-- ===== src/Socket/Descriptors/Sharing.antt =====
-- A client's `Connection` has the descriptor of its `Socket`.
use libmandrews.Prelude.{ℕ, ◌≡◌, ◌≢◌, false, Option, none, some, arith, ◌>>=◌, Returns}
use libmandrews.Socket.Descriptors.{Holder, State, opens, make_socket, connect, closes, destroy}

-- A client `o` of the socket `p` is made and closed, an object `q` is made, and `p` is destroyed.
abbrev pub reconnect : ℕ → ℕ → ℕ → ℕ → State → Option State
reconnect p o q fd s = do s ← connect p o s; s ← destroy o s; s ← make_socket q fd s; destroy p s

-- If a client makes a connection from its socket, closes it, makes another object for which the
-- system chooses the descriptor that is free again, and then destroys the socket, the descriptor
-- of that other object is closed, though the object is still there.
pub reconnect-closes :
    (s : State) (p o q : ℕ) (h : Holder)
    → s.obj p ≡ some h
    → o ≢ p
    → q ≢ p
    → Returns (reconnect p o q h.sock s) (λ t.
      (t.obj q ≡ some (record { sock = h.sock; client = false; file = s.opened }))
      × (t.files h.sock ≡ none))
unfolding connect destroy closes make_socket opens
reconnect-closes s p o q h live ne nq = ground arith
