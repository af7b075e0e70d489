-- ===== src/Socket/Tests.antt =====
-- Runs of `UnixSocket::connect` and `Socket::listen`.
use libmandrews.Prelude.{◌≡◌, refl, true, false, none, some, List, [], ◌∷◌, arith, update, Returns}
use libmandrews.Socket.{Try, Turn}
use libmandrews.Socket.Descriptors.{
  Holder, State, init, opens, make_socket, destroy, Reach, begin, makes, accepts, destroy-apart,
}
use libmandrews.Socket.Descriptors
use libmandrews.Socket.Descriptors.Sharing.{reconnect, reconnect-closes}

abbrev tries : List Try
tries =
    (record { connected = false; clock = 500100 })
    ∷ (record { connected = false; clock = 1000100 })
    ∷ []

abbrev turns : List Turn
turns =
    (record { stopped = false; timed_out = true; accepted = none })
    ∷ (record { stopped = false; timed_out = false; accepted = some 9 })
    ∷ (record { stopped = false; timed_out = false; accepted = none })
    ∷ (record { stopped = true; timed_out = false; accepted = some 10 })
    ∷ []

-- Object 0 is a socket on descriptor 3; it has accepted object 1 on descriptor 4.
abbrev listener : Holder
listener = record { sock = 3; client = false; file = 0 }

abbrev guest : Holder
guest = record { sock = 4; client = false; file = 1 }

abbrev one_socket : State
one_socket = record {
  files = update (λ _. none) 3 (some 0);
  opened = 1;
  obj = update (λ _. none) 0 (some listener);
}

abbrev serving : State
serving = record {
  files = update one_socket.files 4 (some 1);
  opened = 2;
  obj = update one_socket.obj 1 (some guest);
}

serving-Reach : Reach serving
unfolding make_socket Descriptors.accept opens
serving-Reach = accepts 0 1 4 (makes 0 3 begin refl refl) refl refl

destroy-apart_example :
    Returns
      (destroy 1 serving)
      (λ t. (t.files 4 ≡ none) × (t.files 3 ≡ some 0) × (t.obj 0 ≡ some listener))
destroy-apart_example = destroy-apart 1 0 guest listener serving-Reach (omega arith) refl refl

reconnect-closes_example :
    Returns
      (reconnect 0 1 2 3 one_socket)
      (λ t. (t.obj 2 ≡ some (record { sock = 3; client = false; file = 1 })) × (t.files 3 ≡ none))
reconnect-closes_example =
    reconnect-closes one_socket 0 1 2 listener refl (omega arith) (omega arith)
