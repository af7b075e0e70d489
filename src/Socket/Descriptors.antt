-- ===== src/Socket/Descriptors.antt =====
-- The descriptors of the process, which the constructors and destructors of `Socket` and `Connection`
-- open and close. An object, a `Socket` or a `Connection`, is known by a number, and so is each file
-- that a descriptor has ever been open on.
pub mod Sharing
use libmandrews.Prelude.{
  ℕ, ◌+◌, ◌<◌, ◌≡◌, ◌≢◌, refl, sym, ap, ◌∙◌, Bool, true, false, Option, none, some, arith, ◌==◌,
  if◌then◌else◌, update, ◌>>=◌, Returns, Option-cases, inl, inr, ℕ_discrete,
}
use mathlib.Core.Path.{subst}

-- `_sock` and `_client` of an object, and the file that `_sock` was opened on for it.
pub record Holder : Type 0 where
  pub sock : ℕ
  pub client : Bool
  pub file : ℕ

pub record State : Type 0 where
  pub files : ℕ → Option ℕ
  pub opened : ℕ  -- the number of the next file
  pub obj : ℕ → Option Holder

abbrev pub init : State
init = record { files = λ _. none; opened = 0; obj = λ _. none }

-- A system call that opens a file answers with a descriptor that is free; `o` is the new object.
unfoldable pub opens : Option ℕ → ℕ → ℕ → State → Option State
opens (some file) o fd s = none
opens none o fd s = some (record s {
  files = update s.files fd (some s.opened);
  opened = s.opened + 1;
  obj = update s.obj o (some (record { sock = fd; client = false; file = s.opened }));
})

-- `TcpSocket()` and `UnixSocket()`, where `socket` succeeds.
unfoldable pub make_socket : ℕ → ℕ → State → Option State
unfolding opens
make_socket o fd s = opens (s.files fd) o fd s

-- `Connection::accept`, where `accept4` succeeds, on the socket `p`.
unfoldable pub accept : ℕ → ℕ → ℕ → State → Option State
unfolding opens
accept p o fd s = do _ ← s.obj p; opens (s.files fd) o fd s

-- `new Connection(_sock, …, true)`
unfoldable pub connect : ℕ → ℕ → State → Option State
connect p o s = do
  h ← s.obj p
  some (record s { obj = update s.obj o (some (record h { client = true })) })

unfoldable pub closes : Option Holder → ℕ → State → Option State
closes none o s = none
closes (some h) o s =
    some (record s { files = update s.files h.sock none; obj = update s.obj o none })

-- `~Socket` and `~Connection`, which `close()` of a connection runs.
unfoldable pub destroy : ℕ → State → Option State
unfolding closes
destroy o s = closes (s.obj o) o s

-- Programs of a server: it makes no connections of its own.
pub data Reach : State → Type 0 where
  begin : Reach init
  makes :
      {s t : State} (o fd : ℕ) → Reach s → s.obj o ≡ none → make_socket o fd s ≡ some t → Reach t
  accepts :
      {s t : State} (p o fd : ℕ) → Reach s → s.obj o ≡ none → accept p o fd s ≡ some t → Reach t
  destroys : {s t : State} (o : ℕ) → Reach s → destroy o s ≡ some t → Reach t

record Inv (s : State) : Type 0 where
  own :
      (o : ℕ) (h : Holder) → s.obj o ≡ some h → (s.files h.sock ≡ some h.file) × (h.file < s.opened)
  apart : (o p : ℕ) (h k : Holder) → s.obj o ≡ some h → s.obj p ≡ some k → h.file ≡ k.file → o ≡ p

opens-Inv :
    (f : Option ℕ) (o fd : ℕ) (s : State)
    → s.files fd ≡ f
    → s.obj o ≡ none
    → Inv s
    → (t : State) → opens f o fd s ≡ some t
    → Inv t
unfolding opens
opens-Inv (some file) o fd s free new v t e = ground arith
opens-Inv none o fd s free new v t e =
    subst (λ r. Returns r Inv) e
      (record {
        own = λ q h l. ground (arith, v.own q h);
        apart = λ q r h k l m n. ground (arith, v.own q h, v.own r k, v.apart q r h k);
      })

closes-Inv :
    (m : Option Holder) (o : ℕ) (s : State)
    → s.obj o ≡ m
    → Inv s
    → (t : State) → closes m o s ≡ some t
    → Inv t
unfolding closes
closes-Inv none o s l v t e = ground arith
closes-Inv (some h) o s l v t e =
    subst (λ r. Returns r Inv) e
      (record {
        own = λ q k m. ground (arith, v.own q k, v.own o h, v.apart q o k h);
        apart = λ q r j k m n. ground (arith, v.apart q r j k);
      })

accept-opens :
    (p o fd : ℕ) (s t : State) → accept p o fd s ≡ some t → opens (s.files fd) o fd s ≡ some t
unfolding accept
accept-opens p o fd s t e = ground arith

Reach-Inv : {s : State} → Reach s → Inv s
unfolding make_socket destroy
Reach-Inv begin = record { own = λ o h e. ground arith; apart = λ o p h k e f g. ground arith }
Reach-Inv (makes {s} {t} o fd r new e) = opens-Inv (s.files fd) o fd s refl new (Reach-Inv r) t e
Reach-Inv (accepts {s} {t} p o fd r new e) =
    opens-Inv (s.files fd) o fd s refl new (Reach-Inv r) t (accept-opens p o fd s t e)
Reach-Inv (destroys {s} {t} o r e) = closes-Inv (s.obj o) o s refl (Reach-Inv r) t e

-- In every state that a server reaches by making sockets, accepting connections and destroying
-- both, in any order and with any free descriptors for the system to choose, destroying an object
-- closes its descriptor, and every other object keeps its own, open on the file it was opened on.
pub destroy-apart :
    {s : State} (o p : ℕ) (h k : Holder)
    → Reach s
    → o ≢ p
    → s.obj o ≡ some h
    → s.obj p ≡ some k
    → Returns
        (destroy o s)
        (λ t. (t.files h.sock ≡ none) × (t.files k.sock ≡ some k.file) × (t.obj p ≡ some k))
unfolding destroy closes
destroy-apart {s} o p h k r ne live other =
    let v = Reach-Inv r in
    let (mine, _) = v.own o h live in
    let (its, _) = v.own p k other in
    let unshared : h.sock ≢ k.sock = λ e. ne (v.apart o p h k live other (ground arith)) in
    rw live (ground arith)
