-- ===== src/Shared/Promise.antt =====
-- What the handles of Shared.h promise, with no count and no flag: each handle is null or shares an
-- object, an object goes with its last handle, and a write parts a handle from the others.
use libmandrews.Prelude.{
  ℕ, ◌<◌, ◌≡◌, ◌≢◌, Bool, Option, none, some, List, [], ◌∷◌, ◌++◌, ◌==◌, if◌then◌else◌, update,
  tally,
}
use libmandrews.Shared.{
  Ptr, Handle, Store, address, copy_assign, move_assign, construct, copy_construct, move_construct,
  destruct, write,
}
use libmandrews.Shared.Invariant.{sharers}
use libmandrews.Shared.Release.{sole}

-- A handle: its object, and the destructor to call for it.
pub record Share : Type 0 where
  pub object : Ptr
  pub dtr : ℕ

abbrev pub share : Option Handle → Option Share
share none = none
share (some x) = some (record { object = x.m_cnt; dtr = x.m_dtr })

-- The live handles, and the objects that are gone, each with the destructor that was called.
pub record View : Type 0 where
  pub handles : ℕ → Option Share
  pub gone : List (ℕ × ℕ)

abbrev pub view : Store → View
view s = record { handles = λ j. share (s.obj j); gone = s.ran }

pub data Op : Type 0 where
  constructs : ℕ → ℕ → Op
  copies moves assigns_copy assigns_move : ℕ → ℕ → Op
  destructs writes : ℕ → Op

abbrev pub perform : Op → Ptr → Store → Option Store
perform (constructs o d) junk s = construct o d junk s
perform (copies o p) junk s = copy_construct o p junk s
perform (moves o p) junk s = move_construct o p junk s
perform (assigns_copy o p) junk s = copy_assign o p s
perform (assigns_move o p) junk s = move_assign o p s
perform (destructs o) junk s = destruct o s
perform (writes o) junk s = write o s

abbrev pub object_of : Option Share → Ptr
object_of none = none
object_of (some h) = h.object

abbrev pub dtr_of : Option Share → ℕ
dtr_of none = 0
dtr_of (some h) = h.dtr

abbrev pub nulled : Option Share → Option Share
nulled h = some (record { object = none; dtr = dtr_of h })

abbrev pub renamed : ℕ → Option Share → Option Share
renamed b h = some (record { object = some b; dtr = dtr_of h })

abbrev pub objects : View → ℕ → Ptr
objects v j = object_of (v.handles j)

abbrev pub put : ℕ → Option Share → View → View
put o h v = record v { handles = update v.handles o h }

abbrev pub alone : ℕ → ℕ → View → Bool
alone n o v = sole n (objects v) (objects v o)

-- Handle `o` lets go of its object.
abbrev pub leave : ℕ → ℕ → View → View
leave n o v = record v {
  gone =
      if alone n o v then v.gone ++ (address (objects v o), dtr_of (v.handles o)) ∷ [] else v.gone;
}

-- What an operation comes to; `b` is an object that has not been.
abbrev pub meaning : ℕ → ℕ → Op → View → View
meaning n b (constructs o d) v = put o (some (record { object = some b; dtr = d })) v
meaning n b (copies o p) v = put o (v.handles p) v
meaning n b (moves o p) v = put p (nulled (v.handles p)) (put o (v.handles p) v)
meaning n b (assigns_copy o p) v = put o (v.handles p) (leave n o v)
meaning n b (assigns_move o p) v = put p (nulled (v.handles p)) (put o (v.handles p) (leave n o v))
meaning n b (destructs o) v = put o none (leave n o v)
meaning n b (writes o) v = if alone n o v then v else put o (renamed b (v.handles o)) v

abbrev pub Alive : ℕ → ℕ → View → Type 0
Alive n o v = (o < n) × (h : Share) × (v.handles o ≡ some h)

abbrev pub NotNull : ℕ → ℕ → View → Type 0
NotNull n o v =
    (o < n) × (a : ℕ) × (d : ℕ) × (v.handles o ≡ some (record { object = some a; dtr = d }))

abbrev pub Vacant : ℕ → ℕ → View → Type 0
Vacant n o v = (o < n) × (v.handles o ≡ none)

-- The rules: a handle is made where there is none, null is neither copied nor written through, and an
-- assignment is between two handles.
abbrev pub Legal : ℕ → Op → View → Type 0
Legal n (constructs o d) v = Vacant n o v
Legal n (copies o p) v = Vacant n o v × NotNull n p v
Legal n (moves o p) v = Vacant n o v × Alive n p v
Legal n (assigns_copy o p) v = (o ≢ p) × Alive n o v × NotNull n p v
Legal n (assigns_move o p) v = (o ≢ p) × Alive n o v × Alive n p v
Legal n (destructs o) v = Alive n o v
Legal n (writes o) v = NotNull n o v

abbrev pub New : ℕ → ℕ → View → Type 0
New n b v = (sharers n (objects v) b ≡ 0) × (tally (λ e. e.0 == b) v.gone ≡ 0)

-- The operation comes to what it means, for some new object.
abbrev pub Refines : ℕ → Op → View → View → Type 0
Refines n op v w = (b : ℕ) × New n b v × (w ≡ meaning n b op v)
