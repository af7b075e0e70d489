-- ===== src/Util/System.antt =====
-- The wrapper `SysCall` of system calls, the clock `now` and the class `Auto` of util.h.
use libmandrews.Prelude.{
  ℕ, ◌+◌, ◌-◌, ◌*◌, ◌/◌, ◌%◌, ◌^◌, ◌≤◌, ◌<◌, ◌≡◌, refl, sym, ap, ◌∙◌, Bool, false, List, [], ◌∷◌,
  ◌++◌, append_assoc, append-nil, arith, leb, if◌then◌else◌,
}

-- The integer types that a system call returns; a value is its bits.
pub data Result : Type 0 where
  int32 uint32 int64 uint64 : Result

-- `(ssize_t)ret < 0`: a value of 32 bits keeps its sign, or has none.
unfoldable pub is_negative : Result → ℕ → Bool
is_negative int32 v = leb (2 ^ 31) v
is_negative uint32 v = false
is_negative int64 v = leb (2 ^ 63) v
is_negative uint64 v = leb (2 ^ 63) v

-- The wrapped call returns, or flushes a message on `FTL` with `errno`, which aborts.
pub data Called : Type 0 where
  returned : ℕ → Called
  aborted : ℕ → Called

unfoldable pub sys_call : Result → ℕ → ℕ → Called
unfolding is_negative
sys_call r ret errno = if is_negative r ret then aborted errno else returned ret

-- `struct timespec`
pub record Timespec : Type 0 where
  pub tv_sec : ℕ
  pub tv_nsec : ℕ

abbrev pub ns_per_sec : ℕ
ns_per_sec = 1000000000

abbrev pub us_per_sec : ℕ
us_per_sec = 1000000

unfoldable pub now : Timespec → ℕ
now t = (t.tv_sec * ns_per_sec + t.tv_nsec) % 2 ^ 64 / (ns_per_sec / us_per_sec)

abbrev pub nanoseconds : Timespec → ℕ
nanoseconds t = t.tv_sec * ns_per_sec + t.tv_nsec

-- Up to 2^64 nanoseconds the clock does not run back, and a difference of two times is at most one
-- microsecond more than the time between.
pub now_mono :
    (s t : Timespec)
    → nanoseconds s ≤ nanoseconds t
    → nanoseconds t < 2 ^ 64
    → (now s ≤ now t)
      × ((nanoseconds t - nanoseconds s) / 1000 ≤ now t - now s)
      × (now t - now s ≤ (nanoseconds t - nanoseconds s) / 1000 + 1)
unfolding now
now_mono s t h b = omega arith

-- A result of a type without a sign and of 32 bits is returned whatever it is, `-1` too.
pub sys_call-uint32 : (ret errno : ℕ) → sys_call uint32 ret errno ≡ returned ret
unfolding sys_call is_negative
sys_call-uint32 ret errno = refl

-- The statements of a block: calls, and `AUTO(expr)`, whose object calls `expr` when the block ends.
pub data Statement : Type 0 where
  calls autos : ℕ → Statement

-- The calls of a block in their order, where `later` are the objects so far, the last first.
unfoldable pub block : List Statement → List ℕ → List ℕ
block [] later = later
block (calls e ∷ code) later = e ∷ block code later
block (autos e ∷ code) later = block code (e ∷ later)

abbrev pub called : List Statement → List ℕ
called [] = []
called (calls e ∷ code) = e ∷ called code
called (autos e ∷ code) = called code

abbrev pub postponed : List Statement → List ℕ
postponed [] = []
postponed (calls e ∷ code) = postponed code
postponed (autos e ∷ code) = postponed code ++ e ∷ []

block-append :
    (code : List Statement) (later : List ℕ)
    → block code later ≡ called code ++ (postponed code ++ later)
unfolding block
block-append [] later = refl
block-append (calls e ∷ code) later = ap (◌∷◌ e) (block-append code later)
block-append (autos e ∷ code) later =
    block-append code (e ∷ later)
    ∙ ap (λ l. called code ++ l) (sym (append_assoc (postponed code) (e ∷ []) later))

-- The calls of a block come in order, and behind them those of AUTO, the last first.
pub block_lem : (code : List Statement) → block code [] ≡ called code ++ postponed code
block_lem code = block-append code [] ∙ ap (λ l. called code ++ l) (append-nil (postponed code))
