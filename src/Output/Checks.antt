-- ===== src/Output/Checks.antt =====
-- The macros of output.h on messages for developers, `D`, `EXPECT`, `ASSERT` and `ASSERT_EQ` to
-- `ASSERT_LT`, with `ASSERT` of cases.h, and `STATIC_CALL`, as the build's flags leave them.
use libmandrews.Prelude.{
  ℕ, ◌+◌, ◌≤◌, ◌<◌, ◌≡◌, ◌≢◌, ◌↔◌, Bool, false, not, ◌&&◌, List, [], ◌∷◌, ◌++◌, ltb, leb, ◌==◌,
  if◌then◌else◌, arith,
}
use libmandrews.Output.Channel.{Channel, ftl, brk, dbg}

-- NDEBUG and NCAUTIOUS.
pub record Flags : Type 0 where
  pub ndebug : Bool
  pub ncautious : Bool

abbrev pub debug : Flags → Bool
debug f = not f.ndebug

abbrev pub cautious : Flags → Bool
cautious f = not f.ncautious

-- What a statement does: it evaluates its condition, flushes a message on a channel with its operands,
-- or calls `Run`.
pub data Act : Type 0 where
  evaluates runs : Act
  flushes : Channel → Act

-- `D(channel) << …`; without DEBUG it is a statement under `if(false)`.
unfoldable pub d : Flags → Channel → List Act
d f channel = if debug f then flushes channel ∷ [] else []

-- `EXPECT(condition)`
unfoldable pub expect : Flags → Bool → List Act
unfolding d
expect f condition = evaluates ∷ (if not condition then d f brk else [])

-- `ASSERT(condition)`, and that of cases.h.
unfoldable pub check : Flags → Bool → List Act
unfolding expect
check f condition = if cautious f then expect f condition else []

unfoldable pub case_check : Flags → Bool → List Act
unfolding d
case_check f condition =
    if cautious f then evaluates ∷ (if not condition then d f ftl else []) else []

-- `ASSERT_EQ`, `ASSERT_NE`, `ASSERT_GE`, `ASSERT_LE`, `ASSERT_GT` and `ASSERT_LT`.
pub data Comparison : Type 0 where
  eq ne ge le gt lt : Comparison

unfoldable pub compares : Comparison → ℕ → ℕ → Bool
compares eq x y = x == y
compares ne x y = not (x == y)
compares ge x y = leb y x
compares le x y = leb x y
compares gt x y = ltb y x
compares lt x y = ltb x y

unfoldable pub check_that : Flags → Comparison → ℕ → ℕ → List Act
unfolding check compares
check_that f c x y = check f (compares c x y)

-- The constructor of `Init`, where `message` is not empty or is.
unfoldable pub static_call : Flags → Bool → Bool → List Act
unfolding d
static_call f message success =
    (if message then d f dbg else [])
    ++ (runs ∷ [])
    ++ (if message && success then d f dbg else [])
    ++ (if message && not success then d f brk else [])

abbrev pub Holds : Comparison → ℕ → ℕ → Type 0
Holds eq x y = x ≡ y
Holds ne x y = x ≢ y
Holds ge x y = y ≤ x
Holds le x y = x ≤ y
Holds gt x y = y < x
Holds lt x y = x < y

-- A comparison that is checked says nothing exactly if it holds.
pub check_that-Holds :
    (c : Comparison) (x y : ℕ)
    → (check_that (record { ndebug = false; ncautious = false }) c x y ≡ evaluates ∷ [])
      ↔ Holds c x y
unfolding check_that check expect d compares
check_that-Holds eq x y = ground arith
check_that-Holds ne x y = ground arith
check_that-Holds ge x y = ground arith
check_that-Holds le x y = ground arith
check_that-Holds gt x y = ground arith
check_that-Holds lt x y = ground arith

abbrev run_count : List Act → ℕ
run_count [] = 0
run_count (runs ∷ acts) = 1 + run_count acts
run_count (_ ∷ acts) = run_count acts

-- Whatever the flags, the initialisation runs once.
pub static_call-runs :
    (f : Flags) (message success : Bool) → run_count (static_call f message success) ≡ 1
unfolding static_call d
static_call-runs f message success = ground arith
