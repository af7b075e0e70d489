-- ===== src/Types.antt =====
-- type.h: `extends`, which gathers the numbers of types, and the relations by masks. The numbers, the
-- specialisations of `static_typeid`, are an argument: `register_type`, the macro that is to write them,
-- does not compile, so a program has to write them out.
pub mod Bits
pub mod Ancestry
mod Tests
use Prim.Native.Nat.{bit_and, bit_or}
use libmandrews.Prelude.{
  ℕ, zero, suc, ◌-◌, ◌^◌, Bool, true, false, not, ◌&&◌, List, [], ◌∷◌, ltb, ◌==◌, if◌then◌else◌,
  length,
}

-- `extends<...>::types()`, over what `static_typeid` gives.
abbrev pub extends : (ℕ → ℕ) → List ℕ → ℕ
extends typeid [] = 0
extends typeid (t ∷ types) = bit_or (typeid t) (extends typeid types)

-- `1 << n` is an int, and widened with its sign; more than 32 types are not defined.
abbrev pub one_bit : ℕ → ℕ
one_bit n = if ltb n 31 then 2 ^ n else 2 ^ 64 - 2 ^ 31

-- The numbers that `register_type` is meant to write: types are counted in the order of their
-- registration, and the list holds the bases of each, the last type first. A type beyond them stands
-- for `void`, which has no bits.
unfoldable pub own_and_bases : List (List ℕ) → ℕ → ℕ
own_and_bases [] t = 0
own_and_bases (bases ∷ types) t =
    if t == length types
    then bit_or (one_bit (length types)) (extends (own_and_bases types) bases)
    else own_and_bases types t

unfoldable pub is_related_to : (ℕ → ℕ) → ℕ → ℕ → Bool
is_related_to typeid t1 t2 = not (bit_and (typeid t1) (typeid t2) == 0)

unfoldable pub is_derived_of : (ℕ → ℕ) → ℕ → ℕ → Bool
unfolding is_related_to
is_derived_of typeid derived base =
    is_related_to typeid derived base && (bit_or (typeid derived) (typeid base) == typeid derived)
