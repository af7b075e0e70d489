-- ===== src/Dynamic.antt =====
-- The class `dynamic_ptr` of dynamic_ptr.h: a pointer that is cast by throwing it as a pointer of the
-- type that it was made of. Types are known by numbers. The classes of the program are a parameter:
-- `derives T U` says that `U` is a base of `T` to which a pointer converts, and `offset T U` is where
-- its part stands in a `T`. The null pointer is 0.
mod Tests
use mathlib.Core.Path.{subst}
use libmandrews.Prelude.{
  ℕ, ◌+◌, ◌≡◌, ◌⊎◌, refl, Bool, true, false, Option, none, some, arith, ◌==◌, if◌then◌else◌, inl,
  inr, Bool-cases,
}

-- `ptr_`, and the type whose `caster` is kept.
pub record DynamicPtr : Type 0 where
  pub ptr : ℕ
  pub caster : ℕ

-- The constructors, from a `T*` and from a `T&`, which is never null.
unfoldable pub of_pointer : ℕ → ℕ → DynamicPtr
of_pointer T p = record { ptr = p; caster = T }

unfoldable pub of_reference : ℕ → ℕ → DynamicPtr
unfolding of_pointer
of_reference T p = of_pointer T p

module _ (derives : ℕ → ℕ → Bool) (offset : ℕ → ℕ → ℕ) where
  -- What `catch (U* out)` makes of a thrown `T*`; `none` is that it does not catch it.
  unfoldable pub catches : ℕ → ℕ → ℕ → Option ℕ
  catches U T p =
      if U == T
      then some p
      else (if derives T U then some (if p == 0 then 0 else p + offset T U) else none)

  abbrev pub or_null : Option ℕ → ℕ
  or_null none = 0
  or_null (some p) = p

  unfoldable pub cast : ℕ → DynamicPtr → ℕ
  unfolding catches
  cast U d = or_null (catches U d.caster d.ptr)

  module _ (object : ℕ → ℕ → Type 0) where
    -- A pointer of a type is null, or there is an object of the type at its address.
    abbrev pub IsValid : ℕ → ℕ → Type 0
    IsValid T p = (p ≡ 0) ⊎ object T p

    -- A pointer that is null or points at an object of its type, cast to any type, is null or
    -- points at an object of that type, if each object has the parts of the bases its type
    -- converts to; cast to its own type it is the pointer that it was made of.
    pub cast-IsValid :
        (T U p : ℕ)
        → ((a : ℕ) → derives T U ≡ true → object T a → object U (a + offset T U))
        → IsValid T p
        → IsValid U (cast U (of_pointer T p)) × (cast T (of_pointer T p) ≡ p)
    unfolding cast catches of_pointer
    cast-IsValid T U p layout v =
        let self : (T == T) ≡ true = ground arith in (valid v, rw self refl)
      where
        based : IsValid T p → derives T U ≡ true → IsValid U (if p == 0 then 0 else p + offset T U)
        based (inl e) d = rw e (inl refl)
        based (inr o) d = elim (Bool-cases (p == 0)) [
          | inl at ↦ rw at (inl refl)
          | inr far ↦ rw far (inr (layout p d o))
        ]

        valid : IsValid T p → IsValid U (cast U (of_pointer T p))
        valid v = elim (Bool-cases (U == T)) [
          | inl e ↦ rw e (subst (λ X. IsValid X p) (of_equal e) v)
          | inr ne ↦ elim (Bool-cases (derives T U)) [
            | inl d ↦ rw (ne, d) (based v d)
            | inr apart ↦ rw (ne, apart) (inl refl)
          ]
        ]
          where
            of_equal : (U == T) ≡ true → T ≡ U
            of_equal e = ground arith
