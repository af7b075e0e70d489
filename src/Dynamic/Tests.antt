-- ===== src/Dynamic/Tests.antt =====
-- Class 1 has the base 0 at offset 8; there is an object of class 1 at address 16.
use libmandrews.Prelude.{ℕ, ◌+◌, ◌*◌, ◌≡◌, refl, Bool, arith, ◌==◌, ◌&&◌, inr}
use libmandrews.Dynamic.{of_pointer, cast, IsValid, cast-IsValid}

abbrev derives : ℕ → ℕ → Bool
derives T U = (T == 1) && (U == 0)

abbrev offset : ℕ → ℕ → ℕ
offset T U = 8

abbrev Object : ℕ → ℕ → Type 0
Object T a = a + 8 * T ≡ 24

cast-IsValid_example :
    IsValid derives offset Object 0 (cast derives offset 0 (of_pointer 1 16))
    × (cast derives offset 1 (of_pointer 1 16) ≡ 16)
cast-IsValid_example =
    cast-IsValid derives offset Object 1 0 16 (λ a d o. omega (arith, o)) (inr refl)
