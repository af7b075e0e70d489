-- ===== src/Loops/Bits.antt =====
-- Sets of bits as numbers: a number is part of another if `&` with it changes nothing.
use Prim.Native.Nat.{bit_and, bit_and-bitwise, digits}
use libmandrews.Prelude.{
  ℕ, zero, suc, ◌+◌, ◌-◌, ◌*◌, ◌/◌, ◌%◌, ◌^◌, ◌≤◌, ◌<◌, ◌≡◌, min, refl, sym, ap, ◌∙◌, arith,
  ℕ_discrete,
}

-- The result does not depend on how many digits are gone through, if they are enough.
abbrev common : ℕ → ℕ → ℕ → ℕ
common k x y = digits (λ _. 0) min k x y

common-enough : (j : ℕ) (k x y : ℕ) → k ≤ j → x ≤ k → common k x y ≡ common x x y
common-enough j zero zero y h le = refl
common-enough j (suc k) zero y h le = refl
common-enough j zero (suc x) y h le = absurd (omega arith)
common-enough zero (suc k) (suc x) y h le = absurd (omega arith)
common-enough (suc j) (suc k) (suc x) y h le =
    let half = suc x / 2 in
    let from_k = common-enough j k half (y / 2) (omega arith) (omega arith) in
    let from_x = common-enough j x half (y / 2) (omega arith) (omega arith) in
    omega (arith, from_k, from_x)

pub bit_and-digits : (a b : ℕ) → bit_and a b ≡ bit_and (a / 2) (b / 2) * 2 + min (a % 2) (b % 2)
bit_and-digits zero b = omega (arith, bit_and-bitwise 0 b, bit_and-bitwise 0 (b / 2))
bit_and-digits (suc a) b =
    let enough = common-enough a a (suc a / 2) (b / 2) (omega arith) (omega arith) in
    omega (arith, enough, bit_and-bitwise (suc a) b, bit_and-bitwise (suc a / 2) (b / 2))

abbrev pub Part : ℕ → ℕ → Type 0
Part i s = bit_and i s ≡ i

-- The parts of a set, by their lowest bit and the others.
pub Part-halves : (i s : ℕ) → Part i s → Part (i / 2) (s / 2) × (i % 2 ≤ s % 2)
Part-halves i s p = (omega (arith, bit_and-digits i s), omega (arith, bit_and-digits i s))

pub Part-le : (n i s : ℕ) → i ≤ n → Part i s → i ≤ s
Part-le zero i s h p = omega arith
Part-le (suc n) zero s h p = omega arith
Part-le (suc n) (suc i) s h p =
    let (q, low) = Part-halves (suc i) s p in
    omega (arith, low, Part-le n (suc i / 2) (s / 2) (omega arith) q)

pub bit_and-le : (n a b : ℕ) → a ≤ n → bit_and a b ≤ a
bit_and-le n zero b h = omega (arith, bit_and-bitwise 0 b)
bit_and-le zero (suc a) b h = absurd (omega arith)
bit_and-le (suc n) (suc a) b h =
    omega (arith, bit_and-digits (suc a) b, bit_and-le n (suc a / 2) (b / 2) (omega arith))

pub bit_and-Part : (n a b : ℕ) → a ≤ n → Part (bit_and a b) b
bit_and-Part n zero b h = ap (λ x. bit_and x b) (bit_and-bitwise 0 b)
bit_and-Part zero (suc a) b h = absurd (omega arith)
bit_and-Part (suc n) (suc a) b h =
    let c = bit_and (suc a) b in
    let low = bit_and (suc a / 2) (b / 2) in
    let half : c / 2 ≡ low = omega (arith, bit_and-digits (suc a) b) in
    let keep : bit_and (c / 2) (b / 2) ≡ c / 2 =
      ap (λ x. bit_and x (b / 2)) half
      ∙ bit_and-Part n (suc a / 2) (b / 2) (omega arith)
      ∙ sym half in
    omega (arith, keep, bit_and-digits c b, bit_and-digits (suc a) b)

-- A smaller part of a set is at most the part that `(i-1) & (s)` gives.
pub Part-below : (n i j s : ℕ) → i ≤ n → Part i s → Part j s → j < i → j ≤ bit_and (i - 1) s
Part-below zero i j s h p q lt = absurd (omega arith)
Part-below (suc n) i j s h p q lt =
    let (pi, ei) = Part-halves i s p in
    let (pj, ej) = Part-halves j s q in
    elim (ℕ_discrete (i % 2) 1) [
      | yes odd ↦
          let half : (i - 1) / 2 ≡ i / 2 = omega arith in
          let same : bit_and ((i - 1) / 2) (s / 2) ≡ i / 2 =
            ap (λ x. bit_and x (s / 2)) half ∙ pi in
          omega (arith, same, bit_and-digits (i - 1) s)
      | no even ↦
          let half : (i - 1) / 2 ≡ i / 2 - 1 = omega arith in
          let same = ap (λ x. bit_and x (s / 2)) half in
          omega (
            arith,
            same,
            bit_and-digits (i - 1) s,
            Part-below n (i / 2) (j / 2) (s / 2) (omega arith) pi pj (omega arith),
          )
    ]

-- All bits, and a set of them.
pub bit_and-ones : (k s : ℕ) → s < 2 ^ k → bit_and (2 ^ k - 1) s ≡ s
bit_and-ones zero s h = omega (arith, bit_and-bitwise 0 s)
bit_and-ones (suc k) s h =
    let twice : 2 ^ suc k ≡ 2 ^ k * 2 = omega arith in
    let some_bit : 0 < 2 ^ k = omega arith in
    let half : (2 ^ suc k - 1) / 2 ≡ 2 ^ k - 1 = omega arith in
    let low : (2 ^ suc k - 1) % 2 ≡ 1 = omega arith in
    let same : bit_and ((2 ^ suc k - 1) / 2) (s / 2) ≡ s / 2 =
      ap (λ x. bit_and x (s / 2)) half ∙ bit_and-ones k (s / 2) (omega arith) in
    omega (arith, same, bit_and-digits (2 ^ suc k - 1) s)
