-- ===== src/Types/Bits.antt =====
-- Bits of masks.
use Prim.Native.Nat.{bit_and, bit_or, bit_or-bitwise, digits, max}
use libmandrews.Prelude.{
  ℕ, zero, suc, ◌+◌, ◌*◌, ◌/◌, ◌%◌, ◌^◌, ◌≤◌, ◌≡◌, min, refl, ap, ◌∙◌, arith, ◌==◌, weight,
}
use libmandrews.Loops.Bits.{bit_and-digits}

-- Bit `k` of a number.
abbrev pub bit : ℕ → ℕ → ℕ
bit zero x = x % 2
bit (suc k) x = bit k (x / 2)

abbrev either : ℕ → ℕ → ℕ → ℕ
either k x y = digits (λ y. y) max k x y

either-enough : (j : ℕ) (k x y : ℕ) → k ≤ j → x ≤ k → either k x y ≡ either x x y
either-enough j zero zero y h le = refl
either-enough j (suc k) zero y h le = refl
either-enough j zero (suc x) y h le = absurd (omega arith)
either-enough zero (suc k) (suc x) y h le = absurd (omega arith)
either-enough (suc j) (suc k) (suc x) y h le =
    let half = suc x / 2 in
    let from_k = either-enough j k half (y / 2) (omega arith) (omega arith) in
    let from_x = either-enough j x half (y / 2) (omega arith) (omega arith) in
    omega (arith, from_k, from_x)

bit_or-digits : (a b : ℕ) → bit_or a b ≡ bit_or (a / 2) (b / 2) * 2 + max (a % 2) (b % 2)
bit_or-digits zero b = omega (arith, bit_or-bitwise 0 b, bit_or-bitwise 0 (b / 2))
bit_or-digits (suc a) b =
    let enough = either-enough a a (suc a / 2) (b / 2) (omega arith) (omega arith) in
    omega (arith, enough, bit_or-bitwise (suc a) b, bit_or-bitwise (suc a / 2) (b / 2))

pub bit-bit_or : (k a b : ℕ) → bit k (bit_or a b) ≡ max (bit k a) (bit k b)
bit-bit_or zero a b = omega (arith, bit_or-digits a b)
bit-bit_or (suc k) a b =
    let half : bit_or a b / 2 ≡ bit_or (a / 2) (b / 2) = omega (arith, bit_or-digits a b) in
    ap (bit k) half ∙ bit-bit_or k (a / 2) (b / 2)

pub bit-bit_and : (k a b : ℕ) → bit k (bit_and a b) ≡ min (bit k a) (bit k b)
bit-bit_and zero a b = omega (arith, bit_and-digits a b)
bit-bit_and (suc k) a b =
    let half : bit_and a b / 2 ≡ bit_and (a / 2) (b / 2) = omega (arith, bit_and-digits a b) in
    ap (bit k) half ∙ bit-bit_and k (a / 2) (b / 2)

pub bit-zero : (k : ℕ) → bit k 0 ≡ 0
bit-zero zero = refl
bit-zero (suc k) = bit-zero k

pub bit-power : (k n : ℕ) → bit k (2 ^ n) ≡ weight (k == n)
bit-power zero zero = refl
bit-power (suc k) zero = bit-zero k ∙ ground arith
bit-power zero (suc n) = let even : (2 ^ suc n) % 2 ≡ 0 = omega arith in even ∙ ground arith
bit-power (suc k) (suc n) =
    let half : 2 ^ suc n / 2 ≡ 2 ^ n = omega arith in ap (bit k) half ∙ bit-power k n ∙ ground arith

-- Numbers with the same bits.
bits-eq_below : (n a b : ℕ) → a ≤ n → b ≤ n → ((k : ℕ) → bit k a ≡ bit k b) → a ≡ b
bits-eq_below zero a b h l e = omega arith
bits-eq_below (suc n) a b h l e =
    let half = bits-eq_below n (a / 2) (b / 2) (omega arith) (omega arith) (λ k. e (suc k)) in
    omega (arith, half, e 0)

pub bits-eq : (a b : ℕ) → ((k : ℕ) → bit k a ≡ bit k b) → a ≡ b
bits-eq a b e = bits-eq_below (a + b) a b (omega arith) (omega arith) e

pub bit-le : (k x : ℕ) → bit k x ≤ 1
bit-le zero x = omega arith
bit-le (suc k) x = bit-le k (x / 2)
