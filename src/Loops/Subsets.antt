-- ===== src/Loops/Subsets.antt =====
-- SUBSETS goes through every subset of a set of bits.
use Prim.Native.Nat.{bit_and, bit_and-bitwise}
use libmandrews.Prelude.{
  ℕ, zero, suc, ◌+◌, ◌-◌, ◌≤◌, ◌<◌, ◌≡◌, sym, ap, ◌∙◌, Bool, false, ◌&&◌, arith, ◌==◌, ltb, Returns,
  Returns-some, tally, weight, ℕ_discrete, dec_lt,
}
use libmandrews.Loops.{word, before, subsets_from, subsets}
use libmandrews.Loops.Bits.{Part, bit_and-le, bit_and-Part, Part-below, Part-le, bit_and-ones}

abbrev pub is_part : ℕ → ℕ → Bool
is_part j s = bit_and j s == j

-- The subsets of `s` from `i` down, without the empty one.
abbrev from : ℕ → ℕ → ℕ → Bool
from j s i = is_part j s && (ltb 0 j && ltb j (suc i))

module _ (s : ℕ) (fits : s < word) where
  before-suc : (i : ℕ) → suc i ≤ s → before s (suc i) ≡ bit_and i s
  before-suc i le = ap (λ x. bit_and x s) (omega arith)

  -- One value of the loop and the next.
  from-before :
      (i j : ℕ)
      → 0 < i
      → Part i s
      → weight (i == j) + weight (from j s (bit_and (i - 1) s)) ≡ weight (from j s i)
  from-before i j pos p =
      let less = bit_and-le i (i - 1) s (omega arith) in
      elim (ℕ_discrete (bit_and j s) j) [
        | yes q ↦ elim (ℕ_discrete i j) [
          | yes same ↦ ground (arith, less)
          | no other ↦ elim (dec_lt j i) [
            | yes lt ↦
                let below = Part-below i i j s (omega arith) p q lt in ground (arith, less, below)
            | no above ↦ ground (arith, less)
          ]
        ]
        | no out ↦ ground (arith, out)
      ]

  subsets_from-all :
      (fuel i j : ℕ)
      → i < fuel
      → i ≤ s
      → Part i s
      → Returns (subsets_from fuel s i false) (λ is. tally (λ x. x == j) is ≡ weight (from j s i))
  unfolding subsets_from
  subsets_from-all zero i j h le p = absurd (omega arith)
  subsets_from-all (suc fuel) zero j h le p = ground arith
  subsets_from-all (suc fuel) (suc i) j h le p =
      let next = before s (suc i) in
      let e : next ≡ bit_and i s = before-suc i le in
      let less = bit_and-le i i s (omega arith) in
      let part : Part next s = ap (λ x. bit_and x s) e ∙ bit_and-Part i i s (omega arith) ∙ sym e in
      let (is, r, count) =
        Returns-some (subsets_from fuel s next false)
          (subsets_from-all fuel next j (omega arith) (omega arith) part) in
      let goes_on : (suc i == 0) ≡ false = ground arith in
      let one : weight (suc i == j) + weight (from j s (bit_and i s)) ≡ weight (from j s (suc i)) =
        ap (λ x. weight (suc i == j) + weight (from j s (bit_and x s))) (omega arith)
        ∙ from-before (suc i) j (omega arith) p in
      let rest = ap (λ x. weight (from j s x)) e in
      rw (goes_on, r) (omega (arith, one, rest, count))

  -- SUBSETS over a set of 64 bits ends within one round more than its value and one for the test,
  -- and has gone through each subset of the set exactly once, and through nothing else.
  pub subsets-all :
      (fuel j : ℕ)
      → s + 1 < fuel
      → Returns (subsets fuel s) (λ is. tally (λ x. x == j) is ≡ weight (is_part j s))
  unfolding subsets subsets_from
  subsets-all zero j enough = absurd (omega arith)
  subsets-all (suc fuel) j enough =
      let next = before s 0 in
      let e : next ≡ s = bit_and-ones 64 s fits in
      let part : Part next s = bit_and-Part (word - 1) (word - 1) s (omega arith) in
      let (is, r, count) =
        Returns-some (subsets_from fuel s next false)
          (subsets_from-all fuel next j (omega arith) (omega arith) part) in
      let rest = ap (λ x. weight (from j s x)) e in
      rw r (omega (arith, first_and_rest j, rest, count))
    where
      first_and_rest : (j : ℕ) → weight (0 == j) + weight (from j s s) ≡ weight (is_part j s)
      first_and_rest j = ground (arith, Part-le j j s (omega arith), bit_and-bitwise 0 s)
