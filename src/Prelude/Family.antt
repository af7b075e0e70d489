-- ===== src/Prelude/Family.antt =====
-- Families `ℕ → A` indexed by an object or a thread: update at one index, and weighted sums over
-- the first `n` members.
use Prim.Native.Nat.{ℕ, zero, suc, ◌+◌, ◌≤◌, ◌<◌}
use mathlib.Core.Path.{◌≡◌, refl, ap, ◌∙◌}
use mathlib.Core.Logic.{◌≢◌, ◌⊎◌, inl, inr}
use mathlib.Core.Bool.{Bool, true, false}
use native.Mathlib.Decide.{dec_lt, ℕ_discrete}
use native.Mathlib.Omega.{arith}
use libmandrews.Prelude.Tests.{◌==◌, if◌then◌else◌, Bool-cases}

abbrev pub update {ℓ} : {A : Type ℓ} → (ℕ → A) → ℕ → A → ℕ → A
update f i a j = if i == j then a else f j

-- The weights of the members below a bound, added up.
unfoldable pub total {ℓ} : {A : Type ℓ} → (A → ℕ) → ℕ → (ℕ → A) → ℕ
total w zero f = 0
total w (suc n) f = w (f n) + total w n f

module _ {ℓ} {A : Type ℓ} where
  -- Weights that are pointwise at most others, of another family even, add up to at most theirs.
  pub total_mono :
      (v w : A → ℕ) (f g : ℕ → A) (n : ℕ)
      → ((i : ℕ) → i < n → v (f i) ≤ w (g i))
      → total v n f ≤ total w n g
  unfolding total
  total_mono v w f g zero le = omega arith
  total_mono v w f g (suc n) le =
      omega (arith, le n, total_mono v w f g n (λ i h. le i (omega arith)))

  total-ones : (n : ℕ) (f : ℕ → A) → total (λ _. 1) n f ≡ n
  unfolding total
  total-ones zero f = refl
  total-ones (suc n) f = omega (arith, total-ones n f)

  total-zeros : (n : ℕ) (f : ℕ → A) → total (λ _. 0) n f ≡ 0
  unfolding total
  total-zeros zero f = refl
  total-zeros (suc n) f = omega (arith, total-zeros n f)

  module _ (w : A → ℕ) where
    -- Families that agree but for the member `i`.
    total-differ :
        (i : ℕ) (f g : ℕ → A)
        → ((j : ℕ) → i ≢ j → f j ≡ g j)
        → (n : ℕ) → i < n
        → total w n g + w (f i) ≡ total w n f + w (g i)
    unfolding total
    total-differ i f g agree zero h = absurd (omega arith)
    total-differ i f g agree (suc n) h = elim (ℕ_discrete i n) [
      | yes top ↦
          let same : (j : ℕ) → j < n → f j ≡ g j = λ j q. agree j (omega arith) in
          let low = total_mono w w f g n (λ j q. omega (arith, ap w (same j q))) in
          let high = total_mono w w g f n (λ j q. omega (arith, ap w (same j q))) in
          omega (arith, ap (λ j. w (f j)) top, ap (λ j. w (g j)) top, low, high)
      | no other ↦ omega (arith, ap w (agree n other), total-differ i f g agree n (omega arith))
    ]

    -- What an update at `i` takes out of the sum and what it adds.
    pub total-update :
        (n : ℕ) (f : ℕ → A) (i : ℕ) (a : A)
        → i < n
        → total w n (update f i a) + w (f i) ≡ total w n f + w a
    total-update n f i a h =
        let here : (i == i) ≡ true = ground arith in
        let at : update f i a i ≡ a = rw here refl in
        total-differ i f (update f i a) (λ j ne. ground arith) n h ∙ ap (λ b. total w n f + w b) at

    -- One member is at most the sum.
    pub le-total : (n : ℕ) (f : ℕ → A) (i : ℕ) → i < n → w (f i) ≤ total w n f
    unfolding total
    le-total zero f i h = absurd (omega arith)
    le-total (suc n) f i h = elim (ℕ_discrete i n) [
      | yes top ↦ omega (arith, ap (λ j. w (f j)) top)
      | no other ↦ omega (arith, le-total n f i (omega arith))
    ]

    pub total-le : ((a : A) → w a ≤ 1) → (n : ℕ) (f : ℕ → A) → total w n f ≤ n
    total-le small n f =
        omega (arith, total_mono w (λ _. 1) f f n (λ i _. small (f i)), total-ones n f)

    pub total-eq-zero : (n : ℕ) (f : ℕ → A) → ((i : ℕ) → i < n → w (f i) ≡ 0) → total w n f ≡ 0
    total-eq-zero n f none =
        omega (arith, total_mono w (λ _. 0) f f n (λ i h. omega (arith, none i h)), total-zeros n f)

    pub total-eq_self : (n : ℕ) (f : ℕ → A) → ((i : ℕ) → i < n → w (f i) ≡ 1) → total w n f ≡ n
    total-eq_self n f all =
        let low = total_mono (λ _. 1) w f f n (λ i h. omega (arith, all i h)) in
        let high = total_mono w (λ _. 1) f f n (λ i h. omega (arith, all i h)) in
        omega (arith, low, high, total-ones n f)

    -- When weights of at most 1 add up to the number of members, none of them is 0.
    pub eq-one_of_full :
        (n : ℕ) (f : ℕ → A) → ((a : A) → w a ≤ 1) → n ≤ total w n f → (i : ℕ) → i < n → w (f i) ≡ 1
    unfolding total
    eq-one_of_full zero f small full i h = absurd (omega arith)
    eq-one_of_full (suc n) f small full i h =
        let rest : n ≤ total w n f = omega (arith, small (f n)) in
        let bound = total-le small n f in
        elim (ℕ_discrete i n) [
          | yes top ↦ omega (arith, ap (λ j. w (f j)) top, small (f n))
          | no other ↦ eq-one_of_full n f small rest i (omega arith)
        ]

-- A test over the numbers below `n` holds somewhere or fails everywhere.
pub find_below :
    (n : ℕ) (p : ℕ → Bool) → ((i : ℕ) × (i < n) × (p i ≡ true)) ⊎ ((i : ℕ) → i < n → p i ≡ false)
find_below zero p = inr (λ i h. absurd (omega arith))
find_below (suc n) p = elim (find_below n p) [
  | inl (i, h, e) ↦ inl (i, omega arith, e)
  | inr none_below ↦ elim (Bool-cases (p n)) [
    | inl e ↦ inl (n, omega arith, e)
    | inr e ↦
        inr (λ i h. elim (dec_lt i n) [ yes below ↦ none_below i below | no last ↦ ground arith ])
  ]
]
