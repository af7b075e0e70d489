-- ===== src/Types/Ancestry.antt =====
-- The relations of type.h and the bases that types were registered with.
use Prim.Native.Nat.{bit_and, bit_or, max}
use libmandrews.Prelude.{
  ℕ, ◌^◌, ◌≤◌, ◌<◌, ◌≡◌, ◌≢◌, refl, sym, ap, ◌∙◌, Bool, true, false, not, ◌&&◌, ◌||◌, List, [], ◌∷◌,
  arith, ◌==◌, if◌then◌else◌, length, weight, Bool-cases, inl, inr, dec_lt,
}
use libmandrews.Types.{extends, one_bit, own_and_bases, is_related_to, is_derived_of}
use libmandrews.Types.Bits.{bit, bit-bit_or, bit-bit_and, bit-zero, bit-power, bits-eq}

-- Type `d` is `b`, or has a base that derives from `b`.
abbrev pub any_of : (ℕ → Bool) → List ℕ → Bool
any_of p [] = false
any_of p (t ∷ types) = p t || any_of p types

abbrev pub derives : List (List ℕ) → ℕ → ℕ → Bool
derives [] b d = false
derives (bases ∷ types) b d =
    if d == length types then (b == d) || any_of (derives types b) bases else derives types b d

weight-or : (x y : Bool) → weight (x || y) ≡ max (weight x) (weight y)
weight-or x y = ground arith

bit-extends :
    (k : ℕ) (f : ℕ → ℕ) (p : ℕ → Bool) (types : List ℕ)
    → ((t : ℕ) → bit k (f t) ≡ weight (p t))
    → bit k (extends f types) ≡ weight (any_of p types)
bit-extends k f p [] e = bit-zero k
bit-extends k f p (t ∷ types) e =
    bit-bit_or k (f t) (extends f types)
    ∙ omega (arith, e t, bit-extends k f p types e, weight-or (p t) (any_of p types))

-- Bit `b` of a type's number says whether it derives from type `b`.
bit-own_and_bases :
    (b d : ℕ) (types : List (List ℕ))
    → length types < 32
    → bit b (own_and_bases types d) ≡ weight (derives types b d)
unfolding own_and_bases
bit-own_and_bases b d [] small = bit-zero b
bit-own_and_bases b d (bases ∷ types) small = elim (Bool-cases (d == length types)) [
  | inl last ↦
      let n = length types in
      let at : d ≡ n = ground arith in
      let own : one_bit n ≡ 2 ^ n = ground arith in
      let from_bases =
        bit-extends b (own_and_bases types) (derives types b) bases
          (λ t. bit-own_and_bases b t types (omega arith)) in
      rw (last, own)
        (bit-bit_or b (2 ^ n) (extends (own_and_bases types) bases)
          ∙ omega (
            arith,
            bit-power b n,
            from_bases,
            ap (λ t. weight (b == t)) at,
            weight-or (b == d) (any_of (derives types b) bases),
          ))
  | inr other ↦ rw other (bit-own_and_bases b d types (omega arith))
]

-- Only registered types are derived from.
any_of_mono :
    (p q : ℕ → Bool) (types : List ℕ)
    → ((t : ℕ) → p t ≡ true → q t ≡ true)
    → any_of p types ≡ true
    → any_of q types ≡ true
any_of_mono p q [] h e = e
any_of_mono p q (t ∷ types) h e = elim (Bool-cases (p t)) [
  | inl here ↦ rw (h t here) refl
  | inr later ↦ let rest = any_of_mono p q types h ((rw later at e)) in ground arith
]

any_of-bound :
    (b n : ℕ) (p : ℕ → Bool) (types : List ℕ)
    → ((t : ℕ) → p t ≡ true → b < n)
    → any_of p types ≡ true
    → b < n
any_of-bound b n p [] h e = cc
any_of-bound b n p (t ∷ types) h e = elim (Bool-cases (p t)) [
  | inl here ↦ h t here
  | inr later ↦ any_of-bound b n p types h ((rw later at e))
]

derives-lt : (b d : ℕ) (types : List (List ℕ)) → derives types b d ≡ true → b < length types
derives-lt b d [] e = cc
derives-lt b d (bases ∷ types) e = elim (Bool-cases (d == length types)) [
  | inl last ↦ elim (Bool-cases (b == d)) [
    | inl same ↦ ground arith
    | inr apart ↦
        let from_bases : any_of (derives types b) bases ≡ true = (rw (last, apart) at e) in
        omega (
          arith,
          any_of-bound b (length types) (derives types b) bases (λ t. derives-lt b t types)
              from_bases,
        )
  ]
  | inr other ↦
      let old : derives types b d ≡ true = (rw other at e) in
      omega (arith, derives-lt b d types old)
]

derives_self : (b : ℕ) (types : List (List ℕ)) → b < length types → derives types b b ≡ true
derives_self b [] h = absurd (omega arith)
derives_self b (bases ∷ types) h = elim (Bool-cases (b == length types)) [
  | inl last ↦ ground arith
  | inr other ↦ rw other (derives_self b types (ground arith))
]

derives_trans :
    (c b d : ℕ) (types : List (List ℕ))
    → derives types b d ≡ true
    → derives types c b ≡ true
    → derives types c d ≡ true
derives_trans c b d [] e f = cc
derives_trans c b d (bases ∷ types) e f = elim (Bool-cases (d == length types)) [
  | inl last ↦ elim (Bool-cases (b == d)) [
    | inl same ↦ let at : b ≡ d = ground arith in ap (derives (bases ∷ types) c) (sym at) ∙ f
    | inr apart ↦
        let from_bases : any_of (derives types b) bases ≡ true = (rw (last, apart) at e) in
        let old =
          any_of-bound b (length types) (derives types b) bases (λ t. derives-lt b t types)
            from_bases in
        let earlier : (b == length types) ≡ false = ground arith in
        let from_b : derives types c b ≡ true = (rw earlier at f) in
        let all =
          any_of_mono (derives types b) (derives types c) bases
            (λ t h. derives_trans c b t types h from_b) from_bases in
        rw (last, all) (ground arith)
  ]
  | inr other ↦
      let from_d : derives types b d ≡ true = (rw other at e) in
      let old = derives-lt b d types from_d in
      let earlier : (b == length types) ≡ false = ground arith in
      rw other (derives_trans c b d types from_d ((rw earlier at f)))
]

unregistered : (t : ℕ) (types : List (List ℕ)) → length types ≤ t → own_and_bases types t ≡ 0
unfolding own_and_bases
unregistered t [] h = refl
unregistered t (bases ∷ types) h =
    let other : (t == length types) ≡ false = ground arith in
    rw other (unregistered t types (omega arith))

bit_and-none : (x : ℕ) → bit_and x 0 ≡ 0
bit_and-none x = bits-eq (bit_and x 0) 0 (λ k. bit-bit_and k x 0 ∙ omega (arith, bit-zero k))

module _ (types : List (List ℕ)) (small : length types < 32) where
  -- The mask of a type holds that of a type it derives from.
  bits-or :
      (b d : ℕ)
      → derives types b d ≡ true
      → bit_or (own_and_bases types d) (own_and_bases types b) ≡ own_and_bases types d
  bits-or b d e =
      bits-eq _ _ (λ k. bit-bit_or k (own_and_bases types d) (own_and_bases types b) ∙ by_bit k)
    where
      by_bit :
          (k : ℕ)
          → max (bit k (own_and_bases types d)) (bit k (own_and_bases types b))
            ≡ bit k (own_and_bases types d)
      by_bit k =
          let of_d = bit-own_and_bases k d types small in
          let of_b = bit-own_and_bases k b types small in
          elim (Bool-cases (derives types k b)) [
            | inl h ↦
                let also = derives_trans k b d types e h in
                omega (arith, of_d, of_b, ap weight h, ap weight also)
            | inr h ↦ omega (arith, of_b, ap weight h)
          ]

  is_derived_of-yes :
      (d b : ℕ) → derives types b d ≡ true → is_derived_of (own_and_bases types) d b ≡ true
  unfolding is_derived_of is_related_to
  is_derived_of-yes d b e =
      let id_d = own_and_bases types d in
      let id_b = own_and_bases types b in
      let self = derives_self b types (derives-lt b d types e) in
      let of_d = bit-own_and_bases b d types small in
      let of_b = bit-own_and_bases b b types small in
      let both : bit b (bit_and id_d id_b) ≡ 1 =
        bit-bit_and b id_d id_b ∙ omega (arith, of_d, of_b, ap weight e, ap weight self) in
      let some_bit : bit_and id_d id_b ≢ 0 =
        λ none. absurd (omega (arith, both, ap (bit b) none, bit-zero b)) in
      let related : (bit_and id_d id_b == 0) ≡ false = ground arith in
      let holds : (bit_or id_d id_b == id_d) ≡ true = ground (arith, bits-or b d e) in
      rw (related, holds) refl

  is_derived_of-no :
      (d b : ℕ) → derives types b d ≡ false → is_derived_of (own_and_bases types) d b ≡ false
  unfolding is_derived_of is_related_to
  is_derived_of-no d b e = elim (dec_lt b (length types)) [
    | yes known ↦
        let id_d = own_and_bases types d in
        let id_b = own_and_bases types b in
        let self = derives_self b types known in
        let of_d = bit-own_and_bases b d types small in
        let of_b = bit-own_and_bases b b types small in
        let either = bit-bit_or b id_d id_b in
        let more : bit_or id_d id_b ≢ id_d = λ same.
          absurd
            (omega (arith, either, ap (bit b) same, of_d, of_b, ap weight e, ap weight self)) in
        let apart : (bit_or id_d id_b == id_d) ≡ false = ground arith in
        rw apart (and_false (not (bit_and id_d id_b == 0)))
    | no unknown ↦
        rw (unregistered b types (omega arith), bit_and-none (own_and_bases types d)) refl
  ]
    where
      and_false : (x : Bool) → (x && false) ≡ false
      and_false true = refl
      and_false false = refl

  own_and_bases-derives : (d b : ℕ) → is_derived_of (own_and_bases types) d b ≡ derives types b d
  own_and_bases-derives d b = elim (Bool-cases (derives types b d)) [
    | inl e ↦ is_derived_of-yes d b e ∙ sym e
    | inr e ↦ is_derived_of-no d b e ∙ sym e
  ]

-- If the specialisations of static_typeid, which register_type does not write since it does not
-- compile, are written out with the numbers that it is meant to write, for up to 31 types their
-- own bit with the bits that extends gathers of their bases, is_derived_of holds of two types
-- exactly if the first is the second, and registered, or was registered with a base that derives
-- from the second.
pub is_derived_of-derives :
    (types : List (List ℕ)) (typeid : ℕ → ℕ) (d b : ℕ)
    → length types < 32
    → ((t : ℕ) → typeid t ≡ own_and_bases types t)
    → is_derived_of typeid d b ≡ derives types b d
is_derived_of-derives types typeid d b small numbered =
    ap (λ f. is_derived_of f d b) (λ i t. numbered t i) ∙ own_and_bases-derives types small d b
