-- ===== src/ByteRange/Digits.antt =====
-- The numbers that runs of digits write: parsing saturates, and comparing does not.
use gas.Prelude.{
  ℕ, suc, zero, ◌+◌, ◌-◌, ◌*◌, ◌/◌, ◌≤◌, ◌<◌, nat_eq, ◌==◌, ltb, leb, ◌≡◌, ◌≢◌, refl, Bool, true,
  ◌&&◌, none, some, [], ◌∷◌, if◌then◌else◌, length, arith, Bool-cases, inl, inr,
}
use native.Mathlib.Nat.{mul-le-mul_right}
use gas.ByteRange.{
  Bytes, max_int64, min, trim_left, string_less, parse_from, parse_digits, digits_less,
}

abbrev pub is_digit : ℕ → Bool
is_digit c = leb 48 c && leb c 57

abbrev pub all_digits : Bytes → Bool
all_digits [] = true
all_digits (c ∷ s) = is_digit c && all_digits s

-- Digit by digit from the left, with no limit.
abbrev pub value_from : ℕ → Bytes → ℕ
value_from n [] = n
value_from n (c ∷ s) = value_from (n * 10 + (c - 48)) s

abbrev pub value : Bytes → ℕ
value s = value_from 0 s

step_saturates :
    (m a d : ℕ)
    → 1 ≤ m
    → d ≤ 9
    → d ≤ m
    → (if ltb ((m - d) / 10) (min m a) then m else min m a * 10 + d) ≡ min m (a * 10 + d)
step_saturates m a d hm hd hdm = ground arith

parse_from-saturates :
    (a : ℕ) (s : Bytes)
    → parse_from (min max_int64 a) s
      ≡ (if all_digits s then some (min max_int64 (value_from a s)) else none)
unfolding parse_from
parse_from-saturates a [] = refl
parse_from-saturates a (c ∷ s) = elim (Bool-cases (is_digit c)) [
  | inl digit ↦
      let small : c - 48 ≤ 9 = ground arith in
      rw
        (
          parse_from,
          step_saturates max_int64 a (c - 48) (omega arith) small (omega (arith, small)),
          parse_from-saturates (a * 10 + (c - 48)) s,
        )
        (ground arith)
  | inr other ↦ ground arith
]

-- parseDigits answers the number that the digits write, or the largest int64 where that is larger, and
-- nothing for the empty string and for a string with any other byte.
pub parse_digits-value :
    (s : Bytes)
    → parse_digits s
      ≡ (if leb 1 (length s) && all_digits s then some (min max_int64 (value s)) else none)
unfolding parse_digits
parse_digits-value [] = refl
parse_digits-value (c ∷ s) = ground (arith, parse_from-saturates 0 (c ∷ s))

-- 10 to the length
abbrev pow10 : ℕ → ℕ
pow10 zero = 1
pow10 (suc n) = 10 * pow10 n

value_from-pow10 : (a : ℕ) (s : Bytes) → value_from a s ≡ a * pow10 (length s) + value s
value_from-pow10 a [] = omega arith
value_from-pow10 a (c ∷ s) =
    grind (arith, value_from-pow10 (a * 10 + (c - 48)) s, value_from-pow10 (c - 48) s)

value-cons : (c : ℕ) (s : Bytes) → value (c ∷ s) ≡ (c - 48) * pow10 (length s) + value s
value-cons c s = grind (arith, value_from-pow10 (c - 48) s)

value-lt : (s : Bytes) → all_digits s ≡ true → value s < pow10 (length s)
value-lt [] h = omega arith
value-lt (c ∷ s) h =
    let small : c - 48 ≤ 9 = ground arith in
    let rest : value s < pow10 (length s) = value-lt s (ground arith) in
    grind (arith, value-cons c s, rest, mul-le-mul_right (pow10 (length s)) small)

pow10_mono : (m n : ℕ) → m ≤ n → pow10 m ≤ pow10 n
pow10_mono zero zero h = omega arith
pow10_mono zero (suc n) h = omega (arith, pow10_mono zero n (omega arith))
pow10_mono (suc m) zero h = omega arith
pow10_mono (suc m) (suc n) h = omega (arith, pow10_mono m n (omega arith))

first_digit-value :
    (c d : ℕ) (s t : Bytes)
    → 48 ≤ c
    → c < d
    → all_digits s ≡ true
    → length s ≡ length t
    → value (c ∷ s) < value (d ∷ t)
first_digit-value c d s t hc h hs e =
    let above : suc (c - 48) ≤ d - 48 = omega arith in
    grind (
      arith,
      value-cons c s,
      value-cons d t,
      value-lt s hs,
      mul-le-mul_right (pow10 (length s)) above,
    )

-- Two numbers of as many digits compare as their strings do.
string_less-value :
    (s t : Bytes)
    → all_digits s ≡ true
    → all_digits t ≡ true
    → length s ≡ length t
    → string_less s t ≡ ltb (value s) (value t)
string_less-value [] [] hs ht e = refl
string_less-value [] (d ∷ t) hs ht e = ground arith
string_less-value (c ∷ s) [] hs ht e = ground arith
string_less-value (c ∷ s) (d ∷ t) hs ht e =
    let rest : string_less s t ≡ ltb (value s) (value t) =
      string_less-value s t (ground arith) (ground arith) (omega arith) in
    elim (Bool-cases (ltb c d)) [
      | inl less ↦ ground (
        arith,
        first_digit-value c d s t (ground arith) (ground arith) (ground arith) (omega arith),
      )
      | inr not_less ↦ elim (Bool-cases (ltb d c)) [
        | inl more ↦ ground (
          arith,
          first_digit-value d c t s (ground arith) (ground arith) (ground arith) (omega arith),
        )
        | inr same ↦
            let here : c ≡ d = ground arith in
            grind (arith, here, rest, value-cons c s, value-cons d t)
      ]
    ]

-- A number with more digits and no leading zero is larger.
shorter-value :
    (s t : Bytes) (d : ℕ)
    → all_digits s ≡ true
    → 48 < d
    → length s ≤ length t
    → value s < value (d ∷ t)
shorter-value s t d h hd e =
    let above : 1 ≤ d - 48 = omega arith in
    grind (
      arith,
      value-cons d t,
      value-lt s h,
      pow10_mono (length s) (length t) e,
      mul-le-mul_right (pow10 (length t)) above,
    )

abbrev trimmed : Bytes → Bytes
trimmed s = trim_left (λ c. c == 48) s

value-trimmed : (s : Bytes) → value (trimmed s) ≡ value s
value-trimmed [] = refl
value-trimmed (c ∷ s) = ground (arith, value-trimmed s)

all_digits-trimmed : (s : Bytes) → all_digits s ≡ true → all_digits (trimmed s) ≡ true
all_digits-trimmed [] h = refl
all_digits-trimmed (c ∷ s) h = ground (arith, all_digits-trimmed s)

-- What is left does not start with a zero.
abbrev Leads : Bytes → Type 0
Leads [] = Unit
Leads (c ∷ s) = c ≢ 48

Leads-trimmed : (s : Bytes) → Leads (trimmed s)
Leads-trimmed [] = tt
Leads-trimmed (c ∷ s) = elim (Bool-cases (c == 48)) [
  | inl zero_ ↦ rw (zero_) (Leads-trimmed s)
  | inr other ↦ rw (other) (ground arith)
]

longer-value :
    (s t : Bytes)
    → all_digits s ≡ true
    → all_digits t ≡ true
    → Leads t
    → length s < length t
    → value s < value t
longer-value s [] hs ht l h = omega arith
longer-value s (d ∷ t) hs ht l h = shorter-value s t d hs (ground arith) (omega arith)

-- digitsLess compares the numbers that two runs of digits write, however long the runs are.
pub digits_less-value :
    (a b : Bytes)
    → all_digits a ≡ true
    → all_digits b ≡ true
    → digits_less a b ≡ ltb (value a) (value b)
unfolding digits_less
digits_less-value a b ha hb =
    let ta : all_digits (trimmed a) ≡ true = all_digits-trimmed a ha in
    let tb : all_digits (trimmed b) ≡ true = all_digits-trimmed b hb in
    ground (
      arith,
      value-trimmed a,
      value-trimmed b,
      string_less-value (trimmed a) (trimmed b) ta tb,
      longer-value (trimmed a) (trimmed b) ta tb (Leads-trimmed b),
      longer-value (trimmed b) (trimmed a) tb ta (Leads-trimmed a),
    )
