-- ===== src/Prelude/Order.antt =====
-- Strict orders as an interface, and the order of strings.
use Prim.Native.Nat.{Ordering, compare as compare_ℕ}
use Prim.Native.Char.{Char, code}
use Prim.Native.String.{String, compare, then as and_then}
use Prim.Native.String.compare as laws
use mathlib.Core.Path.{◌≡◌, refl, ap, ◌∙◌}
use mathlib.Core.Bool.{Bool, true, false, ◌||◌, ◌&&◌}
use native.Mathlib.Omega.{arith}
use text.Mathlib.Text.{is_lt}
use text.Mathlib.TextEquality.{Char-path}
use gas.Prelude.Tests.{string_eq, ltb, nat_beq}

-- Go's `<` on a comparable type.
pub record Order {ℓ} (A : Type ℓ) : Type ℓ where
  pub less : A → A → Bool
  pub irrefl : (a : A) → less a a ≡ false
  pub trans : (a b c : A) → less a b ≡ true → less b c ≡ true → less a c ≡ true
  pub total : (a b : A) → less a b ≡ false → less b a ≡ false → a ≡ b

-- The order of the code points, which is the order of the bytes of UTF-8.
abbrev pub string_less : String → String → Bool
string_less s t = is_lt (compare s t)

and_then_less :
    (o r : Ordering)
    → is_lt (and_then o r) ≡ (
        elim o [ Ordering.lt ↦ true | _ ↦ false ]
        || (elim o [ Ordering.eq ↦ true | _ ↦ false ] && is_lt r))
and_then_less Ordering.lt r = refl
and_then_less Ordering.eq r = refl
and_then_less Ordering.gt r = refl

string_less-cons :
    (c d : Char) (s t : String)
    → string_less (String.◌∷◌ c s) (String.◌∷◌ d t)
      ≡ (ltb (code c) (code d) || (nat_beq (code c) (code d) && string_less s t))
string_less-cons c d s t =
    ap is_lt (laws.cons-cons c d s t) ∙ and_then_less (compare_ℕ (code c) (code d)) (compare s t)

string_less-nil : (d : Char) (t : String) → string_less String.[] (String.◌∷◌ d t) ≡ true
string_less-nil d t = ap is_lt (laws.nil-cons d t)

not-string_less-nil : (s : String) → string_less s String.[] ≡ false
not-string_less-nil String.[] = ap is_lt laws.nil-nil
not-string_less-nil (String.◌∷◌ c s) = ap is_lt (laws.cons-nil c s)

pub string_less_irrefl : (s : String) → string_less s s ≡ false
string_less_irrefl String.[] = not-string_less-nil String.[]
string_less_irrefl (String.◌∷◌ c s) = ground (arith, string_less-cons c c s s, string_less_irrefl s)

pub string_less_trans :
    (s t u : String) → string_less s t ≡ true → string_less t u ≡ true → string_less s u ≡ true
string_less_trans s t String.[] h k = ground (arith, k, not-string_less-nil t)
string_less_trans s String.[] (String.◌∷◌ e u) h k = ground (arith, h, not-string_less-nil s)
string_less_trans String.[] (String.◌∷◌ d t) (String.◌∷◌ e u) h k = string_less-nil e u
string_less_trans (String.◌∷◌ c s) (String.◌∷◌ d t) (String.◌∷◌ e u) h k = ground (
  arith,
  h,
  k,
  string_less-cons c d s t,
  string_less-cons d e t u,
  string_less-cons c e s u,
  string_less_trans s t u,
)

pub string_less_total : (s t : String) → string_less s t ≡ false → string_less t s ≡ false → s ≡ t
string_less_total String.[] String.[] h k = refl
string_less_total String.[] (String.◌∷◌ d t) h k = ground (arith, h, string_less-nil d t)
string_less_total (String.◌∷◌ c s) String.[] h k = ground (arith, k, string_less-nil c s)
string_less_total (String.◌∷◌ c s) (String.◌∷◌ d t) h k =
    let same : c ≡ d =
      Char-path c d (ground (arith, h, k, string_less-cons c d s t, string_less-cons d c t s)) in
    let rest : s ≡ t =
      string_less_total s t
        (ground (arith, h, k, string_less-cons c d s t, string_less-cons d c t s))
        (ground (arith, h, k, string_less-cons c d s t, string_less-cons d c t s)) in
    λ i. String.◌∷◌ (same i) (rest i)

instance abbrev pub string_order : Order String
string_order = record {
  less = string_less;
  irrefl = string_less_irrefl;
  trans = string_less_trans;
  total = string_less_total;
}
