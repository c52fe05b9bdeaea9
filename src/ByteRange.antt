-- ===== src/ByteRange.antt =====
-- storage/dir/range.go: the Range header of a read from a directory bucket. A string is its bytes,
-- and an int64 is a number: sizes and parsed digits are never negative, and `last := -1` is `negsuc 0`.
pub mod Digits
pub mod Spec
pub mod Headers
pub mod Tests
use gas.Prelude.{
  ℕ, ◌+◌, ◌-◌, ◌*◌, ◌/◌, nat_eq, ◌==◌, ltb, leb, Bool, true, false, not, ◌&&◌, ◌||◌, Option, none,
  some, List, [], ◌∷◌, ◌++◌, if◌then◌else◌, length, ℤ, pos, negsuc,
}

abbrev pub Bytes : Type 0
Bytes = List ℕ

abbrev pub max_int64 : ℕ
max_int64 = 9223372036854775807

-- The offset and the length of the bytes to read, or storage.ErrInvalidRange.
pub data Selection : Type 0 where
  ok : ℕ → ℕ → Selection
  invalid_range : Selection

-- min of Go's numbers
abbrev pub min : ℕ → ℕ → ℕ
min a b = if leb a b then a else b

-- strings.TrimLeft with the bytes that satisfy a test
abbrev pub trim_left : (ℕ → Bool) → Bytes → Bytes
trim_left p [] = []
trim_left p (c ∷ s) = if p c then trim_left p s else c ∷ s

-- strings.TrimRight
abbrev pub trim_right : (ℕ → Bool) → Bytes → Bytes
trim_right p [] = []
trim_right p (c ∷ s) = keep c (trim_right p s)
  where
    keep : ℕ → Bytes → Bytes
    keep c [] = if p c then [] else c ∷ []
    keep c (d ∷ s) = c ∷ d ∷ s

-- strings.Cut at a byte: what stands before and after its first occurrence
abbrev pub cut : ℕ → Bytes → Option (Bytes × Bytes)
cut b [] = none
cut b (c ∷ s) =
    if c == b then some ([], s) else elim (cut b s) [ none ↦ none | some (l, r) ↦ some (c ∷ l, r) ]

-- The bytes after a letter that folds to the lower-case ASCII letter `c`: U+017F, the bytes 197 and
-- 191, folds to `s`.
fold_letter : ℕ → Bytes → Option Bytes
fold_letter c [] = none
fold_letter c (b ∷ []) = if b == c || b + 32 == c then some [] else none
fold_letter c (b ∷ d ∷ s) =
    if b == c || b + 32 == c
    then some (d ∷ s)
    else (if c == 115 && (b == 197 && d == 191) then some s else none)

-- strings.EqualFold of a string and lower-case letters other than `k`
unfoldable pub equal_fold : Bytes → Bytes → Bool
unfolding fold_letter
equal_fold s [] = elim s [ [] ↦ true | _ ∷ _ ↦ false ]
equal_fold s (c ∷ t) = elim (fold_letter c s) [ none ↦ false | some rest ↦ equal_fold rest t ]

-- Go's `<` on strings
abbrev pub string_less : Bytes → Bytes → Bool
string_less [] [] = false
string_less [] (d ∷ t) = true
string_less (c ∷ s) [] = false
string_less (c ∷ s) (d ∷ t) = ltb c d || (c == d && string_less s t)

-- The loop of parseDigits: the next `n` is computed first, where the code assigns and continues.
unfoldable pub parse_from : ℕ → Bytes → Option ℕ
parse_from n [] = some n
parse_from n (c ∷ s) =
    let d = c - 48 in
    let rest = parse_from (if ltb ((max_int64 - d) / 10) n then max_int64 else n * 10 + d) s in
    if ltb c 48 || ltb 57 c then none else rest

unfoldable pub parse_digits : Bytes → Option ℕ
unfolding parse_from
parse_digits [] = none
parse_digits (c ∷ s) = parse_from 0 (c ∷ s)

unfoldable pub digits_less : Bytes → Bytes → Bool
digits_less a b =
    let a = trim_left (λ c. c == 48) a in
    let b = trim_left (λ c. c == 48) b in
    if length a == length b then string_less a b else ltb (length a) (length b)

-- From `if first >= size` on. `last - first + 1` is at least 1 there, so that it never stops at 0.
unfoldable pub clamped : ℕ → ℤ → ℕ → Selection
clamped first last size =
    if leb size first then invalid_range else ok first (last_byte last - first + 1)
  where
    last_byte : ℤ → ℕ
    last_byte (pos n) = if leb size n then size - 1 else n
    last_byte (negsuc n) = size - 1

unfoldable pub first_last_range : Bytes → Bytes → ℕ → Selection
unfolding parse_digits digits_less clamped
first_last_range first_str last_str size = elim (parse_digits first_str) [
  | none ↦ ok 0 size
  | some first ↦ elim last_str [
    | [] ↦ clamped first (negsuc 0) size
    | c ∷ s ↦ elim (parse_digits (c ∷ s)) [
      | none ↦ ok 0 size
      | some last ↦
          if digits_less (c ∷ s) first_str then ok 0 size else clamped first (pos last) size
    ]
  ]
]

unfoldable pub suffix_range : Bytes → ℕ → Selection
unfolding parse_digits
suffix_range last_str size = elim (parse_digits last_str) [
  | none ↦ ok 0 size
  | some suffix ↦
      if suffix == 0 then invalid_range else ok (size - min suffix size) (min suffix size)
]

unfoldable pub by_first : Bytes → Bytes → ℕ → Selection
unfolding suffix_range first_last_range
by_first [] last_str size = suffix_range last_str size
by_first (c ∷ s) last_str size = first_last_range (c ∷ s) last_str size

unfoldable pub is_blank : ℕ → Bool
is_blank c = c == 32 || c == 9

-- "bytes"
abbrev pub bytes_unit : Bytes
bytes_unit = 98 ∷ 121 ∷ 116 ∷ 101 ∷ 115 ∷ []

unfoldable pub parse_byte_range : Bytes → ℕ → Selection
unfolding equal_fold by_first is_blank
parse_byte_range header size = elim (cut 61 (trim_right is_blank (trim_left is_blank header))) [
  | none ↦ ok 0 size
  | some (unit_, range) ↦
      if not (equal_fold unit_ bytes_unit) then ok 0 size else elim (cut 45 range) [
        | none ↦ ok 0 size
        | some (first_str, last_str) ↦ by_first first_str last_str size
      ]
]
