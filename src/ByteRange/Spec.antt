-- ===== src/ByteRange/Spec.antt =====
-- What a Range header selects, over numbers of any size, and the bounds of the selection.
use gas.Prelude.{
  ℕ, suc, ◌+◌, ◌-◌, ◌≤◌, ◌<◌, nat_eq, ◌==◌, ltb, leb, ◌≡◌, refl, Bool, true, false, not, ◌&&◌,
  Option, none, some, [], ◌∷◌, if◌then◌else◌, length, arith, Bool-cases, Option-cases, inl, inr,
}
use gas.ByteRange.{
  Bytes, max_int64, min, Selection, ok, invalid_range, cut, trim_left, trim_right, equal_fold,
  bytes_unit, is_blank, by_first, clamped, first_last_range, suffix_range, parse_byte_range,
}
use gas.ByteRange.Digits.{all_digits, value, parse_digits-value, digits_less-value}

-- A nonempty run of digits
abbrev pub is_number : Bytes → Bool
is_number s = leb 1 (length s) && all_digits s

-- The bytes from `first` to `last`, of an object that is longer than `first`.
abbrev pub between : ℕ → ℕ → ℕ → Selection
between first last size =
    if leb size first then invalid_range else ok first (suc (min last (size - 1)) - first)

abbrev pub selected : Bytes → Bytes → ℕ → Selection
selected first_str [] size =
    if is_number first_str then between (value first_str) (size - 1) size else ok 0 size
selected first_str (c ∷ s) size =
    if is_number first_str && all_digits (c ∷ s)
    then (if ltb (value (c ∷ s)) (value first_str)
        then ok 0 size
        else between (value first_str) (value (c ∷ s)) size)
    else ok 0 size

-- On an object of at most the largest int64, a "first-last" range selects the bytes between the
-- numbers that are written, cut off at the end of the object, whatever their size; without `last` it
-- selects all bytes from `first`; a range that starts past the end is invalid; a range that is no two
-- numbers, or whose end is before its start, selects the whole object.
pub first_last_range-selected :
    (first_str last_str : Bytes) (size : ℕ)
    → size ≤ max_int64
    → first_last_range first_str last_str size ≡ selected first_str last_str size
unfolding first_last_range clamped
first_last_range-selected first_str [] size h =
    rw (first_last_range, parse_digits-value first_str) (ground arith)
first_last_range-selected first_str (c ∷ s) size h = elim (Bool-cases (is_number first_str)) [
  | inl number ↦
      rw (first_last_range, parse_digits-value first_str, number, parse_digits-value (c ∷ s))
        (ground (arith, digits_less-value (c ∷ s) first_str))
  | inr other ↦ rw (first_last_range, parse_digits-value first_str, other) (ground arith)
]

abbrev pub suffix_selected : Bytes → ℕ → Selection
suffix_selected last_str size =
    if is_number last_str
    then (if value last_str == 0
        then invalid_range
        else ok (size - min (value last_str) size) (min (value last_str) size))
    else ok 0 size

-- On such an object, a "-suffix" range selects that many last bytes, all of them where the object is
-- shorter; the suffix 0 is invalid; a suffix that is no number selects the whole object.
pub suffix_range-selected :
    (last_str : Bytes) (size : ℕ)
    → size ≤ max_int64
    → suffix_range last_str size ≡ suffix_selected last_str size
unfolding suffix_range
suffix_range-selected last_str size h =
    rw (suffix_range, parse_digits-value last_str) (ground arith)

-- The selection lies in the object, and is not empty unless the object is; or it is refused, with `R`.
abbrev pub Within : Type 0 → ℕ → Selection → Type 0
Within R size (ok offset n) = (offset + n ≤ size) × (0 < size → 0 < n)
Within R size invalid_range = R

Within-between :
    (R : Type 0) (first last size : ℕ)
    → (size ≤ first → R)
    → (first < size → first ≤ last)
    → Within R size (between first last size)
Within-between R first last size refuse h = elim (Bool-cases (leb size first)) [
  | inl past ↦ rw (past) (refuse (ground (arith, past)))
  | inr inside ↦ rw (inside) (ground (arith, h), λ p. ground (arith, h))
]

Within-if :
    (R : Type 0) (size : ℕ) (b : Bool) (x y : Selection)
    → (b ≡ true → Within R size x)
    → (b ≡ false → Within R size y)
    → Within R size (if b then x else y)
Within-if R size true x y hx hy = hx refl
Within-if R size false x y hx hy = hy refl

Within-whole : (R : Type 0) (size : ℕ) → Within R size (ok 0 size)
Within-whole R size = (omega arith, λ h. h)

-- A range that selects no byte of the object: it starts at or past the end, or is the suffix 0.
abbrev pub SelectsNone : Bytes → Bytes → ℕ → Type 0
SelectsNone [] l size = (is_number l ≡ true) × (value l ≡ 0)
SelectsNone (c ∷ s) l size = (is_number (c ∷ s) ≡ true) × (size ≤ value (c ∷ s))

number_of : (f l : Bytes) → (is_number f && all_digits l) ≡ true → is_number f ≡ true
number_of f l h = ground (arith, h)

Within-selected :
    (R : Type 0) (f l : Bytes) (size : ℕ)
    → (is_number f ≡ true → size ≤ value f → R)
    → Within R size (selected f l size)
Within-selected R f [] size refuse =
    Within-if R size (is_number f) (between (value f) (size - 1) size) (ok 0 size)
      (λ h. Within-between R (value f) (size - 1) size (refuse h) (λ q. omega arith))
      (λ h. Within-whole R size)
Within-selected R f (c ∷ s) size refuse =
    Within-if R size (is_number f && all_digits (c ∷ s))
      (if ltb (value (c ∷ s)) (value f) then ok 0 size else between (value f) (value (c ∷ s)) size)
      (ok 0 size)
      (λ h.
        Within-if R size (ltb (value (c ∷ s)) (value f)) (ok 0 size)
          (between (value f) (value (c ∷ s)) size) (λ p. Within-whole R size)
          (λ p.
            Within-between R (value f) (value (c ∷ s)) size (refuse (number_of f (c ∷ s) h))
              (λ q. ground arith)))
      (λ h. Within-whole R size)

Within-suffix_selected :
    (R : Type 0) (l : Bytes) (size : ℕ)
    → (is_number l ≡ true → value l ≡ 0 → R)
    → Within R size (suffix_selected l size)
Within-suffix_selected R l size refuse =
    Within-if R size (is_number l)
      (if value l == 0 then invalid_range else ok (size - min (value l) size) (min (value l) size))
      (ok 0 size)
      (λ h.
        Within-if R size (value l == 0) invalid_range
          (ok (size - min (value l) size) (min (value l) size)) (λ p. refuse h (ground (arith, p)))
          (λ p. (ground arith, λ q. ground arith)))
      (λ h. Within-whole R size)

by_first-Within :
    (R : Type 0) (f l : Bytes) (size : ℕ)
    → size ≤ max_int64
    → (SelectsNone f l size → R)
    → Within R size (by_first f l size)
unfolding by_first
by_first-Within R [] l size h refuse =
    rw (suffix_range-selected l size h) (Within-suffix_selected R l size (λ n z. refuse (n, z)))
by_first-Within R (c ∷ s) l size h refuse =
    rw (first_last_range-selected (c ∷ s) l size h)
      (Within-selected R (c ∷ s) l size (λ n z. refuse (n, z)))

abbrev trimmed : Bytes → Bytes
trimmed header = trim_right is_blank (trim_left is_blank header)

-- The header is a range of bytes that selects no byte of the object.
abbrev pub IsUnsatisfiable : Bytes → ℕ → Type 0
IsUnsatisfiable header size =
    (unit_ : Bytes) × (range : Bytes) × (f : Bytes) × (l : Bytes) × (cut 61 (trimmed header)
      ≡ some (unit_, range))
    × (equal_fold unit_ bytes_unit ≡ true)
    × (cut 45 range ≡ some (f, l))
    × SelectsNone f l size

-- For every object of at most the largest int64 and every header: the bytes that are read lie in the
-- object, and some byte is read unless the object is empty; or the range is refused, and that only
-- where the header is a byte range whose first number is at or past the end of the object, or that
-- asks for the last 0 bytes.
pub parse_byte_range-Within :
    (header : Bytes) (size : ℕ)
    → size ≤ max_int64
    → Within (IsUnsatisfiable header size) size (parse_byte_range header size)
unfolding parse_byte_range
parse_byte_range-Within header size h = by_unit (cut 61 (trimmed header)) refl
  where
    R : Type 0
    R = IsUnsatisfiable header size

    by_spec : Bytes → Selection
    by_spec range = elim (cut 45 range) [
      | none ↦ ok 0 size
      | some (first_str, last_str) ↦ by_first first_str last_str size
    ]

    by_spec-Within :
        (range : Bytes)
        → ((f l : Bytes) → cut 45 range ≡ some (f, l) → SelectsNone f l size → R)
        → Within R size (by_spec range)
    by_spec-Within range refuse = elim (Option-cases (cut 45 range)) [
      | inl no_dash ↦ rw (by_spec, no_dash) (Within-whole R size)
      | inr ((f, l), e) ↦ rw (by_spec, e) (by_first-Within R f l size h (refuse f l e))
    ]

    by_unit :
        (c : Option (Bytes × Bytes))
        → cut 61 (trimmed header) ≡ c
        → Within R size (elim c [
          | none ↦ ok 0 size
          | some (unit_, range) ↦
              if not (equal_fold unit_ bytes_unit) then ok 0 size else by_spec range
        ])
    by_unit none e = Within-whole R size
    by_unit (some (unit_, range)) e =
        Within-if R size (not (equal_fold unit_ bytes_unit)) (ok 0 size) (by_spec range)
          (λ p. Within-whole R size)
          (λ p.
            by_spec-Within range
              (λ f l is none_. (unit_, range, f, l, e, ground (arith, p), is, none_)))
