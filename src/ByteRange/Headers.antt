-- ===== src/ByteRange/Headers.antt =====
-- Headers as a client writes them.
use gas.Prelude.{ℕ, ◌≤◌, nat_eq, ◌≡◌, refl, true, false, some, [], ◌∷◌, ◌++◌, arith, any}
use gas.ByteRange.{
  Bytes, max_int64, cut, trim_right, equal_fold, bytes_unit, is_blank, by_first, parse_byte_range,
}
use gas.ByteRange.Digits.{all_digits}
use gas.ByteRange.Spec.{selected, suffix_selected, first_last_range-selected, suffix_range-selected}

trim_right-id : (s : Bytes) → any is_blank s ≡ false → trim_right is_blank s ≡ s
unfolding is_blank
trim_right-id [] h = refl
trim_right-id (c ∷ []) h = ground arith
trim_right-id (c ∷ d ∷ s) h = rw (trim_right-id (d ∷ s) (ground arith))

any-is_blank :
    (f l : Bytes) → all_digits f ≡ true → all_digits l ≡ true → any is_blank (f ++ 45 ∷ l) ≡ false
unfolding is_blank
any-is_blank [] [] hf hl = refl
any-is_blank [] (c ∷ l) hf hl = ground (arith, any-is_blank [] l refl (ground arith))
any-is_blank (c ∷ f) l hf hl = ground (arith, any-is_blank f l)

cut-dash : (f l : Bytes) → all_digits f ≡ true → cut 45 (f ++ 45 ∷ l) ≡ some (f, l)
cut-dash [] l h = refl
cut-dash (c ∷ f) l h = ground (arith, cut-dash f l)

-- The header "bytes=f-l".
abbrev pub range_header : Bytes → Bytes → Bytes
range_header f l = bytes_unit ++ 61 ∷ f ++ 45 ∷ l

-- The header "bytes=first-last" or "bytes=first-", of digits with at least one in `first`, selects what
-- RFC 9110 has it select, and "bytes=-suffix" likewise, on an object of at most the largest int64.
pub parse_byte_range-selected :
    (f l : Bytes) (size : ℕ)
    → all_digits f ≡ true
    → all_digits l ≡ true
    → size ≤ max_int64
    → parse_byte_range (range_header f l) size
      ≡ (elim f [ [] ↦ suffix_selected l size | c ∷ s ↦ selected (c ∷ s) l size ])
unfolding parse_byte_range by_first equal_fold is_blank
parse_byte_range-selected f l size hf hl h =
    rw (parse_byte_range, trimmed, cut-dash f l hf) (by_first-selected f hf)
  where
    trimmed : trim_right is_blank (range_header f l) ≡ range_header f l
    trimmed = trim_right-id (range_header f l) (any-is_blank f l hf hl)

    by_first-selected :
        (f : Bytes)
        → all_digits f ≡ true
        → by_first f l size
          ≡ (elim f [ [] ↦ suffix_selected l size | c ∷ s ↦ selected (c ∷ s) l size ])
    by_first-selected [] e = suffix_range-selected l size h
    by_first-selected (c ∷ s) e = first_last_range-selected (c ∷ s) l size h
