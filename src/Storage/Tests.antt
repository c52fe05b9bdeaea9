-- ===== src/Storage/Tests.antt =====
-- A body that is a list and answers two bytes at most, and the theorems at it.
use gas.Prelude.{ℕ, zero, suc, nat_eq, false, Option, none, some, [], ◌∷◌, ◌++◌, ◌≡◌, refl, pos}
use gas.ByteRange.{Bytes}
use gas.Storage.{
  is_valid_bucket_name, ok, validate_list_objects, is_alnum, has_text, has_prefix, has_suffix,
  has_invalid_bytes, has_invalid_prefix, has_invalid_suffix, ip_from, resolve_bucket, max_keys_of,
  with_token,
}
use gas.Storage.Length.{
  BodyError, eof, Answer, reads, LengthReader, reader, check_length, read_all, read_bytes, received,
  settle, settled, probe, probed, probed_behind, failed, at_eof,
}
use gas.Storage.Exact.{IsReader, IsExact, read_all-IsExact}

abbrev read_two : ℕ → Bytes → Answer × Bytes
read_two zero b = (reads [] none, b)
read_two (suc m) [] = (reads [] (some eof), [])
read_two (suc zero) (c ∷ b) = (reads (c ∷ []) none, b)
read_two (suc (suc m)) (c ∷ []) = (reads (c ∷ []) (some eof), [])
read_two (suc (suc m)) (c ∷ d ∷ b) = (reads (c ∷ d ∷ []) none, b)

next_two :
    (m : ℕ) (b c : Bytes) (chunk : Bytes) (end : Option BodyError)
    → read_two m b ≡ (reads chunk end, c)
    → b ≡ chunk ++ c
next_two zero b c chunk end h = cc
next_two (suc m) [] c chunk end h = cc
next_two (suc zero) (x ∷ b) c chunk end h = cc
next_two (suc (suc m)) (x ∷ []) c chunk end h = cc
next_two (suc (suc m)) (x ∷ y ∷ b) c chunk end h = cc

last_two :
    (m : ℕ) (b c : Bytes) (chunk : Bytes) → read_two m b ≡ (reads chunk (some eof), c) → c ≡ []
last_two zero b c chunk h = cc
last_two (suc m) [] c chunk h = cc
last_two (suc zero) (x ∷ b) c chunk h = cc
last_two (suc (suc m)) (x ∷ []) c chunk h = cc
last_two (suc (suc m)) (x ∷ y ∷ b) c chunk h = cc

abbrev laws : IsReader read_two
laws = record { remaining = λ b. b; next = next_two; last = last_two }

abbrev three : LengthReader Bytes
three = record { body = 7 ∷ 8 ∷ 9 ∷ []; want = 3; read = 0; error = none }

passes_three : (read_all read_two (2 ∷ 4 ∷ []) three).0 ≡ 7 ∷ 8 ∷ 9 ∷ []
unfolding read_all read_bytes received settle settled probe probed probed_behind failed
passes_three = refl

ends : (read_all read_two (2 ∷ 4 ∷ []) three).1.error ≡ some at_eof
unfolding read_all read_bytes received settle settled probe probed probed_behind failed
ends = refl

-- A body of four bytes: the third is withheld.
withholds :
    (read_all read_two
      (2 ∷ 4 ∷ [])
      (record { body = 7 ∷ 8 ∷ 9 ∷ 1 ∷ []; want = 3; read = 0; error = none })).0
    ≡ 7 ∷ 8 ∷ []
unfolding read_all read_bytes received settle settled probe probed probed_behind failed
withholds = refl

three_checked : check_length [] (some (7 ∷ 8 ∷ 9 ∷ [])) (some (pos 3)) ≡ reader three
unfolding check_length
three_checked = refl

read_all-IsExact_example :
    IsExact read_two laws
      (7 ∷ 8 ∷ 9 ∷ [])
      (read_all read_two (2 ∷ 4 ∷ []) three).0
      (read_all read_two (2 ∷ 4 ∷ []) three).1
read_all-IsExact_example =
    read_all-IsExact read_two laws [] (7 ∷ 8 ∷ 9 ∷ []) 3 three (2 ∷ 4 ∷ []) three_checked

-- "a.b"
abbrev bucket : Bytes
bucket = 97 ∷ 46 ∷ 98 ∷ []

page : validate_list_objects (some bucket) (some (pos 5000)) none [] ≡ ok (bucket, 1000)
unfolding validate_list_objects resolve_bucket max_keys_of with_token is_valid_bucket_name is_alnum
    has_text has_prefix has_suffix has_invalid_bytes has_invalid_prefix has_invalid_suffix ip_from
page = refl

-- "1.2.3.4"
ip_refused : is_valid_bucket_name (49 ∷ 46 ∷ 50 ∷ 46 ∷ 51 ∷ 46 ∷ 52 ∷ []) ≡ false
unfolding is_valid_bucket_name is_alnum has_text has_prefix has_suffix has_invalid_bytes
    has_invalid_prefix has_invalid_suffix ip_from
ip_refused = refl
