-- ===== src/Storage.antt =====
-- storage/internal/util.go: the checks of bucket names, keys, limits and conditions. A string is its
-- bytes.
pub mod Length
pub mod Exact
pub mod Complete
pub mod Tests
use gas.Prelude.{
  ℕ, ◌+◌, ◌-◌, zero, suc, nat_eq, ◌==◌, ltb, leb, Bool, true, false, not, ◌&&◌, ◌||◌, Option, none,
  some, List, [], ◌∷◌, ◌++◌, if◌then◌else◌, length, any, drop, ℤ, pos, negsuc, pos_part,
}
use gas.ByteRange.{Bytes, min}

-- strings.HasPrefix
unfoldable pub has_prefix : Bytes → Bytes → Bool
has_prefix s [] = true
has_prefix [] (p ∷ ps) = false
has_prefix (c ∷ s) (p ∷ ps) = c == p && has_prefix s ps

-- strings.HasSuffix
unfoldable pub has_suffix : Bytes → Bytes → Bool
unfolding has_prefix
has_suffix s suffix =
    leb (length suffix) (length s) && (has_prefix (drop (length s - length suffix) s) suffix)

-- strings.Contains
unfoldable pub has_text : Bytes → Bytes → Bool
unfolding has_prefix
has_text [] t = has_prefix [] t
has_text (c ∷ s) t = has_prefix (c ∷ s) t || has_text s t

-- xn--, sthree-, amzn-s3-demo-
abbrev pub invalid_prefixes : List Bytes
invalid_prefixes =
    (120 ∷ 110 ∷ 45 ∷ 45 ∷ [])
    ∷ (115 ∷ 116 ∷ 104 ∷ 114 ∷ 101 ∷ 101 ∷ 45 ∷ [])
    ∷ (97 ∷ 109 ∷ 122 ∷ 110 ∷ 45 ∷ 115 ∷ 51 ∷ 45 ∷ 100 ∷ 101 ∷ 109 ∷ 111 ∷ 45 ∷ [])
    ∷ []

-- -s3alias, --ol-s3, .mrap, --x-s3, --table-s3, -an
abbrev pub invalid_suffixes : List Bytes
invalid_suffixes =
    (45 ∷ 115 ∷ 51 ∷ 97 ∷ 108 ∷ 105 ∷ 97 ∷ 115 ∷ [])
    ∷ (45 ∷ 45 ∷ 111 ∷ 108 ∷ 45 ∷ 115 ∷ 51 ∷ [])
    ∷ (46 ∷ 109 ∷ 114 ∷ 97 ∷ 112 ∷ [])
    ∷ (45 ∷ 45 ∷ 120 ∷ 45 ∷ 115 ∷ 51 ∷ [])
    ∷ (45 ∷ 45 ∷ 116 ∷ 97 ∷ 98 ∷ 108 ∷ 101 ∷ 45 ∷ 115 ∷ 51 ∷ [])
    ∷ (45 ∷ 97 ∷ 110 ∷ [])
    ∷ []

abbrev pub is_digit : ℕ → Bool
is_digit c = leb 48 c && leb c 57

unfoldable pub is_alnum : ℕ → Bool
is_alnum c = (leb 97 c && leb c 122) || is_digit c

unfoldable pub has_invalid_bytes : Bytes → Bool
unfolding is_alnum
has_invalid_bytes name = any (λ c. not (is_alnum c) && (not (c == 46) && not (c == 45))) name

unfoldable pub has_invalid_prefix : Bytes → Bool
unfolding has_prefix
has_invalid_prefix name = any (λ prefix. has_prefix name prefix) invalid_prefixes

unfoldable pub has_invalid_suffix : Bytes → Bool
unfolding has_suffix
has_invalid_suffix name = any (λ suffix. has_suffix name suffix) invalid_suffixes

-- ipLike: four groups of digits with dots between them. `dots` were seen, and `digit` says whether the
-- group has one.
unfoldable pub ip_from : ℕ → Bool → Bytes → Bool
ip_from dots digit [] = dots == 3 && digit
ip_from dots digit (c ∷ s) =
    (is_digit c || c == 46 && digit)
    && ip_from (if is_digit c then dots else suc dots) (is_digit c) s

abbrev pub first_byte : Bytes → ℕ
first_byte [] = 0
first_byte (c ∷ s) = c

abbrev pub last_byte : Bytes → ℕ
last_byte [] = 0
last_byte (c ∷ []) = c
last_byte (c ∷ d ∷ s) = last_byte (d ∷ s)

-- IsValidBucketName
unfoldable pub is_valid_bucket_name : Bytes → Bool
unfolding is_alnum has_text has_invalid_bytes has_invalid_prefix has_invalid_suffix ip_from
is_valid_bucket_name name =
    if ltb (length name) 3 || ltb 63 (length name)
    then false
    else (if not (is_alnum (first_byte name)) || not (is_alnum (last_byte name))
        then false
        else (if has_text name (46 ∷ 46 ∷ [])
            then false
            else (if has_invalid_bytes name
                then false
                else (if has_invalid_prefix name
                    then false
                    else (if has_invalid_suffix name then false else not (ip_from 0 false name))))))

pub data StorageError : Type 0 where
  invalid_key invalid_bucket invalid_limit invalid_continuation_token : StorageError
  both_conditions none_match_not_star match_empty_or_star : StorageError

pub data Result (A : Type 0) : Type 0 where
  ok : A → Result A
  err : StorageError → Result A

-- utf8.ValidString, and path.Base and path.Clean
pub record Strings : Type 0 where
  pub valid_utf8 : Bytes → Bool
  pub base : Bytes → Bytes
  pub clean : Bytes → Bytes

abbrev pub is_dot : Bytes → Bool
is_dot (c ∷ []) = c == 46
is_dot s = false

unfoldable pub is_valid_object_key : Strings → Bytes → Bool
is_valid_object_key lib key =
    if ltb (length key) 1 || ltb 1024 (length key)
    then false
    else (if not (lib.valid_utf8 key)
        then false
        else not (is_dot (lib.base key) || is_dot (lib.clean key)))

unfoldable pub resolve_bucket : Option Bytes → Bytes → Result Bytes
unfolding is_valid_bucket_name
resolve_bucket (some bucket) cfg_bucket =
    if not (is_valid_bucket_name bucket) then err invalid_bucket else ok bucket
resolve_bucket none cfg_bucket =
    if is_valid_bucket_name cfg_bucket then ok cfg_bucket else err invalid_bucket

-- ValidateInput, of the key and the bucket of the input
unfoldable pub validate_input : Strings → Bytes → Option Bytes → Bytes → Result Bytes
unfolding is_valid_object_key resolve_bucket
validate_input lib key bucket cfg_bucket =
    if not (is_valid_object_key lib key) then err invalid_key else resolve_bucket bucket cfg_bucket

abbrev pub max_list_keys : ℕ
max_list_keys = 1000

abbrev pub max_list_buckets : ℕ
max_list_buckets = 10000

abbrev pub is_empty_token : Option Bytes → Bool
is_empty_token none = false
is_empty_token (some []) = true
is_empty_token (some (c ∷ s)) = false

-- The limit as int32: `*input.MaxKeys < 1`
abbrev pub below_one : ℤ → Bool
below_one n = ltb (pos_part n) 1

unfoldable pub max_keys_of : Option ℤ → Result ℕ
max_keys_of none = ok max_list_keys
max_keys_of (some n) =
    if below_one n then err invalid_limit else ok (min (pos_part n) max_list_keys)

unfoldable pub with_token : {A : Type 0} → Option Bytes → A → Result A
with_token token a = if is_empty_token token then err invalid_continuation_token else ok a

abbrev pub and_then : {A B : Type 0} → Result A → (A → Result B) → Result B
and_then (ok a) f = f a
and_then (err e) f = err e

-- ValidateListObjects
unfoldable pub validate_list_objects :
    Option Bytes → Option ℤ → Option Bytes → Bytes → Result (Bytes × ℕ)
unfolding resolve_bucket max_keys_of with_token
validate_list_objects bucket max_keys token cfg_bucket =
    and_then (resolve_bucket bucket cfg_bucket)
      (λ b. and_then (max_keys_of max_keys) (λ n. with_token token (b, n)))

unfoldable pub max_buckets_of : Option ℤ → Result ℕ
max_buckets_of none = ok max_list_buckets
max_buckets_of (some n) =
    if below_one n || ltb max_list_buckets (pos_part n) then err invalid_limit else ok (pos_part n)

-- ValidateListBuckets
unfoldable pub validate_list_buckets : Option ℤ → Option Bytes → Result ℕ
unfolding max_buckets_of with_token
validate_list_buckets max_buckets token =
    and_then (max_buckets_of max_buckets) (λ n. with_token token n)

abbrev pub without_last : Bytes → Bytes
without_last [] = []
without_last (c ∷ []) = []
without_last (c ∷ d ∷ s) = c ∷ without_last (d ∷ s)

unfoldable pub unquote : Bytes → Bytes
unquote [] = []
unquote (c ∷ s) =
    if leb 1 (length s) && (c == 34 && last_byte s == 34) then without_last s else c ∷ s

abbrev pub is_star : Bytes → Bool
is_star (c ∷ []) = c == 42
is_star s = false

unfoldable pub etag_of : Bytes → Result (Option Bytes)
etag_of [] = err match_empty_or_star
etag_of (c ∷ s) = if is_star (c ∷ s) then err match_empty_or_star else ok (some (c ∷ s))

-- ValidateCondition, of IfMatch and IfNoneMatch; the ETag is `none` where IfMatch is not set.
unfoldable pub validate_condition : Option Bytes → Option Bytes → Result (Option Bytes)
unfolding unquote etag_of
validate_condition (some m) (some n) = err both_conditions
validate_condition none (some n) = if not (is_star n) then err none_match_not_star else ok none
validate_condition none none = ok none
validate_condition (some m) none = etag_of (unquote m)
