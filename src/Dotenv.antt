-- ===== src/Dotenv.antt =====
-- config/internal/dotenv/parser.go. A text is its characters, as numbers; `space` is unicode.IsSpace.
pub mod Trim
pub mod Line
pub mod Scan
pub mod RoundTrip
pub mod Tests
use gas.Prelude.{
  ℕ, ◌+◌, suc, nat_eq, Eq, ◌==◌, Bool, true, false, not, ◌&&◌, ◌||◌, ◌↔◌, ltb, Option, none, some,
  List, [], ◌∷◌, ◌++◌, if◌then◌else◌, ◌≡◌, refl, arith,
}
use gas.Maps
use gas.Maps.{Map}
use gas.ByteRange.{trim_left, trim_right}

abbrev pub Text : Type 0
Text = List ℕ

-- == on strings
abbrev pub text_beq : Text → Text → Bool
text_beq [] [] = true
text_beq [] (d ∷ t) = false
text_beq (c ∷ s) [] = false
text_beq (c ∷ s) (d ∷ t) = c == d && text_beq s t

pub text_beq_iff : (s t : Text) → (text_beq s t ≡ true) ↔ (s ≡ t)
text_beq_iff [] [] = ((λ h. refl), λ h. refl)
text_beq_iff [] (d ∷ t) = ((λ h. cc), λ h. cc)
text_beq_iff (c ∷ s) [] = ((λ h. cc), λ h. cc)
text_beq_iff (c ∷ s) (d ∷ t) = ground (arith, text_beq_iff s t, nat_eq.eq_iff c d)

instance abbrev pub text_eq : Eq Text
text_eq = record { is_equal = text_beq; eq_iff = text_beq_iff }

abbrev pub double_quote : ℕ
double_quote = 34

abbrev pub single_quote : ℕ
single_quote = 39

-- " \t" of TrimRight
abbrev pub is_blank : ℕ → Bool
is_blank c = c == 32 || c == 9

-- strings.HasPrefix and strings.HasSuffix of one character
unfoldable pub starts_with : ℕ → Text → Bool
starts_with q [] = false
starts_with q (c ∷ s) = c == q

unfoldable pub ends_with : ℕ → Text → Bool
ends_with q [] = false
ends_with q (c ∷ []) = c == q
ends_with q (c ∷ d ∷ s) = ends_with q (d ∷ s)

-- strings.Trim with a set of characters
abbrev pub trim : (ℕ → Bool) → Text → Text
trim p s = trim_left p (trim_right p s)

-- What the loop of removeInlineComment keeps of `inQuote` and `quoteChar`
unfoldable pub next_quote : ℕ → Option ℕ → Option ℕ
next_quote c none = if c == double_quote || c == single_quote then some c else none
next_quote c (some q) = if (c == double_quote || c == single_quote) && c == q then none else some q

unfoldable pub is_comment : ℕ → Option ℕ → Bool
is_comment c none = c == 35
is_comment c (some q) = false

-- removeInlineComment, in a state of the quote
unfoldable pub remove_inline_comment : Option ℕ → Text → Text
unfolding next_quote is_comment
remove_inline_comment quote [] = []
remove_inline_comment quote (c ∷ s) =
    let rest = remove_inline_comment (next_quote c quote) s in
    if is_comment c quote then [] else c ∷ rest

abbrev pub put_front : ℕ → Option (Text × Text) → Option (Text × Text)
put_front c none = none
put_front c (some (k, v)) = some (c ∷ k, v)

-- strings.SplitN(line, "=", 2), where it has two parts
unfoldable pub split_assignment : Text → Option (Text × Text)
split_assignment [] = none
split_assignment (c ∷ s) =
    let rest = split_assignment s in if c == 61 then some ([], s) else put_front c rest

-- trimQuotes
unfoldable pub trim_quotes : Text → Text
unfolding starts_with ends_with
trim_quotes v =
    if starts_with double_quote v && ends_with double_quote v
    then trim (λ c. c == double_quote) v
    else (if starts_with single_quote v && ends_with single_quote v
        then trim (λ c. c == single_quote) v
        else v)

-- Does the value start in a quote that the line does not close?
unfoldable pub opens : ℕ → Text → Bool
unfolding starts_with ends_with
opens q v = starts_with q v && not (ends_with q (trim_right is_blank v))

pub data Single : Type 0 where
  skipped : Single
  assigned : Text → Text → Single
  opened : Text → Text → ℕ → Single

abbrev pub without_first : Text → Text
without_first [] = []
without_first (c ∷ s) = s

unfoldable pub parse_value : Text → Text → Single
unfolding opens trim_quotes
parse_value key v =
    if opens double_quote v
    then opened key (without_first v) double_quote
    else (if opens single_quote v
        then opened key (without_first v) single_quote
        else assigned key (trim_quotes v))

unfoldable pub parse_assignment : (ℕ → Bool) → Option (Text × Text) → Single
unfolding parse_value
parse_assignment space none = skipped
parse_assignment space (some (k, v)) = parse_value (trim space k) (trim space v)

-- parseSingleLine. A line that starts with a # is empty without its comment.
unfoldable pub parse_single_line : (ℕ → Bool) → Text → Single
unfolding parse_assignment split_assignment remove_inline_comment
parse_single_line space line =
    parse_assignment space (split_assignment (remove_inline_comment none (trim space line)))

-- A value that is open: its key, what it has so far, its quote, and its first line
pub record Open : Type 0 where
  pub key : Text
  pub value : Text
  pub quote : ℕ
  pub start_line : ℕ

pub record State : Type 0 where
  pub env : Map Text Text
  pub multiline : Option Open

-- handleMultiline
unfoldable pub handle_multiline : Text → Open → Map Text Text → State
unfolding ends_with
handle_multiline line o env =
    let value = o.value ++ 10 ∷ line in
    if ends_with o.quote (trim_right is_blank line)
    then record { env = Maps.insert o.key (trim (λ c. c == o.quote) value) env; multiline = none }
    else record { env = env; multiline = some (record o { value = value }) }

unfoldable pub apply_single : ℕ → Map Text Text → Single → State
apply_single n env skipped = record { env = env; multiline = none }
apply_single n env (assigned [] v) = record { env = env; multiline = none }
apply_single n env (assigned (c ∷ k) v) = record {
  env = Maps.insert (c ∷ k) v env;
  multiline = none;
}
apply_single n env (opened [] v q) = record { env = env; multiline = none }
apply_single n env (opened (c ∷ k) v q) = record {
  env = env;
  multiline = some (record { key = c ∷ k; value = v; quote = q; start_line = n });
}

-- One round of the loop of Parse, at line `n`
unfoldable pub parse_line : (ℕ → Bool) → ℕ → Text → State → State
unfolding handle_multiline apply_single parse_single_line
parse_line space n line s = elim s.multiline [
  | some o ↦ handle_multiline line o s.env
  | none ↦ apply_single n s.env (parse_single_line space line)
]

unfoldable pub parse_lines : (ℕ → Bool) → ℕ → List Text → State → State
unfolding parse_line
parse_lines space n [] s = s
parse_lines space n (line ∷ lines) s = parse_lines space (suc n) lines (parse_line space n line s)

pub data Parsed : Type 0 where
  parsed : Map Text Text → Parsed
  scan_failed : Parsed
  unclosed : ℕ → Text → ℕ → Parsed

unfoldable pub finish : Bool → State → Parsed
finish true s = scan_failed
finish false s = elim s.multiline [
  | none ↦ parsed s.env
  | some o ↦ unclosed o.quote o.key o.start_line
]

abbrev pub newline : ℕ
newline = 10

abbrev pub carriage_return : ℕ
carriage_return = 13

abbrev pub put_in_first : ℕ → List Text → List Text
put_in_first c [] = (c ∷ []) ∷ []
put_in_first c (line ∷ lines) = (c ∷ line) ∷ lines

-- The lines of a text, without their newlines; nothing follows the last newline.
unfoldable pub lines_of : Text → List Text
lines_of [] = []
lines_of (c ∷ s) = let rest = lines_of s in if c == newline then [] ∷ rest else put_in_first c rest

-- bufio.ScanLines takes one carriage return off the end of a line.
unfoldable pub drop_return : Text → Text
drop_return [] = []
drop_return (c ∷ []) = if c == carriage_return then [] else c ∷ []
drop_return (c ∷ d ∷ s) = c ∷ drop_return (d ∷ s)

-- The length in UTF-8
abbrev pub byte_size : Text → ℕ
byte_size [] = 0
byte_size (c ∷ s) =
    (if ltb c 128 then 1 else if ltb c 2048 then 2 else if ltb c 65536 then 3 else 4) + byte_size s

-- The most bytes of a line that bufio.Scanner's buffer of 64 KB takes
abbrev pub max_line : ℕ
max_line = 65535

-- The lines that the scanner yields, and whether it stops at one that is too long
unfoldable pub scan : List Text → List Text × Bool
unfolding drop_return
scan [] = ([], false)
scan (line ∷ lines) =
    let rest = scan lines in
    if ltb max_line (byte_size line) then ([], true) else (drop_return line ∷ rest.0, rest.1)

-- Parse
unfoldable pub parse : (ℕ → Bool) → Text → Parsed
unfolding finish parse_lines scan lines_of
parse space text =
    let (lines, fails) = scan (lines_of text) in
    finish fails (parse_lines space 1 lines (record { env = []; multiline = none }))
