-- ===== src/Dotenv/Line.antt =====
-- One line `KEY="…` or `KEY='…`.
use gas.Prelude.{
  ℕ, nat_eq, ◌==◌, Bool, true, false, ◌||◌, none, some, [], ◌∷◌, ◌++◌, contains, any, ◌≡◌, refl,
  sym, ap, ◌∙◌, arith, inl, inr, Bool-cases, subst,
}
use gas.ByteRange.{trim_left, trim_right}
use gas.Dotenv.{
  Text, double_quote, single_quote, is_blank, starts_with, trim, next_quote, is_comment,
  remove_inline_comment, split_assignment, trim_quotes, opens, assigned, opened, parse_value,
  parse_assignment, parse_single_line,
}
use gas.Dotenv.Trim.{
  trim_right-append, trim_right_lacks, trim_left_lacks, trim_left-starts, trim-between,
  ends_with-append,
}

abbrev pub IsQuote : ℕ → Type 0
IsQuote q = (q == double_quote || q == single_quote) ≡ true

-- A key that the parser takes as it stands
pub record IsKey (space : ℕ → Bool) (k : Text) : Type 0 where
  pub first : ℕ
  pub others : Text
  pub is : k ≡ first ∷ others
  pub spaceless : any space k ≡ false
  pub no_equals : contains k 61 ≡ false
  pub no_hash : contains k 35 ≡ false
  pub no_double : contains k double_quote ≡ false
  pub no_single : contains k single_quote ≡ false

remove_inline_comment-key :
    (k s : Text)
    → contains k 35 ≡ false
    → contains k double_quote ≡ false
    → contains k single_quote ≡ false
    → remove_inline_comment none (k ++ s) ≡ k ++ remove_inline_comment none s
unfolding remove_inline_comment next_quote is_comment
remove_inline_comment-key [] s a b c = refl
remove_inline_comment-key (x ∷ k) s a b c = ground (arith, a, b, c, remove_inline_comment-key k s)

pub remove_inline_comment-quoted :
    (q : ℕ) (l s : Text)
    → contains l q ≡ false
    → remove_inline_comment (some q) (l ++ s) ≡ l ++ remove_inline_comment (some q) s
unfolding remove_inline_comment next_quote is_comment
remove_inline_comment-quoted q [] s h = refl
remove_inline_comment-quoted q (x ∷ l) s h = ground (arith, h, remove_inline_comment-quoted q l s)

split_assignment-key :
    (k v : Text) → contains k 61 ≡ false → split_assignment (k ++ 61 ∷ v) ≡ some (k, v)
unfolding split_assignment
split_assignment-key [] v h = refl
split_assignment-key (c ∷ k) v h = ground (arith, h, split_assignment-key k v)

trim_right-front :
    (p : ℕ → Bool) (t : Text) (c : ℕ) (s : Text)
    → trim_right p (c ∷ s) ≡ c ∷ s
    → trim_right p (t ++ c ∷ s) ≡ t ++ c ∷ s
trim_right-front p [] c s h = h
trim_right-front p (d ∷ []) c s h = ground (arith, h)
trim_right-front p (d ∷ e ∷ t) c s h = ground (arith, trim_right-front p (e ∷ t) c s h)

value_kept :
    (q : ℕ) (w : Text)
    → IsQuote q
    → remove_inline_comment (some q) w ≡ w
    → remove_inline_comment none (61 ∷ q ∷ w) ≡ 61 ∷ q ∷ w
unfolding remove_inline_comment next_quote is_comment
value_kept q w quote plain = ground (arith, quote, plain)

trim_left-key :
    (space : ℕ → Bool) (k s : Text) (c : ℕ) (o : Text)
    → k ≡ c ∷ o
    → any space k ≡ false
    → trim_left space (k ++ s) ≡ k ++ s
trim_left-key space [] s c o is h = cc
trim_left-key space (x ∷ k) s c o is h = trim_left-starts space x (k ++ s) (ground (arith, h))

-- A line of a key and a value that starts in a quote
pub parse_single_line-value :
    (space : ℕ → Bool) (k w : Text) (q : ℕ)
    → IsKey space k
    → IsQuote q
    → space q ≡ false
    → trim_right space (q ∷ w) ≡ q ∷ w
    → remove_inline_comment (some q) w ≡ w
    → parse_single_line space (k ++ 61 ∷ q ∷ w) ≡ parse_value k (q ∷ w)
unfolding parse_single_line parse_assignment
parse_single_line-value space k w q key quote solid whole plain =
    let trimmed : trim space (k ++ 61 ∷ q ∷ w) ≡ k ++ 61 ∷ q ∷ w =
      ap (trim_left space) (trim_right-front space k 61 (q ∷ w) (rw (whole) refl))
      ∙ trim_left-key space k (61 ∷ q ∷ w) key.first key.others key.is key.spaceless in
    let uncommented : remove_inline_comment none (k ++ 61 ∷ q ∷ w) ≡ k ++ 61 ∷ q ∷ w =
      remove_inline_comment-key k (61 ∷ q ∷ w) key.no_hash key.no_double key.no_single
      ∙ ap (λ t. k ++ t) (value_kept q w quote plain) in
    let split = split_assignment-key k (q ∷ w) key.no_equals in
    let key_trimmed : trim space k ≡ k =
      ap (trim_left space) (trim_right_lacks space k key.spaceless)
      ∙ trim_left_lacks space k key.spaceless in
    let value_trimmed : trim space (q ∷ w) ≡ q ∷ w =
      ap (trim_left space) whole ∙ trim_left-starts space q w solid in
    ap (λ t. parse_assignment space (split_assignment (remove_inline_comment none t))) trimmed
    ∙ ap (λ t. parse_assignment space (split_assignment t)) uncommented
    ∙ ap (parse_assignment space) split
    ∙ ap (λ t. parse_value t (trim space (q ∷ w))) key_trimmed
    ∙ ap (parse_value k) value_trimmed

-- A quote is one of two characters.
pub quote_elim : (P : ℕ → Type 0) (q : ℕ) → IsQuote q → P double_quote → P single_quote → P q
quote_elim P q quote d s = elim (Bool-cases (q == double_quote)) [
  | inl double ↦ subst P (sym ((nat_eq.eq_iff q double_quote).0 double)) d
  | inr other ↦ subst P (sym ((nat_eq.eq_iff q single_quote).0 (ground (arith, quote, other)))) s
]

abbrev Closed : ℕ → Type 0
Closed q = (k l : Text) → contains l q ≡ false → parse_value k (q ∷ l ++ q ∷ []) ≡ assigned k l

Closed-double : Closed double_quote
unfolding parse_value opens trim_quotes starts_with
Closed-double k l h =
    simp
      (
        parse_value,
        opens,
        trim_quotes,
        starts_with,
        trim_right-append is_blank (double_quote ∷ l) double_quote refl,
        ends_with-append double_quote double_quote (double_quote ∷ l),
        trim-between double_quote l h,
      )
      refl

Closed-single : Closed single_quote
unfolding parse_value opens trim_quotes starts_with
Closed-single k l h =
    simp
      (
        parse_value,
        opens,
        trim_quotes,
        starts_with,
        trim_right-append is_blank (single_quote ∷ l) single_quote refl,
        ends_with-append single_quote single_quote (single_quote ∷ l),
        trim-between single_quote l h,
      )
      refl

-- The parser's view of the value: closed on the line, or open
pub parse_value-closed :
    (k l : Text) (q : ℕ)
    → IsQuote q
    → contains l q ≡ false
    → parse_value k (q ∷ l ++ q ∷ []) ≡ assigned k l
parse_value-closed k l q quote h = quote_elim Closed q quote Closed-double Closed-single k l h

abbrev Opened : ℕ → Type 0
Opened q =
    (k front : Text) (c : ℕ)
    → (c == q) ≡ false
    → is_blank c ≡ false
    → parse_value k (q ∷ front ++ c ∷ []) ≡ opened k (front ++ c ∷ []) q

Opened-double : Opened double_quote
unfolding parse_value opens starts_with
Opened-double k front c other solid =
    simp
      (
        parse_value,
        opens,
        starts_with,
        trim_right-append is_blank (double_quote ∷ front) c solid,
        ends_with-append double_quote c (double_quote ∷ front),
        other,
      )
      refl

Opened-single : Opened single_quote
unfolding parse_value opens starts_with
Opened-single k front c other solid =
    simp
      (
        parse_value,
        opens,
        starts_with,
        trim_right-append is_blank (single_quote ∷ front) c solid,
        ends_with-append single_quote c (single_quote ∷ front),
        other,
      )
      refl

pub parse_value-opened :
    (k front : Text) (c q : ℕ)
    → IsQuote q
    → (c == q) ≡ false
    → is_blank c ≡ false
    → parse_value k (q ∷ front ++ c ∷ []) ≡ opened k (front ++ c ∷ []) q
parse_value-opened k front c q quote other solid =
    quote_elim Opened q quote Opened-double Opened-single k front c other solid
