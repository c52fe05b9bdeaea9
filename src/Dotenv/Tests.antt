-- ===== src/Dotenv/Tests.antt =====
-- Lines of a file, and the theorem at two entries.
use gas.Prelude.{ℕ, nat_eq, ◌==◌, Bool, ◌||◌, List, [], ◌∷◌, ◌≡◌, refl}
use gas.Dotenv.{
  parse, scan, lines_of, drop_return, parsed, unclosed, parse_lines, parse_line, parse_single_line,
  parse_assignment, parse_value, split_assignment, remove_inline_comment, next_quote, is_comment,
  trim_quotes, opens, starts_with, ends_with, handle_multiline, apply_single, finish,
}
use gas.Dotenv.RoundTrip.{Entry}

abbrev is_space : ℕ → Bool
is_space c = c == 32 || c == 9 || c == 10 || c == 13

-- A="x#" and B='y z' over two lines
abbrev entries : List Entry
entries =
    record { key = 65 ∷ []; quote = 34; first = 120 ∷ 35 ∷ []; rest = [] }
    ∷ record { key = 66 ∷ []; quote = 39; first = 121 ∷ []; rest = (122 ∷ 61 ∷ []) ∷ [] }
    ∷ []

-- `A="` opens no value, although its quote is never closed.
lone_quote : parse is_space (65 ∷ 61 ∷ 34 ∷ []) ≡ parsed ((65 ∷ [], []) ∷ [])
unfolding parse scan lines_of drop_return parse_lines parse_line parse_single_line parse_assignment
    parse_value split_assignment remove_inline_comment next_quote is_comment trim_quotes opens
    starts_with ends_with apply_single finish
lone_quote = refl

-- `A="x` and `y" ` : the quote in front of the blank stays in the value.
quote_and_blank :
    parse is_space (65 ∷ 61 ∷ 34 ∷ 120 ∷ 10 ∷ 121 ∷ 34 ∷ 32 ∷ [])
    ≡ parsed ((65 ∷ [], 120 ∷ 10 ∷ 121 ∷ 34 ∷ 32 ∷ []) ∷ [])
unfolding parse scan lines_of drop_return parse_lines parse_line parse_single_line parse_assignment
    parse_value split_assignment remove_inline_comment next_quote is_comment trim_quotes opens
    starts_with ends_with apply_single finish handle_multiline
quote_and_blank = refl

-- `A="x` alone
never_closed : parse is_space (65 ∷ 61 ∷ 34 ∷ 120 ∷ []) ≡ unclosed 34 (65 ∷ []) 1
unfolding parse scan lines_of drop_return parse_lines parse_line parse_single_line parse_assignment
    parse_value split_assignment remove_inline_comment next_quote is_comment trim_quotes opens
    starts_with ends_with apply_single finish handle_multiline
never_closed = refl
