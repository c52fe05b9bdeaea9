-- ===== src/Dotenv/RoundTrip.antt =====
-- A printer of quoted values, on one line or over several, and that Parse reads what it prints.
use gas.Prelude.{ℕ, nat_eq, Bool, false, none, some, List, [], ◌∷◌, ◌++◌, contains, All, ◌≡◌}
use gas.Maps
use gas.Maps.{Map}
use gas.Dotenv.{Text, text_eq, is_blank, State}
use gas.Dotenv.Scan.{IsLine}
use gas.Dotenv.Line.{IsQuote, IsKey}

-- An entry of a file: the value is `first`, and then the lines `rest`.
pub record Entry : Type 0 where
  pub key : Text
  pub quote : ℕ
  pub first : Text
  pub rest : List Text

abbrev pub print_rest : ℕ → Text → List Text → List Text
print_rest q line [] = (line ++ q ∷ []) ∷ []
print_rest q line (next ∷ lines) = line ∷ print_rest q next lines

abbrev pub print_value : Text → ℕ → Text → List Text → List Text
print_value key q first [] = (key ++ 61 ∷ q ∷ (first ++ q ∷ [])) ∷ []
print_value key q first (line ∷ lines) = (key ++ 61 ∷ q ∷ first) ∷ print_rest q line lines

abbrev pub print : Entry → List Text
print e = print_value e.key e.quote e.first e.rest

abbrev pub print_all : List Entry → List Text
print_all [] = []
print_all (e ∷ es) = print e ++ print_all es

abbrev pub join : List Text → Text
join [] = []
join (line ∷ lines) = 10 ∷ line ++ join lines

abbrev pub value_of : Entry → Text
value_of e = e.first ++ join e.rest

abbrev pub env_of : List Entry → Map Text Text → Map Text Text
env_of [] env = env
env_of (e ∷ es) env = env_of es (Maps.insert e.key (value_of e) env)

-- What an open value's first line ends in; the trimming of the line would take a space away.
abbrev pub EndsSolid : (ℕ → Bool) → Text → List Text → Type 0
EndsSolid space first [] = Unit
EndsSolid space first (line ∷ lines) =
    (front : Text) × (c : ℕ) × (first ≡ front ++ c ∷ []) × (space c ≡ false) × (is_blank c ≡ false)

pub record IsPrintable (space : ℕ → Bool) (e : Entry) : Type 0 where
  pub plain_key : IsKey space e.key
  pub quote : IsQuote e.quote
  pub no_quote : contains e.first e.quote ≡ false
  pub no_quotes : All (λ line. contains line e.quote ≡ false) e.rest
  pub solid : EndsSolid space e.first e.rest
  pub lines : All IsLine (print e)

abbrev plain_state : Map Text Text → State
plain_state env = record { env = env; multiline = none }

abbrev open_state : Map Text Text → Text → Text → ℕ → ℕ → State
open_state env key value q start = record {
  env = env;
  multiline = some (record { key = key; value = value; quote = q; start_line = start });
}
