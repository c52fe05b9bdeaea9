-- ===== src/Dotenv/Scan.antt =====
-- The lines that Parse reads of a text that was written line by line.
use gas.Prelude.{
  ◌≤◌, nat_eq, false, ltb, List, [], ◌∷◌, ◌++◌, contains, All, ◌≡◌, refl, ap, ◌∙◌, arith,
}
use gas.Dotenv.{
  Text, ends_with, newline, carriage_return, lines_of, drop_return, byte_size, max_line, scan,
}

-- Each line, with a newline behind it
abbrev pub unlines : List Text → Text
unlines [] = []
unlines (line ∷ lines) = line ++ newline ∷ unlines lines

-- A line that is read as it was written
pub record IsLine (line : Text) : Type 0 where
  pub no_newline : contains line newline ≡ false
  pub no_return : ends_with carriage_return line ≡ false
  pub fits : byte_size line ≤ max_line

lines_of-line :
    (line s : Text)
    → contains line newline ≡ false
    → lines_of (line ++ newline ∷ s) ≡ line ∷ lines_of s
unfolding lines_of
lines_of-line [] s h = refl
lines_of-line (c ∷ line) s h = ground (arith, h, lines_of-line line s)

lines_of-unlines : (lines : List Text) → All IsLine lines → lines_of (unlines lines) ≡ lines
unfolding lines_of
lines_of-unlines [] h = refl
lines_of-unlines (line ∷ lines) h =
    lines_of-line line (unlines lines) h.0.no_newline
    ∙ ap (λ ls. line ∷ ls) (lines_of-unlines lines h.1)

drop_return-id : (line : Text) → ends_with carriage_return line ≡ false → drop_return line ≡ line
unfolding drop_return ends_with
drop_return-id [] h = refl
drop_return-id (c ∷ []) h = ground (arith, h)
drop_return-id (c ∷ d ∷ s) h = ap (λ l. c ∷ l) (drop_return-id (d ∷ s) h)

scan-id : (lines : List Text) → All IsLine lines → scan lines ≡ (lines, false)
unfolding scan
scan-id [] h = refl
scan-id (line ∷ lines) h =
    let short : ltb max_line (byte_size line) ≡ false = ground (arith, h.0.fits) in
    simp (scan, short, drop_return-id line h.0.no_return, scan-id lines h.1) refl

-- What is written as lines is scanned as the same lines, without an error.
pub scan-unlines :
    (lines : List Text) → All IsLine lines → scan (lines_of (unlines lines)) ≡ (lines, false)
scan-unlines lines h = ap scan (lines_of-unlines lines h) ∙ scan-id lines h
