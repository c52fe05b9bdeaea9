-- ===== src/Dotenv/Trim.antt =====
-- Trimming and suffixes, on texts that lack the characters in question.
use gas.Prelude.{
  ℕ, nat_eq, ◌==◌, Bool, true, false, [], ◌∷◌, ◌++◌, contains, any, ◌≡◌, refl, ap, ◌∙◌, arith,
  beq_refl,
}
use gas.ByteRange.{trim_left, trim_right}
use gas.Dotenv.{Text, ends_with, trim}

pub trim_right-append :
    (p : ℕ → Bool) (s : Text) (c : ℕ) → p c ≡ false → trim_right p (s ++ c ∷ []) ≡ s ++ c ∷ []
trim_right-append p [] c h = rw (h) refl
trim_right-append p (d ∷ []) c h = rw (h) refl
trim_right-append p (d ∷ e ∷ s) c h = ground (arith, trim_right-append p (e ∷ s) c h)

pub trim_right_snoc :
    (p : ℕ → Bool) (s : Text) (c : ℕ) → p c ≡ true → trim_right p (s ++ c ∷ []) ≡ trim_right p s
trim_right_snoc p [] c h = rw (h) refl
trim_right_snoc p (d ∷ s) c h = rw (trim_right_snoc p s c h) refl

pub trim_right_lacks : (p : ℕ → Bool) (s : Text) → any p s ≡ false → trim_right p s ≡ s
trim_right_lacks p [] h = refl
trim_right_lacks p (c ∷ []) h = ground (arith, h)
trim_right_lacks p (c ∷ d ∷ s) h = ground (arith, h, trim_right_lacks p (d ∷ s))

pub trim_left_lacks : (p : ℕ → Bool) (s : Text) → any p s ≡ false → trim_left p s ≡ s
trim_left_lacks p [] h = refl
trim_left_lacks p (c ∷ s) h = ground (arith, h)

pub any-contains : (s : Text) (q : ℕ) → any (λ c. c == q) s ≡ contains s q
any-contains [] q = refl
any-contains (c ∷ s) q = ground (arith, any-contains s q)

-- strings.Trim takes the closing quote, and leaves the quotes' inside alone.
pub trim-quoted : (q : ℕ) (s : Text) → contains s q ≡ false → trim (λ c. c == q) (s ++ q ∷ []) ≡ s
trim-quoted q s h =
    ap (trim_left (λ c. c == q)) (
      trim_right_snoc (λ c. c == q) s q (beq_refl q)
      ∙ trim_right_lacks (λ c. c == q) s (any-contains s q ∙ h))
    ∙ trim_left_lacks (λ c. c == q) s (any-contains s q ∙ h)

pub ends_with-append : (q c : ℕ) (s : Text) → ends_with q (s ++ c ∷ []) ≡ (c == q)
unfolding ends_with
ends_with-append q c [] = refl
ends_with-append q c (d ∷ []) = refl
ends_with-append q c (d ∷ e ∷ s) = ends_with-append q c (e ∷ s)

pub ends_with_lacks : (q : ℕ) (s : Text) → contains s q ≡ false → ends_with q s ≡ false
unfolding ends_with
ends_with_lacks q [] h = refl
ends_with_lacks q (c ∷ []) h = ground (arith, h)
ends_with_lacks q (c ∷ d ∷ s) h = ends_with_lacks q (d ∷ s) (ground (arith, h))

pub contains-trim_right :
    (p : ℕ → Bool) (s : Text) (q : ℕ) → contains s q ≡ false → contains (trim_right p s) q ≡ false
contains-trim_right p [] q h = refl
contains-trim_right p (c ∷ s) q h = ground (arith, h, contains-trim_right p s q, trim_right p s)

-- Trim of a text between two quotes
pub trim-between :
    (q : ℕ) (s : Text) → contains s q ≡ false → trim (λ c. c == q) (q ∷ s ++ q ∷ []) ≡ s
trim-between q [] h = ground (arith, beq_refl q)
trim-between q (c ∷ s) h =
    let inside : trim_right (λ c. c == q) (c ∷ s) ≡ c ∷ s =
      trim_right_lacks (λ c. c == q) (c ∷ s) (any-contains (c ∷ s) q ∙ h) in
    let right : trim_right (λ c. c == q) (q ∷ c ∷ s ++ q ∷ []) ≡ q ∷ c ∷ s =
      trim_right_snoc (λ c. c == q) (q ∷ c ∷ s) q (beq_refl q) ∙ rw (inside) refl in
    ap (trim_left (λ c. c == q)) right ∙ ground (arith, beq_refl q, h)

pub trim_left-starts : (p : ℕ → Bool) (c : ℕ) (s : Text) → p c ≡ false → trim_left p (c ∷ s) ≡ c ∷ s
trim_left-starts p c s h = rw (h) refl
