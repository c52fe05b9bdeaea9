-- ===== src/Storage/Complete.antt =====
-- The reader of CheckLength comes to the end of a body that has the declared length.
use gas.Prelude.{ℕ, ◌+◌, ◌≤◌, suc, nat_eq, Option, none, some, [], ◌∷◌, length, ◌≡◌, ◌⊎◌}
use gas.ByteRange.{Bytes}
use gas.Storage.Length.{BodyError, eof, Answer, reads, at_eof, LengthReader}
use gas.Storage.Exact.{IsReader}

-- A body without errors: a Read with room gives at least a byte while there is one, no more than the
-- room, and then io.EOF, which it may also give with the last byte.
pub record IsComplete {B : Type 0} (read_from : ℕ → B → Answer × B) (laws : IsReader read_from)
    : Type 0 where
  pub progress :
      (m : ℕ) (b : B)
      → 1 ≤ m
      → 1 ≤ length (laws.remaining b)
      → (c : ℕ) × (chunk : Bytes) × (end : Option BodyError) × (e : B) × (read_from m b
          ≡ (reads (c ∷ chunk) end, e))
        × (suc (length chunk) ≤ m)
        × ((end ≡ none) ⊎ (end ≡ some eof))
  pub at_end :
      (m : ℕ) (b : B)
      → 1 ≤ m
      → laws.remaining b ≡ []
      → (e : B) × (read_from m b ≡ (reads [] (some eof), e))

module _ {B : Type 0} (read_from : ℕ → B → Answer × B) (laws : IsReader read_from)
    (complete : IsComplete read_from laws) where
  -- The reader of `size` bytes is at the end, or it has read at least `at_least` and the body has the
  -- rest.
  abbrev Along : ℕ → ℕ → LengthReader B → Type 0
  Along size at_least l =
      (l.error ≡ some at_eof)
      ⊎ (l.error ≡ none)
        × (at_least ≤ l.read)
        × (l.read + length (laws.remaining l.body) ≡ l.want)
        × (l.want ≡ size)
