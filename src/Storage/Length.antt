-- ===== src/Storage/Length.antt =====
-- CheckLength and lengthReader of storage/internal/util.go. A body is a state with a Read.
use gas.Prelude.{
  ℕ, ◌+◌, ◌-◌, zero, suc, nat_eq, ◌==◌, ltb, Option, none, some, List, [], ◌∷◌, ◌++◌, if◌then◌else◌,
  length, ℤ, pos, negsuc,
}
use gas.ByteRange.{Bytes, min}

pub data BodyError : Type 0 where
  eof : BodyError
  other : ℕ → BodyError

-- What a Read of the body answers: a count of bytes with the bytes, or a count below zero
pub data Answer : Type 0 where
  reads : Bytes → Option BodyError → Answer
  negative_count : Answer

pub data LengthError : Type 0 where
  at_eof body_is_longer body_is_shorter invalid_count no_progress negative_length : LengthError
  read_body : ℕ → LengthError

-- lengthReader; `err` is sticky.
pub record LengthReader (B : Type 0) : Type 0 where
  pub body : B
  pub want : ℕ
  pub read : ℕ
  pub error : Option LengthError

pub data Checked (B : Type 0) : Type 0 where
  unchecked : Option B → Checked B
  refused : LengthError → Checked B
  reader : LengthReader B → Checked B

-- CheckLength; `empty` is the reader of no bytes, which stands in for a nil body with a length.
unfoldable pub check_length : {B : Type 0} → B → Option B → Option ℤ → Checked B
check_length empty body none = unchecked body
check_length empty body (some (negsuc n)) = refused negative_length
check_length empty none (some (pos n)) =
    reader (record { body = empty; want = n; read = 0; error = none })
check_length empty (some b) (some (pos n)) =
    reader (record { body = b; want = n; read = 0; error = none })

abbrev pub max_zero_reads : ℕ
max_zero_reads = 100

module _ {B : Type 0} (read_from : ℕ → B → Answer × B) where
  -- A round of probe's loop, with the rounds that follow
  unfoldable pub probed : (B → LengthError × B) → Answer × B → LengthError × B
  probed next (negative_count, b) = (invalid_count, b)
  probed next (reads [] none, b) = next b
  probed next (reads [] (some eof), b) = (at_eof, b)
  probed next (reads [] (some (other e)), b) = (read_body e, b)
  probed next (reads (c ∷ []) end, b) = (body_is_longer, b)
  probed next (reads (c ∷ d ∷ s) end, b) = (invalid_count, b)

  -- probe, with `left` rounds left
  unfoldable pub probe : ℕ → B → LengthError × B
  unfolding probed
  probe zero b = (no_progress, b)
  probe (suc left) b = probed (probe left) (read_from 1 b)

  unfoldable pub failed :
      Bytes → LengthError → LengthReader B → (Bytes × Option LengthError) × LengthReader B
  failed chunk e l = ((chunk, some e), record l { error = some e })

  -- The last bytes are withheld where the body is longer.
  unfoldable pub probed_behind :
      Bytes → LengthReader B → LengthError × B → (Bytes × Option LengthError) × LengthReader B
  unfolding failed
  probed_behind chunk l (body_is_longer, b) = failed [] body_is_longer (record l { body = b })
  probed_behind chunk l (e, b) = failed chunk e (record l { body = b })

  unfoldable pub settled : Bytes → LengthReader B → (Bytes × Option LengthError) × LengthReader B
  unfolding probe probed_behind
  settled chunk l =
      if l.read == l.want
      then probed_behind chunk l (probe max_zero_reads l.body)
      else ((chunk, none), l)

  unfoldable pub settle :
      Bytes → Option BodyError → LengthReader B → (Bytes × Option LengthError) × LengthReader B
  unfolding settled failed
  settle chunk none l = settled chunk l
  settle chunk (some (other e)) l = failed chunk (read_body e) l
  settle chunk (some eof) l =
      if ltb l.read l.want then failed chunk body_is_shorter l else settled chunk l

  -- What Read makes of the body's answer to a buffer of `room` bytes
  unfoldable pub received :
      ℕ → LengthReader B → Answer × B → (Bytes × Option LengthError) × LengthReader B
  unfolding settle failed
  received room l (negative_count, b) = failed [] invalid_count (record l { body = b })
  received room l (reads chunk end, b) =
      if ltb room (length chunk)
      then failed [] invalid_count (record l { body = b })
      else settle chunk end (record l { body = b; read = l.read + length chunk })

  unfoldable pub probed_first :
      LengthReader B → LengthError × B → (Bytes × Option LengthError) × LengthReader B
  unfolding failed
  probed_first l (e, b) = failed [] e (record l { body = b })

  -- Read, with a buffer of `room` bytes: the bytes that it counts, and its error
  unfoldable pub read_bytes : ℕ → LengthReader B → (Bytes × Option LengthError) × LengthReader B
  unfolding received probe probed_first
  read_bytes room l = elim l.error [
    | some e ↦ (([], some e), l)
    | none ↦
        if l.read == l.want
        then probed_first l (probe max_zero_reads l.body)
        else (if room == 0
            then (([], none), l)
            else (let fits = min room (l.want - l.read) in received fits l (read_from fits l.body)))
  ]

  -- One Read after the other, and all bytes that they count
  unfoldable pub read_all : List ℕ → LengthReader B → Bytes × LengthReader B
  unfolding read_bytes
  read_all [] l = ([], l)
  read_all (room ∷ rooms) l =
      let (answer, next) = read_bytes room l in
      let (more, end) = read_all rooms next in (answer.0 ++ more, end)
