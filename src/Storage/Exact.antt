-- ===== src/Storage/Exact.antt =====
-- What the reader of CheckLength passes on, against the bytes of the body.
use gas.Prelude.{
  ℕ, ◌+◌, ◌-◌, ◌≤◌, ◌<◌, zero, suc, nat_eq, ◌==◌, ltb, true, false, Option, none, some, List, [],
  ◌∷◌, ◌++◌, append_assoc, append-nil, length, length-append, ◌≡◌, refl, sym, ap, ◌∙◌, subst, arith,
  inl, inr, Bool-cases, pos,
}
use gas.ByteRange.{Bytes, min}
use gas.Storage.Length.{
  BodyError, eof, other, Answer, reads, negative_count, LengthError, at_eof, body_is_longer,
  body_is_shorter, invalid_count, no_progress, read_body, negative_length, LengthReader, reader,
  check_length, max_zero_reads, probed, probe, failed, probed_behind, settled, settle, received,
  probed_first, read_bytes, read_all,
}

-- io.Reader: the bytes of a Read are the next of the body, and at the end of the file none are left.
pub record IsReader {B : Type 0} (read_from : ℕ → B → Answer × B) : Type 0 where
  pub remaining : B → Bytes
  pub next :
      (m : ℕ) (b c : B) (chunk : Bytes) (end : Option BodyError)
      → read_from m b ≡ (reads chunk end, c)
      → remaining b ≡ chunk ++ remaining c
  pub last :
      (m : ℕ) (b c : B) (chunk : Bytes)
      → read_from m b ≡ (reads chunk (some eof), c)
      → remaining c ≡ []

module _ {B : Type 0} (read_from : ℕ → B → Answer × B) (laws : IsReader read_from) where
  -- What a reader knows of the body `total`, of which it has passed on `out`
  abbrev pub Knows : Bytes → Bytes → ℕ → ℕ → Bytes → Option LengthError → Type 0
  Knows total out want read rest none = (total ≡ out ++ rest) × (length out ≡ read) × (read ≤ want)
  Knows total out want read rest (some at_eof) = (out ≡ total) × (length total ≡ want)
  Knows total out want read rest (some body_is_longer) = (want < length total) × (length out ≤ want)
  Knows total out want read rest (some body_is_shorter) = (length total < want) × (out ≡ total)
  Knows total out want read rest (some invalid_count) = length out ≤ want
  Knows total out want read rest (some no_progress) = length out ≤ want
  Knows total out want read rest (some negative_length) = length out ≤ want
  Knows total out want read rest (some (read_body e)) = length out ≤ want

  abbrev pub IsExact : Bytes → Bytes → LengthReader B → Type 0
  IsExact total out l = Knows total out l.want l.read (laws.remaining l.body) l.error

  -- What probe's answer says of the bytes that are left
  abbrev Probed : Bytes → LengthError → Type 0
  Probed rest at_eof = rest ≡ []
  Probed rest body_is_longer = 1 ≤ length rest
  Probed rest body_is_shorter = true ≡ false
  Probed rest e = Unit

  probe-Probed : (left : ℕ) (b : B) → Probed (laws.remaining b) (probe read_from left b).0
  unfolding probe probed
  probe-Probed zero b = tt
  probe-Probed (suc left) b = round (read_from 1 b) refl (λ c. probe-Probed left c)
    where
      round :
          (a : Answer × B)
          → read_from 1 b ≡ a
          → ((c : B) → Probed (laws.remaining c) (probe read_from left c).0)
          → Probed (laws.remaining b) (probed read_from (probe read_from left) a).0
      round (negative_count, c) e ih = tt
      round (reads [] none, c) e ih =
          subst (λ r. Probed r (probe read_from left c).0) (sym (laws.next 1 b c [] none e)) (ih c)
      round (reads [] (some eof), c) e ih = laws.next 1 b c [] (some eof) e ∙ laws.last 1 b c [] e
      round (reads [] (some (other x)), c) e ih = tt
      round (reads (x ∷ []) end, c) e ih =
          let more : length (laws.remaining b) ≡ suc (length (laws.remaining c)) =
            ap length (laws.next 1 b c (x ∷ []) end e) in
          omega (arith, more)
      round (reads (x ∷ y ∷ s) end, c) e ih = tt

  -- A reader that has passed on or holds `out`, `chunk` of it in this call
  abbrev Holds : Bytes → Bytes → Bytes → ℕ → ℕ → Type 0
  Holds total held rest want read = (total ≡ held ++ rest) × (length held ≡ read) × (read ≤ want)

  IsExact-probed_behind :
      (total out chunk : Bytes) (b : B) (want : ℕ) (c : LengthError × B)
      → Holds total (out ++ chunk) (laws.remaining b) want want
      → Probed (laws.remaining b) c.0
      → (l : LengthReader B) → l.want ≡ want
      → IsExact total
          (out ++ (probed_behind read_from chunk l c).0.0)
          (probed_behind read_from chunk l c).1
  unfolding probed_behind failed
  IsExact-probed_behind total out chunk b want (at_eof, c) h p l w =
      let whole : out ++ chunk ≡ total =
        sym (h.0 ∙ ap (λ r. (out ++ chunk) ++ r) p ∙ append-nil (out ++ chunk)) in
      (whole, ap length (sym whole) ∙ h.1 ∙ sym w)
  IsExact-probed_behind total out chunk b want (body_is_longer, c) h p l w =
      let sizes : length total ≡ length (out ++ chunk) + length (laws.remaining b) =
        ap length h.0 ∙ length-append (out ++ chunk) (laws.remaining b) in
      (
        omega (arith, sizes, h.1, p, w),
        omega (arith, h.1, w, length-append out chunk, length-append out []),
      )
  IsExact-probed_behind total out chunk b want (body_is_shorter, c) h p l w = cc
  IsExact-probed_behind total out chunk b want (invalid_count, c) h p l w = omega (arith, h.1, w)
  IsExact-probed_behind total out chunk b want (no_progress, c) h p l w = omega (arith, h.1, w)
  IsExact-probed_behind total out chunk b want (negative_length, c) h p l w = omega (arith, h.1, w)
  IsExact-probed_behind total out chunk b want (read_body e, c) h p l w = omega (arith, h.1, w)

  IsExact-settled :
      (total out chunk : Bytes) (b : B) (want read : ℕ)
      → Holds total (out ++ chunk) (laws.remaining b) want read
      → (l : LengthReader B) → l ≡ record { body = b; want = want; read = read; error = none }
      → IsExact total (out ++ (settled read_from chunk l).0.0) (settled read_from chunk l).1
  unfolding settled
  IsExact-settled total out chunk b want read h l e =
      subst
        (λ x. IsExact total (out ++ (settled read_from chunk x).0.0) (settled read_from chunk x).1)
        (sym e)
        (elim (Bool-cases (read == want)) [
          | inr before ↦ simp (settled, before) h
          | inl full ↦
              let same : read ≡ want = (nat_eq.eq_iff read want).0 full in
              simp (settled, full)
                (IsExact-probed_behind total out chunk b want (probe read_from max_zero_reads b)
                  (subst (Holds total (out ++ chunk) (laws.remaining b) want) same h)
                  (probe-Probed max_zero_reads b)
                  (record { body = b; want = want; read = read; error = none }) refl)
        ])

  IsExact-settle :
      (total out chunk : Bytes) (end : Option BodyError) (b : B) (want read : ℕ)
      → Holds total (out ++ chunk) (laws.remaining b) want read
      → (end ≡ some eof → laws.remaining b ≡ [])
      → (l : LengthReader B) → l ≡ record { body = b; want = want; read = read; error = none }
      → IsExact total (out ++ (settle read_from chunk end l).0.0) (settle read_from chunk end l).1
  unfolding settle failed
  IsExact-settle total out chunk none b want read h ended l e =
      IsExact-settled total out chunk b want read h l e
  IsExact-settle total out chunk (some (other x)) b want read h ended l e =
      let w : l.want ≡ want = ap (λ x. x.want) e in omega (arith, h.1, h.2, w)
  IsExact-settle total out chunk (some eof) b want read h ended l e =
      subst
        (λ x.
          IsExact total (out ++ (settle read_from chunk (some eof) x).0.0)
            (settle read_from chunk (some eof) x).1)
        (sym e)
        (elim (Bool-cases (ltb read want)) [
          | inr full ↦
              simp (settle, full)
                (IsExact-settled total out chunk b want read h
                  (record { body = b; want = want; read = read; error = none }) refl)
          | inl short ↦
              let whole : out ++ chunk ≡ total =
                sym
                  (h.0 ∙ ap (λ r. (out ++ chunk) ++ r) (ended refl) ∙ append-nil (out ++ chunk)) in
              let size : length total ≡ read = ap length (sym whole) ∙ h.1 in
              simp (settle, short, failed) (ground (arith, short, size), whole)
        ])

  IsExact-received :
      (total out : Bytes) (room : ℕ) (b : B) (want read : ℕ) (a : Answer × B)
      → Holds total out (laws.remaining b) want read
      → read + room ≤ want
      → read_from room b ≡ a
      → (l : LengthReader B) → l ≡ record { body = b; want = want; read = read; error = none }
      → IsExact total (out ++ (received read_from room l a).0.0) (received read_from room l a).1
  unfolding received failed
  IsExact-received total out room b want read (negative_count, c) h fits e l is =
      let w : l.want ≡ want = ap (λ x. x.want) is in
      omega (arith, h.1, h.2, w, length-append out [])
  IsExact-received total out room b want read (reads chunk end, c) h fits e l is =
      subst
        (λ x.
          IsExact total (out ++ (received read_from room x (reads chunk end, c)).0.0)
            (received read_from room x (reads chunk end, c)).1)
        (sym is)
        (elim (Bool-cases (ltb room (length chunk))) [
          | inl broken ↦
              simp (received, broken, failed) (omega (arith, h.1, h.2, length-append out []))
          | inr good ↦
              simp (received, good)
                (IsExact-settle total out chunk end c want (read + length chunk)
                  (
                    h.0
                        ∙ ap (λ r. out ++ r) (laws.next room b c chunk end e)
                        ∙ sym (append_assoc out chunk (laws.remaining c)),
                    length-append out chunk ∙ ap (λ n. n + length chunk) h.1,
                    ground (arith, good, fits),
                  )
                  (λ at_end. laws.last room b c chunk (e ∙ ap (λ x. (reads chunk x, c)) at_end))
                  (record { body = c; want = want; read = read + length chunk; error = none }) refl)
        ])

  IsExact-probed_first :
      (total out : Bytes) (b : B) (want : ℕ) (c : LengthError × B)
      → Holds total out (laws.remaining b) want want
      → Probed (laws.remaining b) c.0
      → (l : LengthReader B) → l.want ≡ want
      → IsExact total (out ++ (probed_first read_from l c).0.0) (probed_first read_from l c).1
  unfolding probed_first failed
  IsExact-probed_first total out b want (at_eof, c) h p l w =
      let whole : out ≡ total = sym (h.0 ∙ ap (λ r. out ++ r) p ∙ append-nil out) in
      (append-nil out ∙ whole, ap length (sym whole) ∙ h.1 ∙ sym w)
  IsExact-probed_first total out b want (body_is_longer, c) h p l w =
      let sizes : length total ≡ length out + length (laws.remaining b) =
        ap length h.0 ∙ length-append out (laws.remaining b) in
      (omega (arith, sizes, h.1, p, w), omega (arith, h.1, w, length-append out []))
  IsExact-probed_first total out b want (body_is_shorter, c) h p l w = cc
  IsExact-probed_first total out b want (invalid_count, c) h p l w =
      omega (arith, h.1, w, length-append out [])
  IsExact-probed_first total out b want (no_progress, c) h p l w =
      omega (arith, h.1, w, length-append out [])
  IsExact-probed_first total out b want (negative_length, c) h p l w =
      omega (arith, h.1, w, length-append out [])
  IsExact-probed_first total out b want (read_body e, c) h p l w =
      omega (arith, h.1, w, length-append out [])

  IsExact-read_bytes :
      (total out : Bytes) (room : ℕ) (b : B) (want read : ℕ) (error : Option LengthError)
      → Knows total out want read (laws.remaining b) error
      → (l : LengthReader B) → l ≡ record { body = b; want = want; read = read; error = error }
      → IsExact total (out ++ (read_bytes read_from room l).0.0) (read_bytes read_from room l).1
  unfolding read_bytes probed_first failed
  IsExact-read_bytes total out room b want read (some x) h l is =
      subst
        (λ y.
          IsExact total (out ++ (read_bytes read_from room y).0.0) (read_bytes read_from room y).1)
        (sym is)
        (subst (λ o. Knows total o want read (laws.remaining b) (some x)) (sym (append-nil out)) h)
  IsExact-read_bytes total out room b want read none h l is =
      subst
        (λ y.
          IsExact total (out ++ (read_bytes read_from room y).0.0) (read_bytes read_from room y).1)
        (sym is)
        (elim (Bool-cases (read == want)) [
          | inl full ↦
              simp (read_bytes, full)
                (IsExact-probed_first total out b want (probe read_from max_zero_reads b)
                  (subst (Holds total out (laws.remaining b) want)
                    ((nat_eq.eq_iff read want).0 full) h)
                  (probe-Probed max_zero_reads b)
                  (record { body = b; want = want; read = read; error = none }) refl)
          | inr before ↦ elim (Bool-cases (room == 0)) [
            | inl empty ↦
                simp (read_bytes, before, empty)
                  (subst (λ o. Knows total o want read (laws.remaining b) none)
                    (sym (append-nil out)) h)
            | inr some_room ↦
                simp (read_bytes, before, some_room)
                  (IsExact-received total out (min room (want - read)) b want read
                    (read_from (min room (want - read)) b) h (ground (arith, h.2)) refl
                    (record { body = b; want = want; read = read; error = none }) refl)
          ]
        ])

  IsExact-read_all :
      (total out : Bytes) (rooms : List ℕ) (l : LengthReader B)
      → IsExact total out l
      → IsExact total (out ++ (read_all read_from rooms l).0) (read_all read_from rooms l).1
  unfolding read_all
  IsExact-read_all total out [] l h = subst (λ o. IsExact total o l) (sym (append-nil out)) h
  IsExact-read_all total out (room ∷ rooms) l h =
      let chunk = (read_bytes read_from room l).0.0 in
      let next = (read_bytes read_from room l).1 in
      let here : IsExact total (out ++ chunk) next =
        IsExact-read_bytes total out room l.body l.want l.read l.error h l refl in
      subst (λ o. IsExact total o (read_all read_from rooms next).1)
        (append_assoc out chunk (read_all read_from rooms next).0)
        (IsExact-read_all total (out ++ chunk) rooms next here)

  -- Over any sequence of Reads, the reader that CheckLength answers for a body and a declared length
  -- passes on no more than that many bytes, and without an error they are the first of the body. It
  -- ends in io.EOF only where the body has exactly that many, all passed on; it reports a body as
  -- longer or shorter only where it is.
  pub read_all-IsExact :
      (empty b : B) (want : ℕ) (l : LengthReader B) (rooms : List ℕ)
      → check_length empty (some b) (some (pos want)) ≡ reader l
      → IsExact (laws.remaining b) (read_all read_from rooms l).0 (read_all read_from rooms l).1
  unfolding check_length
  read_all-IsExact empty b want l rooms h =
      let is : record { body = b; want = want; read = 0; error = none } ≡ l = cc in
      IsExact-read_all (laws.remaining b) [] rooms l
        (subst (λ x. IsExact (laws.remaining b) [] x) is (refl, refl, omega arith))
