-- ===== src/TextProcessor/Reading.antt =====
-- textprocessor/truncate.go: reads that are limited to a number of bytes.
--
-- A reader is what it gives in the end: its content, and the error it fails with after that, where it
-- does not come to its end. `before` and `after` are what `ctx.Err()` says around the read; an error of
-- the context within the read is one of the reader. The limit is not negative.
use toolsy.Prelude.{
  ℕ, ◌+◌, ◌≤◌, ◌<◌, true, false, Option, none, some, [], ◌∷◌, ◌≡◌, refl, ◌⊎◌, inl, inr, arith,
  length, take, length-take, ltb, ltb→lt, ◌==◌, if◌then◌else◌, Bool-cases, Option-cases,
}
use toolsy.Errors.{GoError, lit, message, sentinel, read_limit_exceeded, Result, ok, err, ◌>>=◌}
use toolsy.Bytes.{Bytes}
use toolsy.TextProcessor.{truncate_bytes_to_valid_utf8_string}

pub record Reader : Type 0 where
  pub content : Bytes
  pub failure : Option GoError

abbrev read_to_end : Reader → Result Bytes
read_to_end r = elim r.failure [ some e ↦ err e | none ↦ ok r.content ]

-- io.ReadAll of an io.LimitReader of one byte more than the limit
unfoldable pub read_limited : Reader → ℕ → Result Bytes
read_limited r max_bytes =
    if ltb max_bytes (length r.content) then ok (take (max_bytes + 1) r.content) else read_to_end r

abbrev unless : {A : Type 0} → Option GoError → Result A → Result A
unless (some e) r = err e
unless none r = r

abbrev within : ℕ → Bytes → Result Bytes
within max_bytes bs =
    if ltb max_bytes (length bs) then err (sentinel read_limit_exceeded) else ok bs

unfoldable pub read_limited_bytes : Option GoError → Option GoError → Reader → ℕ → Result Bytes
unfolding read_limited
read_limited_bytes before after r max_bytes =
    unless before (read_limited r max_bytes >>= λ bs. unless after (within max_bytes bs))

unfoldable pub read_and_truncate_valid_utf8 : Reader → ℕ → Bytes → Result Bytes
unfolding read_limited truncate_bytes_to_valid_utf8_string
read_and_truncate_valid_utf8 r max_bytes suffix =
    if max_bytes == 0
    then err (message (lit "maxBytes must be positive" ∷ []))
    else read_limited r max_bytes >>= λ bs.
        ok (truncate_bytes_to_valid_utf8_string bs max_bytes suffix)

unfoldable pub read_and_truncate :
    Option GoError → Option GoError → Reader → ℕ → Bytes → Result Bytes
unfolding read_and_truncate_valid_utf8
read_and_truncate before after r max_bytes suffix =
    unless before
      (read_and_truncate_valid_utf8 r max_bytes suffix >>= λ text. unless after (ok text))

-- What a read that fails closed comes to: all that the reader has, within the limit and without an
-- error, or an error, which is the one of the limit if the context has none and there is more.
abbrev pub IsWholeRead : Option GoError → Option GoError → Reader → ℕ → Result Bytes → Type 0
IsWholeRead before after r max_bytes (ok bs) =
    (bs ≡ r.content)
    × (length bs ≤ max_bytes)
    × (r.failure ≡ none)
    × (before ≡ none)
    × (after ≡ none)
IsWholeRead before after r max_bytes (err e) =
    (before ≡ some e)
    ⊎ (after ≡ some e)
    ⊎ (r.failure ≡ some e)
    ⊎ ((max_bytes < length r.content) × (e ≡ sentinel read_limit_exceeded))

cut_read-IsWholeRead :
    (after : Option GoError) (r : Reader) (max_bytes : ℕ)
    → max_bytes < length r.content
    → IsWholeRead none after r max_bytes
        (unless after (within max_bytes (take (max_bytes + 1) r.content)))
cut_read-IsWholeRead (some e) r max_bytes h = inr (inl refl)
cut_read-IsWholeRead none r max_bytes h =
    let over : ltb max_bytes (length (take (max_bytes + 1) r.content)) ≡ true =
      ground (arith, length-take (max_bytes + 1) r.content) in
    rw over (inr (inr (inr (h, refl))))

full_read-IsWholeRead :
    (after : Option GoError) (r : Reader) (max_bytes : ℕ)
    → ltb max_bytes (length r.content) ≡ false
    → IsWholeRead none after r max_bytes
        (read_to_end r >>= λ bs. unless after (within max_bytes bs))
full_read-IsWholeRead after r max_bytes h = elim (Option-cases r.failure) [
  | inr (e, f) ↦ rw f (inr (inr (inl refl)))
  | inl f ↦ after_end after f
]
  where
    after_end :
        (after : Option GoError)
        → r.failure ≡ none
        → IsWholeRead none after r max_bytes
            (read_to_end r >>= λ bs. unless after (within max_bytes bs))
    after_end (some e) f = rw f (inr (inl refl))
    after_end none f = rw (f, h) (refl, (ground arith), refl, refl, refl)

-- A read of limited bytes returns all that the reader has, if that is within the limit and neither the
-- reader nor the context has an error; else it returns no bytes, with the error of the context or of the
-- reader, or with the limit's if the reader has more bytes.
pub read_limited_bytes-IsWholeRead :
    (before after : Option GoError) (r : Reader) (max_bytes : ℕ)
    → IsWholeRead before after r max_bytes (read_limited_bytes before after r max_bytes)
unfolding read_limited_bytes
read_limited_bytes-IsWholeRead (some e) after r max_bytes = inl refl
read_limited_bytes-IsWholeRead none after r max_bytes =
    elim (Bool-cases (ltb max_bytes (length r.content))) [
      | inl a ↦
          rw a (cut_read-IsWholeRead after r max_bytes (ltb→lt max_bytes (length r.content) a))
      | inr a ↦ rw a (full_read-IsWholeRead after r max_bytes a)
    ]
