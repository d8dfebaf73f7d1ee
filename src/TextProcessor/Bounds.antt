-- ===== src/TextProcessor/Bounds.antt =====
-- textprocessor/truncate.go: what a cut text is made of, and how long it is.
use mathlib.Core.List.{append-nil}
use toolsy.Prelude.{
  ℕ, zero, suc, ◌+◌, ◌-◌, ◌≤◌, ◌<◌, true, List, [], ◌∷◌, ◌++◌, ◌≡◌, refl, ap, sym, ◌∙◌, arith,
  length, take, length-append, length-take, All, ◌⊎◌, inl, inr, ltb, leb, leb→le, ◌==◌, Bool-cases,
  is_empty, if◌then◌else◌,
}
use toolsy.Bytes.{Bytes}
use toolsy.TextProcessor.{
  runes, runes_from, join, valid, cut_runes, cut_before, truncate_string_to_bytes,
  truncate_string_utf8, truncate_bytes_by_runes,
}
use toolsy.TextProcessor.Runes.{
  IsRune, runes_from-IsRune, runes-join-append, join-runes_from, total, length-runes_from,
}

All-take {ℓ κ} : {A : Type ℓ} (P : A → Type κ) (n : ℕ) (xs : List A) → All P xs → All P (take n xs)
All-take P zero xs h = tt
All-take P (suc n) [] h = tt
All-take P (suc n) (x ∷ xs) h = (h.0, All-take P n xs h.1)

runes-join : (rs : List Bytes) → All IsRune rs → runes (join rs) ≡ rs
unfolding runes runes_from
runes-join rs h =
    let back : runes (join rs ++ []) ≡ rs ++ [] = runes-join-append rs [] h in
    rw (append-nil, append-nil) at back

runes-IsRune : (bs : Bytes) → All IsRune (runes bs)
unfolding runes
runes-IsRune bs = runes_from-IsRune 0 bs

taken : (n : ℕ) (bs : Bytes) → length (runes (join (take n (runes bs)))) ≤ n
taken n bs =
    rw (runes-join (take n (runes bs)) (All-take IsRune n (runes bs) (runes-IsRune bs)))
      (omega (arith, length-take n (runes bs)))

taken_before :
    (n : ℕ) (bs suffix : Bytes)
    → length (runes (join (take n (runes bs)) ++ suffix)) ≤ n + length (runes suffix)
taken_before n bs suffix =
    rw
      (runes-join-append (take n (runes bs)) suffix
        (All-take IsRune n (runes bs) (runes-IsRune bs)))
      (omega (arith, length-append (take n (runes bs)) (runes suffix), length-take n (runes bs)))

-- Bytes that are cut to a number of runes, with the suffix, have no more runes than that, whether or not
-- they and the suffix are valid UTF-8.
pub runes-truncate_bytes_by_runes :
    (bs : Bytes) (max_runes : ℕ) (suffix : Bytes)
    → length (runes (truncate_bytes_by_runes bs max_runes suffix)) ≤ max_runes
unfolding truncate_bytes_by_runes
runes-truncate_bytes_by_runes bs max_runes suffix = elim (Bool-cases (max_runes == 0)) [
  | inl a ↦ rw a (omega arith)
  | inr a ↦ elim (Bool-cases (leb (length (runes bs)) max_runes)) [
    | inl b ↦ rw (a, b) (leb→le (length (runes bs)) max_runes b)
    | inr b ↦ elim (Bool-cases (is_empty suffix)) [
      | inl c ↦ rw (a, b, c) (taken max_runes bs)
      | inr c ↦ elim (Bool-cases (leb max_runes (length (runes suffix)))) [
        | inl d ↦ rw (a, b, c, d) (taken max_runes suffix)
        | inr d ↦
            rw (a, b, c, d)
              (let below = taken_before (max_runes - length (runes suffix)) bs suffix in
                ground (arith, below))
      ]
    ]
  ]
]

cut_runes-IsCut :
    (s suffix : Bytes) (limit n : ℕ) (rs : List Bytes)
    → n ≤ limit
    → limit < n + total rs
    → (k : ℕ) × (n + total (take k rs) ≤ limit)
      × (cut_runes s n limit suffix rs ≡ take (n + total (take k rs)) s ++ suffix)
unfolding cut_runes
cut_runes-IsCut s suffix limit n [] h b = absurd (omega arith)
cut_runes-IsCut s suffix limit n (r ∷ rs) h b = elim (Bool-cases (ltb limit (n + length r))) [
  | inl f ↦ (0, omega arith, rw f (ap (λ m. take m s ++ suffix) (omega arith)))
  | inr f ↦
      let (k, fits, same) =
        cut_runes-IsCut s suffix limit (n + length r) rs (ground arith) (omega arith) in
      (suc k, omega arith, rw (f, same) (ap (λ m. take m s ++ suffix) (omega arith)))
]

take-append_sum : (xs ys : Bytes) (n : ℕ) → take (length xs + n) (xs ++ ys) ≡ xs ++ take n ys
take-append_sum [] ys n = ap (λ m. take m ys) (omega arith)
take-append_sum (x ∷ xs) ys n =
    let shift : suc (length xs) + n ≡ suc (length xs + n) = omega arith in
    rw (shift, take-append_sum xs ys n)

take-join : (k : ℕ) (rs : List Bytes) → take (total (take k rs)) (join rs) ≡ join (take k rs)
take-join zero rs = refl
take-join (suc k) [] = refl
take-join (suc k) (r ∷ rs) = rw (take-append_sum r (join rs) (total (take k rs)), take-join k rs)

-- A text cut at a limit, for a text that is longer: whole runes of it, within the limit.
abbrev pub IsCut : Bytes → ℕ → Bytes → Type 0
IsCut s limit r = (k : ℕ) × (r ≡ join (take k (runes s))) × (length r ≤ limit)

-- A part of whole runes of one text, followed by one of another.
abbrev pub IsCutBefore : Bytes → Bytes → Bytes → Type 0
IsCutBefore s suffix r =
    (k : ℕ) × (j : ℕ) × (r ≡ join (take k (runes s)) ++ join (take j (runes suffix)))

length-join : (rs : List Bytes) → length (join rs) ≡ total rs
length-join [] = refl
length-join (r ∷ rs) = omega (arith, length-append r (join rs), length-join rs)

take-all : (rs : List Bytes) → take (length rs) rs ≡ rs
take-all [] = refl
take-all (r ∷ rs) = rw (take-all rs)

join-runes : (s : Bytes) → valid s ≡ true → join (runes s) ≡ s
unfolding runes valid
join-runes s v = join-runes_from 0 s v

take-runes :
    (s : Bytes) (k : ℕ)
    → valid s ≡ true
    → take (0 + total (take k (runes s))) s ≡ join (take k (runes s))
take-runes s k v =
    ap (λ m. take m s) (omega arith)
    ∙ ap (λ t. take (total (take k (runes s))) t) (sym (join-runes s v))
    ∙ take-join k (runes s)

longer : (s : Bytes) (limit : ℕ) → limit < length s → limit < 0 + total (runes s)
unfolding runes
longer s limit h = omega (arith, length-runes_from 0 s)

cut_runes-IsCutAt :
    (s suffix : Bytes) (limit : ℕ)
    → valid s ≡ true
    → limit < length s
    → (p : Bytes) × IsCut s limit p × (cut_runes s 0 limit suffix (runes s) ≡ p ++ suffix)
cut_runes-IsCutAt s suffix limit v h =
    let (k, fits, same) =
      cut_runes-IsCut s suffix limit 0 (runes s) (omega arith) (longer s limit h) in
    (
      join (take k (runes s)),
      (k, refl, omega (arith, length-join (take k (runes s)), fits)),
      rw (same, take-runes s k v),
    )

truncate_string_to_bytes-IsCut :
    (s : Bytes) (limit : ℕ) → valid s ≡ true → IsCut s limit (truncate_string_to_bytes s limit)
unfolding truncate_string_to_bytes
truncate_string_to_bytes-IsCut s limit v = elim (Bool-cases (limit == 0)) [
  | inl a ↦ rw a (0, refl, omega arith)
  | inr a ↦ elim (Bool-cases (leb (length s) limit)) [
    | inl b ↦
        rw (a, b)
          (
            length (runes s),
            sym (ap join (take-all (runes s)) ∙ join-runes s v),
            leb→le (length s) limit b,
          )
    | inr b ↦
        let (p, cut, same) = cut_runes-IsCutAt s [] limit v (ground arith) in
        rw (a, b, same, append-nil) cut
  ]
]

-- What TruncateStringUTF8 makes of a text: no more bytes than the limit, and the text itself or whole
-- runes of the text followed by whole runes of the suffix.
abbrev pub IsTruncated : Bytes → ℕ → Bytes → Bytes → Type 0
IsTruncated s max_bytes suffix r = (length r ≤ max_bytes) × ((r ≡ s) ⊎ IsCutBefore s suffix r)

cut_before-IsTruncated :
    (s : Bytes) (max_bytes : ℕ) (suffix tail : Bytes)
    → valid s ≡ true
    → max_bytes < length s
    → IsCut suffix max_bytes tail
    → IsTruncated s max_bytes suffix (cut_before s max_bytes tail)
cut_before-IsTruncated s max_bytes suffix tail v h (j, e, l) =
    elim (Bool-cases (max_bytes - length tail == 0)) [
      | inl a ↦ rw a (l, inr (0, j, e))
      | inr a ↦
          let (p, (k, f, fits), same) =
            cut_runes-IsCutAt s tail (max_bytes - length tail) v (omega arith) in
          rw (a, same)
            (
              (let sum = length-append p tail in ground (arith, sum, fits, l)),
              inr (k, j, rw (f, e)),
            )
    ]

cut_or_whole-IsTruncated :
    (s : Bytes) (max_bytes : ℕ) (suffix tail : Bytes)
    → valid s ≡ true
    → IsCut suffix max_bytes tail
    → IsTruncated s max_bytes suffix (
        if max_bytes == 0
        then []
        else if leb (length s) max_bytes
        then s
        else cut_before s max_bytes tail)
cut_or_whole-IsTruncated s max_bytes suffix tail v cut = elim (Bool-cases (max_bytes == 0)) [
  | inl a ↦ rw a (omega arith, inr (0, 0, refl))
  | inr a ↦ elim (Bool-cases (leb (length s) max_bytes)) [
    | inl b ↦ rw (a, b) (leb→le (length s) max_bytes b, inl refl)
    | inr b ↦ rw (a, b) (cut_before-IsTruncated s max_bytes suffix tail v (ground arith) cut)
  ]
]

-- If a text and a suffix are valid UTF-8, the text that TruncateStringUTF8 returns is no longer than the
-- limit, and it is the text itself or is made of whole runes of the text, from its beginning, followed by
-- whole runes of the suffix, from its beginning.
pub truncate_string_utf8-IsTruncated :
    (s : Bytes) (max_bytes : ℕ) (suffix : Bytes)
    → valid s ≡ true
    → valid suffix ≡ true
    → IsTruncated s max_bytes suffix (truncate_string_utf8 s max_bytes suffix)
unfolding truncate_string_utf8
truncate_string_utf8-IsTruncated s max_bytes suffix v w =
    cut_or_whole-IsTruncated s max_bytes suffix (truncate_string_to_bytes suffix max_bytes) v
      (truncate_string_to_bytes-IsCut suffix max_bytes w)
