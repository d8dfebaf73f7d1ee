-- ===== src/TextProcessor/Runes.antt =====
-- textprocessor/truncate.go: the runes that a text is read as, and texts put together from runes.
use mathlib.Core.List.{append_assoc}
use toolsy.Prelude.{
  ℕ, zero, suc, ◌+◌, ◌≤◌, true, List, [], ◌∷◌, ◌++◌, ◌≡◌, refl, arith, length, take, drop,
  length-take, take-append-drop, All, ◌⊎◌, inl, inr,
}
use toolsy.Bytes.{Bytes}
use toolsy.TextProcessor.{rune_width, rune_error, runes_from, runes, join, valid_from}

ℕ-cases : (n : ℕ) → (n ≡ 0) ⊎ ((m : ℕ) × (n ≡ suc m))
ℕ-cases zero = inl refl
ℕ-cases (suc m) = inr (m, refl)

-- A rune is read the same whatever comes after it.
pub rune_width-append :
    (n a : ℕ) (cs rest : Bytes)
    → rune_width (a ∷ cs) ≡ suc n
    → (rune_width (a ∷ take n cs ++ rest) ≡ suc n) × (length (take n cs) ≡ n)
unfolding rune_width
rune_width-append zero a cs rest h = ground arith
rune_width-append (suc zero) a [] rest h = ground arith
rune_width-append (suc zero) a (b ∷ cs) rest h = ground arith
rune_width-append (suc (suc zero)) a [] rest h = ground arith
rune_width-append (suc (suc zero)) a (b ∷ []) rest h = ground arith
rune_width-append (suc (suc zero)) a (b ∷ c ∷ cs) rest h = ground arith
rune_width-append (suc (suc (suc zero))) a [] rest h = ground arith
rune_width-append (suc (suc (suc zero))) a (b ∷ []) rest h = ground arith
rune_width-append (suc (suc (suc zero))) a (b ∷ c ∷ []) rest h = ground arith
rune_width-append (suc (suc (suc zero))) a (b ∷ c ∷ d ∷ cs) rest h = ground arith
rune_width-append (suc (suc (suc (suc n)))) a cs rest h = ground arith

runes_from-append :
    (n : ℕ) (xs rest : Bytes) → length xs ≡ n → runes_from n (xs ++ rest) ≡ runes rest
unfolding runes_from runes
runes_from-append zero [] rest h = refl
runes_from-append zero (x ∷ xs) rest h = absurd (omega arith)
runes_from-append (suc n) [] rest h = absurd (omega arith)
runes_from-append (suc n) (x ∷ xs) rest h = runes_from-append n xs rest (omega arith)

-- The bytes of one rune, which are read as that rune wherever they stand.
abbrev pub IsRune : Bytes → Type 0
IsRune r = (rest : Bytes) → runes (r ++ rest) ≡ r ∷ runes rest

rune_error-IsRune : IsRune rune_error
unfolding runes runes_from rune_width
rune_error-IsRune rest = refl

runes_from-error :
    (c : ℕ) (cs : Bytes)
    → rune_width (c ∷ cs) ≡ 0
    → runes_from 0 (c ∷ cs) ≡ rune_error ∷ runes_from 0 cs
unfolding runes_from
runes_from-error c cs h = rw (runes_from, h)

runes_from-rune :
    (n c : ℕ) (cs : Bytes)
    → rune_width (c ∷ cs) ≡ suc n
    → runes_from 0 (c ∷ cs) ≡ (c ∷ take n cs) ∷ runes_from n cs
unfolding runes_from
runes_from-rune n c cs h = rw (runes_from, h)

take-append_self : (n : ℕ) (xs rest : Bytes) → length xs ≡ n → take n (xs ++ rest) ≡ xs
take-append_self zero [] rest h = refl
take-append_self zero (x ∷ xs) rest h = absurd (omega arith)
take-append_self (suc n) [] rest h = absurd (omega arith)
take-append_self (suc n) (x ∷ xs) rest h = rw (take-append_self n xs rest (omega arith))

cons-IsRune : (n a : ℕ) (cs : Bytes) → rune_width (a ∷ cs) ≡ suc n → IsRune (a ∷ take n cs)
unfolding runes
cons-IsRune n a cs h rest =
    let (same, whole) = rune_width-append n a cs rest h in
    rw (
      runes,
      runes_from-rune n a (take n cs ++ rest) same,
      take-append_self n (take n cs) rest whole,
      runes_from-append n (take n cs) rest whole,
    )

pub runes_from-IsRune : (n : ℕ) (bs : Bytes) → All IsRune (runes_from n bs)
unfolding runes_from
runes_from-IsRune n [] = tt
runes_from-IsRune (suc n) (c ∷ cs) = runes_from-IsRune n cs
runes_from-IsRune zero (c ∷ cs) = elim (ℕ-cases (rune_width (c ∷ cs))) [
  | inl h ↦ rw (runes_from-error c cs h) (rune_error-IsRune, runes_from-IsRune 0 cs)
  | inr (n, h) ↦ rw (runes_from-rune n c cs h) (cons-IsRune n c cs h, runes_from-IsRune n cs)
]

-- Runes that are put together are read again as these runes.
pub runes-join-append :
    (rs : List Bytes) (rest : Bytes) → All IsRune rs → runes (join rs ++ rest) ≡ rs ++ runes rest
runes-join-append [] rest h = refl
runes-join-append (r ∷ rs) rest h =
    rw (append_assoc, h.0 (join rs ++ rest), runes-join-append rs rest h.1)

-- A valid text is its runes put together.
pub join-runes_from :
    (n : ℕ) (bs : Bytes) → valid_from n bs ≡ true → join (runes_from n bs) ≡ drop n bs
unfolding runes_from valid_from
join-runes_from zero [] h = refl
join-runes_from (suc n) [] h = refl
join-runes_from (suc n) (c ∷ cs) h = join-runes_from n cs h
join-runes_from zero (c ∷ cs) h = elim (ℕ-cases (rune_width (c ∷ cs))) [
  | inl f ↦ absurd (cc (rw (valid_from, f) at h))
  | inr (n, f) ↦ rw (
    runes_from-rune n c cs f,
    join-runes_from n cs (rw (valid_from, f) at h),
    take-append-drop n cs,
  )
]

abbrev pub total : List Bytes → ℕ
total [] = 0
total (r ∷ rs) = length r + total rs

-- The runes are at least as long as the text: a byte that begins no rune counts three.
pub length-runes_from : (n : ℕ) (bs : Bytes) → length bs ≤ n + total (runes_from n bs)
unfolding runes_from
length-runes_from n [] = omega arith
length-runes_from (suc n) (c ∷ cs) = omega (arith, length-runes_from n cs)
length-runes_from zero (c ∷ cs) = elim (ℕ-cases (rune_width (c ∷ cs))) [
  | inl f ↦ rw (runes_from-error c cs f) (omega (arith, length-runes_from 0 cs))
  | inr (n, f) ↦
      rw (runes_from-rune n c cs f) (omega (arith, length-runes_from n cs, length-take n cs))
]
