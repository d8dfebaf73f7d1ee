-- ===== src/TextProcessor.antt =====
-- textprocessor/truncate.go: texts and bytes cut to a limit, at a boundary of characters.
--
-- A text is the list of its bytes. A rune is met only as the bytes that encode it: what `range` and the
-- conversion to runes find in a text is `runes`, in which a byte that begins no rune stands as the
-- encoding of U+FFFD. An `int` limit that is not positive is 0.
pub mod Runes
pub mod Bounds
pub mod Reading
mod Tests
use toolsy.Prelude.{
  ℕ, zero, suc, ◌+◌, ◌-◌, Bool, true, false, ◌&&◌, ◌||◌, List, [], ◌∷◌, ◌++◌, length, take,
  is_empty, ltb, leb, ◌==◌, if◌then◌else◌,
}
use toolsy.Bytes.{Bytes}

abbrev pub between : ℕ → ℕ → ℕ → Bool
between low high c = leb low c && leb c high

abbrev follows : ℕ → Bool
follows c = between 128 191 c

-- The second byte of three, after the first, and of four.
abbrev second_of_three : ℕ → ℕ → Bool
second_of_three a b =
    if a == 224 then between 160 191 b else if a == 237 then between 128 159 b else follows b

abbrev second_of_four : ℕ → ℕ → Bool
second_of_four a b =
    if a == 240 then between 144 191 b else if a == 244 then between 128 143 b else follows b

abbrev two_bytes : ℕ → Bytes → Bool
two_bytes a [] = false
two_bytes a (b ∷ cs) = between 194 223 a && follows b

abbrev three_bytes : ℕ → Bytes → Bool
three_bytes a [] = false
three_bytes a (b ∷ []) = false
three_bytes a (b ∷ c ∷ cs) = between 224 239 a && second_of_three a b && follows c

abbrev four_bytes : ℕ → Bytes → Bool
four_bytes a [] = false
four_bytes a (b ∷ []) = false
four_bytes a (b ∷ c ∷ []) = false
four_bytes a (b ∷ c ∷ d ∷ cs) = between 240 244 a && second_of_four a b && follows c && follows d

-- The length of the rune that the bytes begin with, or 0 where there is none.
unfoldable pub rune_width : Bytes → ℕ
rune_width [] = 0
rune_width (a ∷ cs) =
    if ltb a 128
    then 1
    else if two_bytes a cs
    then 2
    else if three_bytes a cs
    then 3
    else if four_bytes a cs
    then 4
    else 0

-- U+FFFD, utf8.RuneError
abbrev pub rune_error : Bytes
rune_error = 239 ∷ 191 ∷ 189 ∷ []

-- The count is of bytes that belong to the rune before.
unfoldable pub runes_from : ℕ → Bytes → List Bytes
unfolding rune_width
runes_from n [] = []
runes_from (suc n) (c ∷ cs) = runes_from n cs
runes_from zero (c ∷ cs) = elim (rune_width (c ∷ cs)) [
  | zero ↦ rune_error ∷ runes_from 0 cs
  | suc n ↦ (c ∷ take n cs) ∷ runes_from n cs
]

-- []rune(s)
unfoldable pub runes : Bytes → List Bytes
unfolding runes_from
runes s = runes_from 0 s

-- string(rs)
abbrev pub join : List Bytes → Bytes
join [] = []
join (r ∷ rs) = r ++ join rs

unfoldable pub valid_from : ℕ → Bytes → Bool
unfolding rune_width
valid_from n [] = true
valid_from (suc n) (c ∷ cs) = valid_from n cs
valid_from zero (c ∷ cs) = elim (rune_width (c ∷ cs)) [ zero ↦ false | suc n ↦ valid_from n cs ]

-- utf8.Valid
unfoldable pub valid : Bytes → Bool
unfolding valid_from
valid s = valid_from 0 s

-- strings.ToValidUTF8 with an empty replacement: the runes, without the bytes that begin none.
unfoldable pub valid_runes_from : ℕ → Bytes → List Bytes
unfolding rune_width
valid_runes_from n [] = []
valid_runes_from (suc n) (c ∷ cs) = valid_runes_from n cs
valid_runes_from zero (c ∷ cs) = elim (rune_width (c ∷ cs)) [
  | zero ↦ valid_runes_from 0 cs
  | suc n ↦ (c ∷ take n cs) ∷ valid_runes_from n cs
]

unfoldable pub to_valid_utf8 : Bytes → Bytes
unfolding valid_runes_from
to_valid_utf8 s = join (valid_runes_from 0 s)

-- The loop over the runes of `s` after `n` bytes were accepted: what to return.
unfoldable pub cut_runes : Bytes → ℕ → ℕ → Bytes → List Bytes → Bytes
cut_runes s n limit suffix [] = s
cut_runes s n limit suffix (r ∷ rs) =
    let rest = cut_runes s (n + length r) limit suffix rs in
    if ltb limit (n + length r) then take n s ++ suffix else rest

unfoldable pub truncate_string_to_bytes : Bytes → ℕ → Bytes
unfolding cut_runes runes
truncate_string_to_bytes s max_bytes =
    if max_bytes == 0
    then []
    else if leb (length s) max_bytes
    then s
    else cut_runes s 0 max_bytes [] (runes s)

-- TruncateStringUTF8 of a text that is too long, with the suffix cut to fit.
abbrev pub cut_before : Bytes → ℕ → Bytes → Bytes
cut_before s max_bytes suffix =
    let need = max_bytes - length suffix in
    if need == 0 then suffix else cut_runes s 0 need suffix (runes s)

unfoldable pub truncate_string_utf8 : Bytes → ℕ → Bytes → Bytes
unfolding truncate_string_to_bytes
truncate_string_utf8 s max_bytes suffix =
    if max_bytes == 0
    then []
    else if leb (length s) max_bytes
    then s
    else cut_before s max_bytes (truncate_string_to_bytes suffix max_bytes)

unfoldable pub truncate_bytes_to_valid_utf8_string : Bytes → ℕ → Bytes → Bytes
unfolding to_valid_utf8 truncate_string_to_bytes
truncate_bytes_to_valid_utf8_string bs max_bytes suffix =
    let s = to_valid_utf8 bs in
    if max_bytes == 0
    then []
    else if leb (length s) max_bytes
    then s
    else truncate_string_to_bytes s max_bytes ++ suffix

unfoldable pub truncate_bytes : Bytes → ℕ → Bytes → Bytes
truncate_bytes bs max_bytes suffix =
    if max_bytes == 0
    then []
    else if leb (length bs) max_bytes
    then bs
    else take max_bytes bs ++ suffix

-- TruncateBytesByRunes of more runes than the limit.
abbrev cut_to_runes : List Bytes → ℕ → Bytes → Bytes
cut_to_runes content max_runes suffix =
    if is_empty suffix
    then join (take max_runes content)
    else if leb max_runes (length (runes suffix))
    then join (take max_runes (runes suffix))
    else join (take (max_runes - length (runes suffix)) content) ++ suffix

unfoldable pub truncate_bytes_by_runes : Bytes → ℕ → Bytes → Bytes
unfolding runes
truncate_bytes_by_runes bs max_runes suffix =
    if max_runes == 0
    then []
    else if leb (length (runes bs)) max_runes
    then bs
    else cut_to_runes (runes bs) max_runes suffix
