-- ===== src/Bytes.antt =====
-- Byte slices of UTF-8 text, as the language's `strings` and `bytes` packages read them: white space
-- and trimming, which several components share.
use Prim.Native.Char.{code}
use toolsy.Prelude.{
  String, ℕ, zero, suc, Bool, true, false, ◌&&◌, ◌||◌, List, [], ◌∷◌, leb, ◌==◌, if◌then◌else◌, ◌≡◌,
  refl, arith,
}

abbrev pub Bytes : Type 0
Bytes = List ℕ

-- The bytes of an ASCII text.
abbrev pub bytes : String → Bytes
bytes String.[] = []
bytes (String.◌∷◌ c s) = code c ∷ bytes s

-- bytes.Equal, and `==` of strings
unfoldable pub same_bytes : Bytes → Bytes → Bool
same_bytes [] [] = true
same_bytes [] (y ∷ ys) = false
same_bytes (x ∷ xs) [] = false
same_bytes (x ∷ xs) (y ∷ ys) = x == y && same_bytes xs ys

pub same_bytes→eq : (a b : Bytes) → same_bytes a b ≡ true → a ≡ b
unfolding same_bytes
same_bytes→eq [] [] h = refl
same_bytes→eq [] (y ∷ ys) h = absurd (cc)
same_bytes→eq (x ∷ xs) [] h = absurd (cc)
same_bytes→eq (x ∷ xs) (y ∷ ys) h = ground (arith, same_bytes→eq xs ys)

pub same_bytes_refl : (a : Bytes) → same_bytes a a ≡ true
unfolding same_bytes
same_bytes_refl [] = refl
same_bytes_refl (x ∷ a) = ground (arith, same_bytes_refl a)

unfoldable pub contains_bytes : List Bytes → Bytes → Bool
unfolding same_bytes
contains_bytes [] w = false
contains_bytes (v ∷ vs) w = same_bytes v w || contains_bytes vs w

abbrev ascii_space : ℕ → Bool
ascii_space c = c == 32 || leb 9 c && leb c 13

-- U+0085 and U+00A0, in two bytes.
abbrev space_pair : ℕ → ℕ → Bool
space_pair c d = c == 194 && (d == 133 || d == 160)

-- U+1680, U+2000 to U+200A, U+2028, U+2029, U+202F, U+205F and U+3000, in three bytes.
abbrev space_triple : ℕ → ℕ → ℕ → Bool
space_triple c d e =
    c == 225 && d == 154 && e == 128
    || c == 226 && d == 128 && (leb 128 e && leb e 138 || e == 168 || e == 169 || e == 175)
    || c == 226 && d == 129 && e == 159
    || c == 227 && d == 128 && e == 128

-- The length of the white space character that the bytes begin with, 0 where there is none.
unfoldable pub space_ahead : Bytes → ℕ
space_ahead [] = 0
space_ahead (c ∷ []) = if ascii_space c then 1 else 0
space_ahead (c ∷ d ∷ []) = if ascii_space c then 1 else if space_pair c d then 2 else 0
space_ahead (c ∷ d ∷ e ∷ cs) =
    if ascii_space c then 1 else if space_pair c d then 2 else if space_triple c d e then 3 else 0

-- The same of the bytes in reverse order.
unfoldable pub space_behind : Bytes → ℕ
space_behind [] = 0
space_behind (c ∷ []) = if ascii_space c then 1 else 0
space_behind (d ∷ c ∷ []) = if ascii_space d then 1 else if space_pair c d then 2 else 0
space_behind (e ∷ d ∷ c ∷ cs) =
    if ascii_space e then 1 else if space_pair d e then 2 else if space_triple c d e then 3 else 0

abbrev reverse_onto : Bytes → Bytes → Bytes
reverse_onto [] out = out
reverse_onto (c ∷ cs) out = reverse_onto cs (c ∷ out)

-- The count is of bytes still to be dropped from the character before.
unfoldable pub trim_ahead : ℕ → Bytes → Bytes
unfolding space_ahead
trim_ahead n [] = []
trim_ahead (suc n) (c ∷ cs) = trim_ahead n cs
trim_ahead zero (c ∷ cs) = elim (space_ahead (c ∷ cs)) [ zero ↦ c ∷ cs | suc n ↦ trim_ahead n cs ]

unfoldable pub trim_behind : ℕ → Bytes → Bytes
unfolding space_behind
trim_behind n [] = []
trim_behind (suc n) (c ∷ cs) = trim_behind n cs
trim_behind zero (c ∷ cs) = elim (space_behind (c ∷ cs)) [
  | zero ↦ c ∷ cs
  | suc n ↦ trim_behind n cs
]

-- bytes.TrimSpace and strings.TrimSpace
unfoldable pub trim_space : Bytes → Bytes
unfolding trim_ahead trim_behind
trim_space bs = reverse_onto (trim_behind 0 (reverse_onto (trim_ahead 0 bs) [])) []
