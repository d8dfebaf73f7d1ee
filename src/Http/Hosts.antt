-- ===== src/Http/Hosts.antt =====
-- toolkits/httptool/hosts.go: what it means for a host to be under an entry of a list.
use toolsy.Prelude.{
  ℕ, true, false, List, [], ◌∷◌, ◌++◌, ◌≡◌, ◌↔◌, refl, sym, ap, ◌⊎◌, inl, inr, arith, length,
  length-append, is_empty, ◌==◌, Bool-cases, if◌then◌else◌,
}
use toolsy.Bytes.{Bytes, same_bytes, same_bytes→eq, same_bytes_refl}
use toolsy.Http.{normal, has_suffix, match_entry, match_host, host_in_list}

-- An entry with the dot before it that separates a name from those under it.
abbrev pub dotted : Bytes → Bytes
dotted [] = []
dotted (c ∷ base) = if c == 46 then c ∷ base else 46 ∷ c ∷ base

-- A host is an entry's if it is the entry, or ends in the entry with a dot before it.
abbrev pub IsUnder : Bytes → Bytes → Type 0
IsUnder h entry =
    (is_empty entry ≡ false) × ((h ≡ entry) ⊎ ((front : Bytes) × (front ++ dotted entry ≡ h)))

has_suffix→ :
    (h suffix : Bytes) → has_suffix h suffix ≡ true → (front : Bytes) × (front ++ suffix ≡ h)
unfolding has_suffix
has_suffix→ [] suffix k = ([], sym (same_bytes→eq [] suffix k))
has_suffix→ (c ∷ h) suffix k = elim (Bool-cases (same_bytes (c ∷ h) suffix)) [
  | inl s ↦ ([], sym (same_bytes→eq (c ∷ h) suffix s))
  | inr s ↦
      let (front, e) = has_suffix→ h suffix (rw (has_suffix, s) at k) in
      (c ∷ front, ap (λ r. c ∷ r) e)
]

same-has_suffix : (h suffix : Bytes) → h ≡ suffix → has_suffix h suffix ≡ true
unfolding has_suffix
same-has_suffix [] suffix e = rw (sym e) refl
same-has_suffix (c ∷ h) suffix e = rw (sym e, same_bytes_refl (c ∷ h)) refl

append-has_suffix : (front suffix : Bytes) → has_suffix (front ++ suffix) suffix ≡ true
unfolding has_suffix
append-has_suffix [] suffix = same-has_suffix suffix suffix refl
append-has_suffix (c ∷ front) suffix = ground (arith, append-has_suffix front suffix)

dotted_entry : (c : ℕ) (base : Bytes) → (c == 46) ≡ true → dotted (c ∷ base) ≡ c ∷ base
dotted_entry c base d = rw d refl

plain_entry : (c : ℕ) (base : Bytes) → (c == 46) ≡ false → dotted (c ∷ base) ≡ 46 ∷ c ∷ base
plain_entry c base d = rw d refl

match_entry-IsUnder : (h entry : Bytes) → match_entry h entry ≡ true → IsUnder h entry
unfolding match_entry
match_entry-IsUnder h [] k = absurd (cc)
match_entry-IsUnder h (c ∷ base) k = elim (Bool-cases (same_bytes h (c ∷ base))) [
  | inl s ↦ (refl, inl (same_bytes→eq h (c ∷ base) s))
  | inr s ↦ elim (Bool-cases (c == 46)) [
    | inl d ↦ (
      refl,
      inr (
          rw (dotted_entry c base d)
            (has_suffix→ h (c ∷ base) (ground (arith, match_entry, s, d, k)))),
    )
    | inr d ↦ (
      refl,
      inr (
          rw (plain_entry c base d)
            (has_suffix→ h (46 ∷ c ∷ base) (ground (arith, match_entry, s, d, k)))),
    )
  ]
]

not_itself : (h front base : Bytes) (c : ℕ) → front ++ c ∷ base ≡ h → same_bytes h base ≡ false
not_itself h front base c e = elim (Bool-cases (same_bytes h base)) [
  | inl s ↦ absurd (
      omega
        (arith, ap length e, length-append front (c ∷ base), ap length (same_bytes→eq h base s)))
  | inr s ↦ s
]

IsUnder-match_entry : (h entry : Bytes) → IsUnder h entry → match_entry h entry ≡ true
unfolding match_entry
IsUnder-match_entry h [] k = let bad = k.0 in absurd (cc)
IsUnder-match_entry h (c ∷ base) (n, inl e) = rw (match_entry, e, same_bytes_refl (c ∷ base)) refl
IsUnder-match_entry h (c ∷ base) (n, inr (front, e)) = elim (Bool-cases (c == 46)) [
  | inl d ↦
      let e' : front ++ c ∷ base ≡ h = rw (dotted_entry c base d) at e in
      let s = not_itself h front base c e' in
      let suf : has_suffix h (c ∷ base) ≡ true = rw (sym e') (append-has_suffix front (c ∷ base)) in
      ground (arith, match_entry, d, s, suf)
  | inr d ↦
      let e' : front ++ 46 ∷ c ∷ base ≡ h = rw (plain_entry c base d) at e in
      let suf : has_suffix h (46 ∷ c ∷ base) ≡ true =
        rw (sym e') (append-has_suffix front (46 ∷ c ∷ base)) in
      let n = length-append front (46 ∷ c ∷ base) in
      let m = ap length e' in ground (arith, match_entry, d, suf)
]

-- A host matches an entry exactly if, with both trimmed and in lower case, the entry is not empty, and the
-- host is the entry or ends in the entry with a dot before it; a dot that the entry begins with is that
-- dot.
pub match_host-IsUnder :
    (h entry : Bytes) → (match_host h entry ≡ true) ↔ IsUnder (normal h) (normal entry)
unfolding match_host
match_host-IsUnder h entry =
    (match_entry-IsUnder (normal h) (normal entry), IsUnder-match_entry (normal h) (normal entry))

-- Some entry of a list has the host.
abbrev pub IsUnderSome : Bytes → List Bytes → Type 0
IsUnderSome h [] = ⊥
IsUnderSome h (entry ∷ entries) = IsUnder (normal h) (normal entry) ⊎ IsUnderSome h entries

pub host_in_list-IsUnderSome :
    (h : Bytes) (entries : List Bytes) → host_in_list h entries ≡ true → IsUnderSome h entries
unfolding host_in_list
host_in_list-IsUnderSome h [] k = absurd (cc)
host_in_list-IsUnderSome h (entry ∷ entries) k = elim (Bool-cases (match_host h entry)) [
  | inl m ↦ inl ((match_host-IsUnder h entry).0 m)
  | inr m ↦ inr (host_in_list-IsUnderSome h entries (rw (host_in_list, m) at k))
]

pub IsUnderSome-host_in_list :
    (h : Bytes) (entries : List Bytes) → IsUnderSome h entries → host_in_list h entries ≡ true
unfolding host_in_list
IsUnderSome-host_in_list h [] k = absurd k
IsUnderSome-host_in_list h (entry ∷ entries) (inl u) =
    rw (host_in_list, (match_host-IsUnder h entry).1 u) refl
IsUnderSome-host_in_list h (entry ∷ entries) (inr k) =
    ground (arith, IsUnderSome-host_in_list h entries k)
