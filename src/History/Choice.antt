-- ===== src/History/Choice.antt =====
-- history/semantic_truncation.go: which of the safe boundaries is taken.
use toolsy.Prelude.{
  ℕ, ◌+◌, ◌-◌, ◌≤◌, ◌<◌, max, ◌≡◌, inl, inr, Bool, true, false, List, [], ◌∷◌, ◌++◌, subst, ap,
  arith, drop, ltb, leb, ◌&&◌, if◌then◌else◌, All, All-map, Bool-cases,
}
use toolsy.Errors.{ok, Result-cases}
use toolsy.History.{
  TokenCounter, last_or, join_segments, find_mechanical_boundary, best_up_to, last_above,
  choose_summary_boundary,
}

-- A counter that always counts.
abbrev pub IsTotal : {T : Type 0} → TokenCounter T → Type 0
IsTotal {T} count = (l : List T) → (n : ℕ) × (count l ≡ ok n)

All-middle : (P : ℕ → Type 0) (xs ys : List ℕ) (b : ℕ) → All P (xs ++ b ∷ ys) → P b
All-middle P [] ys b h = h.0
All-middle P (x ∷ xs) ys b h = All-middle P xs ys b h.1

module _ {T : Type 0} (count : TokenCounter T) (history pre : List T) (max_tokens : ℕ) where
  -- The candidate at `b` has `toks` tokens, within the budget.
  pub record Fits (b toks : ℕ) : Type 0 where
    pub counted : count (join_segments pre [] (drop b history)) ≡ ok toks
    pub within : toks ≤ max_tokens

  abbrev TooLong : ℕ → Type 0
  TooLong b = (n : ℕ) × (count (join_segments pre [] (drop b history)) ≡ ok n) × (max_tokens < n)

  -- What the search returns: the first boundary whose candidate fits, all before it being too long.
  pub record IsFirstFit (bs : List ℕ) (b toks : ℕ) : Type 0 where
    pub earlier : List ℕ
    pub later : List ℕ
    pub split : bs ≡ earlier ++ b ∷ later
    pub too_long : All TooLong earlier
    pub fits : Fits b toks

  -- A boundary that the search returns with a count is the first one whose candidate, the prefix and the
  -- rest of the history, has a count within the limit; the count is the candidate's.
  pub find_mechanical_boundary-first :
      (bs : List ℕ) (b toks : ℕ)
      → find_mechanical_boundary count history pre max_tokens bs ≡ ok (b, toks)
      → IsFirstFit bs b toks
  unfolding find_mechanical_boundary
  find_mechanical_boundary-first [] b toks h = cc
  find_mechanical_boundary-first (c ∷ cs) b toks h =
      elim (Result-cases (count (join_segments pre [] (drop c history)))) [
        | inr (e, failed) ↦ ground arith
        | inl (n, counted) ↦ elim (Bool-cases (leb n max_tokens)) [
          | inl fits ↦
              let taken : (c ≡ b) × (n ≡ toks) = ground arith in
              record {
                earlier = [];
                later = cs;
                split = ap (λ x. x ∷ cs) taken.0;
                too_long = tt;
                fits = record { counted = ground arith; within = ground arith };
              }
          | inr long ↦
              let r = find_mechanical_boundary-first cs b toks (ground arith) in
              record {
                earlier = c ∷ r.earlier;
                later = r.later;
                split = ap (λ l. c ∷ l) r.split;
                too_long = ((n, counted, ground arith), r.too_long);
                fits = r.fits;
              }
        ]
      ]

  -- The search succeeds if the counter does and the candidate at the last boundary fits.
  pub find_mechanical_boundary-total :
      (b : ℕ) (bs : List ℕ)
      → IsTotal count
      → (n : ℕ) → Fits (last_or b bs) n
      → (r : ℕ × ℕ) × (find_mechanical_boundary count history pre max_tokens (b ∷ bs) ≡ ok r)
  unfolding find_mechanical_boundary last_or
  find_mechanical_boundary-total b [] total n f =
      let counted : count (join_segments pre [] (drop b history)) ≡ ok n = f.counted in
      ((b, n), ground (arith, f.within))
  find_mechanical_boundary-total b (c ∷ cs) total n f =
      let (k, counted) = total (join_segments pre [] (drop b history)) in
      let (r, found) = find_mechanical_boundary-total c cs total n f in
      elim (Bool-cases (leb k max_tokens)) [
        | inl fits ↦ ((b, k), ground (arith, counted))
        | inr long ↦ (r, ground (arith, counted, found))
      ]

  -- What holds of every boundary holds of the one that is found.
  pub IsFirstFit-All :
      (P : ℕ → Type 0) {b toks : ℕ} (bs : List ℕ) → IsFirstFit bs b toks → All P bs → P b
  IsFirstFit-All P {b} bs f h = All-middle P f.earlier f.later b (subst (All P) f.split h)

module _ (protected_end target : ℕ) where
  best-le-best_up_to : (best : ℕ) (bs : List ℕ) → best ≤ best_up_to protected_end target best bs
  unfolding best_up_to
  best-le-best_up_to best [] = omega arith
  best-le-best_up_to best (b ∷ bs) =
      ground (arith, best-le-best_up_to best bs, best-le-best_up_to b bs)

  abbrev next_best : ℕ → ℕ → ℕ
  next_best best b =
      if leb b protected_end then best else if leb b target && ltb best b then b else best

  best_up_to-greatest :
      (best : ℕ) (bs : List ℕ)
      → All (λ b. protected_end < b → b ≤ target → b ≤ best_up_to protected_end target best bs) bs
  unfolding best_up_to
  best_up_to-greatest best [] = tt
  best_up_to-greatest best (b ∷ bs) = (
    (λ above within. ground (arith, best-le-best_up_to best bs, best-le-best_up_to b bs)),
    best_up_to-greatest (next_best best b) bs,
  )

  best_up_to-All :
      (P : ℕ → Type 0) (best : ℕ) (bs : List ℕ)
      → P best
      → All P bs
      → P (best_up_to protected_end target best bs)
  unfolding best_up_to
  best_up_to-All P best [] h k = h
  best_up_to-All P best (b ∷ bs) h k = best_up_to-All P (next_best best b) bs chosen k.1
    where
      chosen : P (next_best best b)
      chosen = pick (leb b protected_end) (leb b target && ltb best b)
        where
          pick : (x y : Bool) → P (if x then best else if y then b else best)
          pick true y = h
          pick false true = k.0
          pick false false = h

  best_up_to-le :
      (best : ℕ) (bs : List ℕ) → best ≤ target → best_up_to protected_end target best bs ≤ target
  unfolding best_up_to
  best_up_to-le best [] h = h
  best_up_to-le best (b ∷ bs) h = best_up_to-le (next_best best b) bs (ground arith)

module _ (P : ℕ → Type 0) (protected_end : ℕ) where
  last_above-All : (bs : List ℕ) → P protected_end → All P bs → P (last_above protected_end bs)
  unfolding last_above
  last_above-All [] h k = h
  last_above-All (b ∷ bs) h k =
      pick (ltb protected_end (last_above protected_end bs)) (ltb protected_end b)
        (last_above-All bs h k.1)
    where
      pick :
          (x y : Bool)
          → P (last_above protected_end bs)
          → P (if x then last_above protected_end bs else if y then b else protected_end)
      pick true y ih = ih
      pick false true ih = k.0
      pick false false ih = h

  -- The chosen summary boundary is one of the boundaries, or the prefix's end.
  pub choose_summary_boundary-All :
      (bs : List ℕ) (total_len min_recent : ℕ)
      → P protected_end
      → All P bs
      → P (choose_summary_boundary bs protected_end total_len min_recent)
  unfolding choose_summary_boundary
  choose_summary_boundary-All bs total_len min_recent h k =
      let target = max (total_len - min_recent) (protected_end + 1) in
      pick (leb total_len protected_end)
        (ltb protected_end (best_up_to protected_end target protected_end bs))
        (best_up_to-All protected_end target P protected_end bs h k) (last_above-All bs h k)
    where
      pick :
          (x y : Bool) {b l : ℕ} → P b → P l → P (if x then protected_end else if y then b else l)
      pick true y p q = h
      pick false true p q = p
      pick false false p q = q

-- If a boundary above the prefix leaves the recent messages alone, the greatest such is chosen.
pub choose_summary_boundary-greatest :
    (bs : List ℕ) (protected_end total_len min_recent : ℕ)
    → let target = max (total_len - min_recent) (protected_end + 1) in
      let chosen = choose_summary_boundary bs protected_end total_len min_recent in
      protected_end < total_len
      → All (λ b. protected_end < b → b ≤ target → (b ≤ chosen) × (chosen ≤ target)) bs
unfolding choose_summary_boundary
choose_summary_boundary-greatest bs protected_end total_len min_recent inside =
    let target = max (total_len - min_recent) (protected_end + 1) in
    let greatest = best_up_to-greatest protected_end target protected_end bs in
    let low : best_up_to protected_end target protected_end bs ≤ target =
      best_up_to-le protected_end target protected_end bs (omega arith) in
    All-map _ _ bs (λ b above. λ p q. ground (arith, above p q, low)) greatest
