-- ===== src/History/Boundaries.antt =====
-- history/semantic_truncation.go: a safe boundary leaves no tool call before it without its result.
use toolsy.Prelude.{
  ℕ, suc, ◌+◌, ◌-◌, ◌≤◌, String, ◌≡◌, refl, ◌⊎◌, inl, inr, true, false, List, [], ◌∷◌, ◌++◌, sym,
  subst, ◌∙◌, arith, length, take, drop, is_empty, ltb, ◌==◌, ==_iff, str_eq, str_eq_iff,
  if◌then◌else◌, All, All-append, All-map, Bool-cases, length-drop,
}
use toolsy.History.{
  Inspector, OpenIds, register_id, consume_id, register_open_tool_call_ids,
  consume_open_tool_call_ids, track, scan_boundaries, last_or, compute_safe_boundaries,
}

-- How often an id stands in a list.
abbrev occurrences : String → List String → ℕ
occurrences id [] = 0
occurrences id (x ∷ xs) = (if str_eq x id then 1 else 0) + occurrences id xs

-- The calls of `id` that wait for a result, from `n` that wait before the messages: a call adds to
-- them, and a result takes from them what there is.
abbrev pub waiting : {T : Type 0} → Inspector T → String → ℕ → List T → ℕ
waiting insp id n [] = n
waiting insp id n (msg ∷ rest) =
    let k = occurrences id (insp.tool_call_ids msg) in
    let called = if insp.is_tool_call msg then n + k else n in
    waiting insp id (if insp.is_tool_result msg then called - k else called) rest

-- What the map of open ids says of `id`; an absent key is 0.
abbrev total : String → OpenIds → ℕ
total id [] = 0
total id ((k, n) ∷ m) = (if str_eq k id then n else 0) + total id m

abbrev IsPositive : OpenIds → Type 0
IsPositive [] = Unit
IsPositive ((k, n) ∷ m) = (1 ≤ n) × IsPositive m

total-register :
    (i id : String) (m : OpenIds)
    → total id (register_id m i) ≡ total id m + (if str_eq i id then 1 else 0)
unfolding register_id
total-register i id [] = ground arith
total-register i id ((k, n) ∷ m) =
    ground (arith, total-register i id m, str_eq_iff k i, str_eq_iff k id, str_eq_iff i id)

register-IsPositive : (i : String) (m : OpenIds) → IsPositive m → IsPositive (register_id m i)
unfolding register_id
register-IsPositive i [] h = ground arith
register-IsPositive i ((k, n) ∷ m) h = ground (arith, register-IsPositive i m)

total-consume :
    (i id : String) (m : OpenIds)
    → IsPositive m
    → total id (consume_id m i) ≡ total id m - (if str_eq i id then 1 else 0)
unfolding consume_id
total-consume i id [] h = ground arith
total-consume i id ((k, n) ∷ m) h =
    ground (arith, total-consume i id m h.1, str_eq_iff k i, str_eq_iff k id, str_eq_iff i id)

consume-IsPositive : (i : String) (m : OpenIds) → IsPositive m → IsPositive (consume_id m i)
unfolding consume_id
consume-IsPositive i [] h = tt
consume-IsPositive i ((k, n) ∷ m) h = ground (arith, consume-IsPositive i m h.1)

module _ (id : String) (named : str_eq id "" ≡ false) where
  total-register_all :
      (ids : List String) (m : OpenIds)
      → total id (register_open_tool_call_ids m ids) ≡ total id m + occurrences id ids
  unfolding register_open_tool_call_ids
  total-register_all [] m = omega arith
  total-register_all (i ∷ ids) m = elim (Bool-cases (str_eq i "")) [
    | inl blank ↦ rw blank (
        ground
          (arith, total-register_all ids m, str_eq_iff i "", str_eq_iff i id, str_eq_iff id ""))
    | inr real ↦
        rw real (omega (arith, total-register_all ids (register_id m i), total-register i id m))
  ]

  total-consume_all :
      (ids : List String) (m : OpenIds)
      → IsPositive m
      → total id (consume_open_tool_call_ids m ids) ≡ total id m - occurrences id ids
  unfolding consume_open_tool_call_ids
  total-consume_all [] m h = omega arith
  total-consume_all (i ∷ ids) m h = elim (Bool-cases (str_eq i "")) [
    | inl blank ↦ rw blank (
        ground
          (arith, total-consume_all ids m h, str_eq_iff i "", str_eq_iff i id, str_eq_iff id ""))
    | inr real ↦ rw real (
        omega (
          arith,
          total-consume_all ids (consume_id m i) (consume-IsPositive i m h),
          total-consume i id m h,
        ))
  ]

register_all-IsPositive :
    (ids : List String) (m : OpenIds)
    → IsPositive m
    → IsPositive (register_open_tool_call_ids m ids)
unfolding register_open_tool_call_ids
register_all-IsPositive [] m h = h
register_all-IsPositive (i ∷ ids) m h = elim (Bool-cases (str_eq i "")) [
  | inl blank ↦ rw blank (register_all-IsPositive ids m h)
  | inr real ↦ rw real (register_all-IsPositive ids (register_id m i) (register-IsPositive i m h))
]

consume_all-IsPositive :
    (ids : List String) (m : OpenIds) → IsPositive m → IsPositive (consume_open_tool_call_ids m ids)
unfolding consume_open_tool_call_ids
consume_all-IsPositive [] m h = h
consume_all-IsPositive (i ∷ ids) m h = elim (Bool-cases (str_eq i "")) [
  | inl blank ↦ rw blank (consume_all-IsPositive ids m h)
  | inr real ↦ rw real (consume_all-IsPositive ids (consume_id m i) (consume-IsPositive i m h))
]

module _ {T : Type 0} (insp : Inspector T) where
  track-IsPositive : (m : OpenIds) (msg : T) → IsPositive m → IsPositive (track insp m msg)
  unfolding track
  track-IsPositive m msg h =
      let ids = insp.tool_call_ids msg in
      ground (
        arith,
        register_all-IsPositive ids m h,
        consume_all-IsPositive ids m h,
        consume_all-IsPositive ids (register_open_tool_call_ids m ids)
            (register_all-IsPositive ids m h),
      )

  -- One message changes the map as it changes the number that waits.
  total-track :
      (id : String) (m : OpenIds) (msg : T)
      → str_eq id "" ≡ false
      → IsPositive m
      → total id (track insp m msg) ≡ waiting insp id (total id m) (msg ∷ [])
  unfolding track
  total-track id m msg named h =
      let ids = insp.tool_call_ids msg in
      ground (
        arith,
        total-register_all id named ids m,
        total-consume_all id named ids m h,
        total-consume_all id named ids (register_open_tool_call_ids m ids)
            (register_all-IsPositive ids m h),
      )

  -- `j` messages on, no call of any id waits.
  abbrev pub IsSettled : OpenIds → List T → ℕ → Type 0
  IsSettled m ms j =
      (id : String) → str_eq id "" ≡ false → waiting insp id (total id m) (take j ms) ≡ 0

  abbrev Settles : ℕ → OpenIds → List T → ℕ → Type 0
  Settles i m ms b = (j : ℕ) × (b ≡ i + j) × (j ≤ length ms) × IsSettled m ms j

last-append : (b : ℕ) (bs : List ℕ) (n : ℕ) → last_or b (bs ++ n ∷ []) ≡ n
unfolding last_or
last-append b [] n = refl
last-append b (c ∷ bs) n = last-append c bs n

total-empty : (id : String) (m : OpenIds) → is_empty m ≡ true → total id m ≡ 0
total-empty id [] h = refl
total-empty id (e ∷ m) h = cc

module _ {T : Type 0} (insp : Inspector T) where
  Settles-later :
      (i : ℕ) (m : OpenIds) (msg : T) (rest : List T)
      → IsPositive m
      → (b : ℕ) → Settles insp (suc i) (track insp m msg) rest b
      → Settles insp i m (msg ∷ rest) b
  Settles-later i m msg rest h b (j, at, fits, settled) = (
    suc j,
    omega arith,
    omega arith,
    λ id named.
        subst (λ n. waiting insp id n (take j rest) ≡ 0) (total-track insp id m msg named h)
          (settled id named),
  )

  Settles-here :
      (i : ℕ) (m : OpenIds) (msg : T) (rest : List T)
      → IsPositive m
      → is_empty (track insp m msg) ≡ true
      → Settles insp i m (msg ∷ rest) (suc i)
  Settles-here i m msg rest h none_open = (
    1,
    omega arith,
    omega arith,
    λ id named.
        sym (total-track insp id m msg named h) ∙ total-empty id (track insp m msg) none_open,
  )

  scan_boundaries-Settles :
      (i : ℕ) (m : OpenIds) (ms : List T)
      → IsPositive m
      → All (Settles insp i m ms) (scan_boundaries insp i m ms)
  unfolding scan_boundaries
  scan_boundaries-Settles i m [] h = tt
  scan_boundaries-Settles i m (msg ∷ rest) h =
      let later =
        All-map (Settles insp (suc i) (track insp m msg) rest) (Settles insp i m (msg ∷ rest))
          (scan_boundaries insp (suc i) (track insp m msg) rest) (Settles-later i m msg rest h)
          (scan_boundaries-Settles (suc i) (track insp m msg) rest
            (track-IsPositive insp m msg h)) in
      elim (Bool-cases (is_empty (track insp m msg))) [
        | inl e ↦ rw e (Settles-here i m msg rest h e, later)
        | inr e ↦ rw e later
      ]

  -- A cut of `history` at `b` drops no call whose result it keeps: `b` is the history's end, or
  -- between `start` and `b` every call has its result.
  abbrev pub IsSafe : List T → ℕ → ℕ → Type 0
  IsSafe history start b =
      (b ≡ length history)
      ⊎ ((j : ℕ) × (b ≡ start + j)
          × (b ≤ length history)
          × ((id : String)
              → str_eq id "" ≡ false
              → waiting insp id 0 (take j (drop start history)) ≡ 0))

  -- Every boundary that `computeSafeBoundaries` returns for a start within the history is safe: it is the
  -- history's end, or no call between the start and the boundary has its result after it.
  pub compute_safe_boundaries-IsSafe :
      (history : List T) (start : ℕ)
      → start ≤ length history
      → All (IsSafe history start) (compute_safe_boundaries insp history start)
  unfolding compute_safe_boundaries
  compute_safe_boundaries-IsSafe history start h =
      let inside : ltb (length history) start ≡ false = ground arith in
      rw inside (
        let later =
          All-map (Settles insp start [] (drop start history)) (IsSafe history start)
            (scan_boundaries insp start [] (drop start history))
            (λ b s. inr (s.0, s.1, omega (arith, length-drop start history, s.1, s.2), s.3))
            (scan_boundaries-Settles start [] (drop start history) tt) in
        let here : IsSafe history start start = inr (0, omega arith, h, λ id named. refl) in
        elim (Bool-cases
          (last_or start (scan_boundaries insp start [] (drop start history)) == length history)) [
            | inl e ↦ rw e (here, later)
            | inr e ↦ rw e (
              here,
              All-append (IsSafe history start) _ (length history ∷ []) later (inl refl, tt),
            )
          ])

  -- The last boundary is the history's end.
  pub last-compute_safe_boundaries :
      (history : List T) (start : ℕ)
      → start ≤ length history
      → last_or 0 (compute_safe_boundaries insp history start) ≡ length history
  unfolding compute_safe_boundaries last_or
  last-compute_safe_boundaries history start h =
      let inside : ltb (length history) start ≡ false = ground arith in
      rw inside
        (elim (Bool-cases
          (last_or start (scan_boundaries insp start [] (drop start history)) == length history)) [
            | inl e ↦ rw e ((==_iff _ _).0 e)
            | inr e ↦ rw e (
                last-append start (scan_boundaries insp start [] (drop start history))
                  (length history))
          ])
