-- ===== src/CallParser/Groups.antt =====
-- callparser.go: that the calls among the parts that rejectMultipleToolCalls lets pass are one group.
use toolsy.Prelude.{
  ℕ, ◌+◌, ◌≤◌, none, List, [], ◌∷◌, ◌≡◌, inl, inr, refl, sym, arith, length, is_empty, All,
  Bool-cases, if◌then◌else◌,
}
use toolsy.Bytes.{Bytes, same_bytes, contains_bytes, trim_space}
use toolsy.CallParser.{ContentPart, is_call}
use toolsy.CallParser.Calls.{group_key, count_groups, reject_multiple_tool_calls}
use toolsy.Bytes.{same_bytes→eq}

-- The keys of the calls among parts, in the groups of rejectMultipleToolCalls.
abbrev pub call_keys : ℕ → List ContentPart → List Bytes
call_keys i [] = []
call_keys i (p ∷ ps) =
    let rest = call_keys (i + 1) ps in if is_call p then group_key i p ∷ rest else rest

-- The count of calls without an id after a call.
abbrev next_count : ℕ → ContentPart → ℕ
next_count n p = if is_empty (trim_space p.tool_call_id) then n + 1 else n

count_groups-longer :
    (i : ℕ) (groups : List Bytes) (n : ℕ) (ps : List ContentPart)
    → length groups ≤ length (count_groups i groups n ps).0
unfolding count_groups
count_groups-longer i groups n [] = omega arith
count_groups-longer i groups n (p ∷ ps) = elim (Bool-cases (is_call p)) [
  | inr c ↦ rw (count_groups, c) (count_groups-longer (i + 1) groups n ps)
  | inl c ↦ elim (Bool-cases (contains_bytes groups (group_key i p))) [
    | inl k ↦ rw (count_groups, c, k) (count_groups-longer (i + 1) groups (next_count n p) ps)
    | inr k ↦
        rw (count_groups, c, k)
          (omega (arith, count_groups-longer (i + 1) (group_key i p ∷ groups) (next_count n p) ps))
  ]
]

count_groups-same :
    (i : ℕ) (k : Bytes) (n : ℕ) (ps : List ContentPart)
    → length (count_groups i (k ∷ []) n ps).0 ≤ 1
    → All (λ key. key ≡ k) (call_keys i ps)
unfolding count_groups
count_groups-same i k n [] h = tt
count_groups-same i k n (p ∷ ps) h = elim (Bool-cases (is_call p)) [
  | inr c ↦ rw c (count_groups-same (i + 1) k n ps (rw (count_groups, c) at h))
  | inl c ↦ elim (Bool-cases (same_bytes k (group_key i p))) [
    | inl same ↦ rw c (
      sym (same_bytes→eq k (group_key i p) same),
      count_groups-same (i + 1) k (next_count n p) ps
          (rw (count_groups, c, contains_bytes, same) at h),
    )
    | inr other ↦
        let few : length (count_groups (i + 1) (group_key i p ∷ k ∷ []) (next_count n p) ps).0 ≤ 1 =
          rw (count_groups, c, contains_bytes, other) at h in
        absurd (
          omega
            (arith, few, count_groups-longer (i + 1) (group_key i p ∷ k ∷ []) (next_count n p) ps))
  ]
]

count_groups-first :
    (i : ℕ) (n : ℕ) (ps : List ContentPart)
    → length (count_groups i [] n ps).0 ≤ 1
    → (k : Bytes) × All (λ key. key ≡ k) (call_keys i ps)
unfolding count_groups
count_groups-first i n [] h = ([], tt)
count_groups-first i n (p ∷ ps) h = elim (Bool-cases (is_call p)) [
  | inr c ↦
      let (k, all) = count_groups-first (i + 1) n ps (rw (count_groups, c) at h) in (k, rw c all)
  | inl c ↦ (
    group_key i p,
    rw c (
      refl,
      count_groups-same (i + 1) (group_key i p) (next_count n p) ps
          (rw (count_groups, c, contains_bytes) at h),
    ),
  )
]

-- The calls that pass are one group.
pub reject_multiple_tool_calls-same :
    (ps : List ContentPart)
    → reject_multiple_tool_calls ps ≡ none
    → (k : Bytes) × All (λ key. key ≡ k) (call_keys 0 ps)
unfolding reject_multiple_tool_calls
reject_multiple_tool_calls-same ps h = count_groups-first 0 0 ps (ground (arith, h))
