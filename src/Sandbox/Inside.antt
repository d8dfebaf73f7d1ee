-- ===== src/Sandbox/Inside.antt =====
-- internal/sandboxfs/workspace.go: a path that is let through names a file inside the workspace.
use mathlib.Core.List.{reverse}
use toolsy.Prelude.{
  ◌≡◌, refl, ◌≢◌, ◌⊎◌, inl, inr, ap, ◌∙◌, true, false, ◌||◌, List, [], ◌∷◌, ◌++◌, arith, is_empty,
  if◌then◌else◌, Bool-cases, All,
}
use toolsy.Errors.{ok}
use toolsy.Bytes.{Bytes}
use toolsy.Sandbox.Workspace.{
  to_slashes, split_slashes, is_dot, is_dot_dot, go_up, push_segment, clean_segments, join_slashes,
  starts_up, normalize_relative_path,
}

-- Where a walk along segments from a directory ends; both are stacks, the deepest name on top.
abbrev pub parent : List Bytes → List Bytes
parent [] = []
parent (d ∷ ds) = ds

abbrev pub walk : List Bytes → List Bytes → List Bytes
walk dir [] = dir
walk dir (s ∷ ss) =
    walk (if is_empty s || is_dot s then dir else if is_dot_dot s then parent dir else s ∷ dir) ss

-- A segment that names an entry of a directory.
abbrev pub IsEntry : Bytes → Type 0
IsEntry s = (is_empty s ≡ false) × (is_dot s ≡ false) × (is_dot_dot s ≡ false)

push-starts_up :
    (st : List Bytes) (s : Bytes) → starts_up st ≡ true → starts_up (push_segment st s) ≡ true
unfolding push_segment starts_up
push-starts_up [] s h = absurd (cc)
push-starts_up (t ∷ []) s h = ground (arith, h)
push-starts_up (t ∷ (u ∷ us)) s h = ground (arith, h)

clean-starts_up :
    (ss st : List Bytes) → starts_up st ≡ true → starts_up (clean_segments st ss) ≡ true
unfolding clean_segments
clean-starts_up [] st h = h
clean-starts_up (s ∷ ss) st h = clean-starts_up ss (push_segment st s) (push-starts_up st s h)

up-IsEntry :
    (st : List Bytes) (s : Bytes)
    → All IsEntry st
    → is_dot_dot s ≡ true
    → All IsEntry (go_up s st) ⊎ (starts_up (go_up s st) ≡ true)
unfolding starts_up
up-IsEntry [] s h up = inr up
up-IsEntry (t ∷ ts) s h up = inl (rw (h.0.2) (h.1))

-- Segments that are entries stay so, or the path goes up at its start.
push-IsEntry :
    (st : List Bytes) (s : Bytes)
    → All IsEntry st
    → All IsEntry (push_segment st s) ⊎ (starts_up (push_segment st s) ≡ true)
unfolding push_segment starts_up
push-IsEntry st s h = elim (Bool-cases (is_empty s || is_dot s)) [
  | inl skipped ↦ inl (rw (skipped, push_segment) h)
  | inr real ↦ elim (Bool-cases (is_dot_dot s)) [
    | inr down ↦
        inl (rw (real, down, push_segment) ((ground (arith, real), ground (arith, real), down), h))
    | inl up ↦ rw (real, up, push_segment) (up-IsEntry st s h up)
  ]
]

push-walk :
    (st root : List Bytes) (s : Bytes)
    → All IsEntry st
    → starts_up (push_segment st s) ≡ false
    → walk (st ++ root) (s ∷ []) ≡ push_segment st s ++ root
unfolding push_segment starts_up
push-walk [] root s h k = ground (arith, k)
push-walk (t ∷ ts) root s h k = ground (arith, k, h.0)

clean-walk :
    (ss st root : List Bytes)
    → All IsEntry st
    → starts_up (clean_segments st ss) ≡ false
    → All IsEntry (clean_segments st ss) × (walk (st ++ root) ss ≡ clean_segments st ss ++ root)
unfolding clean_segments
clean-walk [] st root h k = (h, refl)
clean-walk (s ∷ ss) st root h k = elim (Bool-cases (starts_up (push_segment st s))) [
  | inl up ↦ absurd (cc (clean-starts_up ss (push_segment st s) up))
  | inr inside ↦ elim (push-IsEntry st s h) [
    | inr up ↦ absurd (cc)
    | inl entries ↦
        let (later, ends) = clean-walk ss (push_segment st s) root entries k in
        (later, ap (λ x. walk x ss) (push-walk st root s h inside) ∙ ends)
  ]
]

-- A path that `NormalizeRelativePath` lets through is written by its segments, from the workspace down,
-- each of which names an entry and none of which is empty, `.` or `..`; and from whatever directory it is
-- walked, the path that was given, with its `.` and `..`, ends at the same entry below this directory.
pub normalize_relative_path-IsInside :
    (name path : Bytes)
    → normalize_relative_path name ≡ ok path
    → (segments : List Bytes) × (path ≡ join_slashes (reverse segments))
      × (segments ≢ [])
      × All IsEntry segments
      × ((root : List Bytes) → walk root (split_slashes (to_slashes name)) ≡ segments ++ root)
unfolding normalize_relative_path
normalize_relative_path-IsInside name path h =
    let clean = clean_segments [] (split_slashes (to_slashes name)) in
    let inside : starts_up clean ≡ false = ground (arith, h) in
    (
      clean,
      ground (arith, h),
      ground (arith, h),
      (clean-walk (split_slashes (to_slashes name)) [] [] tt inside).0,
      λ root. (clean-walk (split_slashes (to_slashes name)) [] root tt inside).1,
    )
