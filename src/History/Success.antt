-- ===== src/History/Success.antt =====
-- history/semantic_truncation.go: truncation succeeds whenever the leading system messages fit.
use mathlib.Core.List.{append-nil}
use toolsy.Prelude.{
  ℕ, suc, ◌≤◌, ◌≡◌, refl, inl, inr, Bool, true, false, List, [], ◌∷◌, ◌++◌, sym, ◌∙◌, ap, arith,
  length, take, drop, ltb, leb, ◌==◌, none, some, if◌then◌else◌, Bool-cases,
}
use toolsy.Errors.{ok, Result-cases}
use toolsy.History.{
  Inspector, TokenCounter, Summarizer, Report, Attempt, gave_up, finished, failed, conclude,
  join_segments, compute_safe_boundaries, find_mechanical_boundary, choose_summary_boundary,
  is_valid_summary, cut_summary, join_summary, try_summary_truncation, mechanical, truncate_at,
  truncate_counted, scan_boundaries, apply_semantic_truncation, last_or,
}
use toolsy.History.Boundaries.{last-compute_safe_boundaries}
use toolsy.History.Choice.{IsTotal, find_mechanical_boundary-total}
use toolsy.History.Truncation.{leading_system_prefix_len-le, prefix_end, end-le-joined}

drop-length : {T : Type 0} (xs : List T) → drop (length xs) xs ≡ []
drop-length [] = refl
drop-length (x ∷ xs) = drop-length xs

-- The candidate at the history's end is the prefix alone.
prefix_alone : {T : Type 0} (pre xs : List T) → join_segments pre [] (drop (length xs) xs) ≡ pre
prefix_alone pre xs = rw (drop-length xs) (append-nil (pre ++ []) ∙ append-nil pre)

module _ {T : Type 0} (insp : Inspector T) (count : TokenCounter T) (max_tokens : ℕ) where
  -- The boundaries start with the prefix's end.
  compute_safe_boundaries-cons :
      (history : List T) (start : ℕ)
      → start ≤ length history
      → (bs : List ℕ) × (compute_safe_boundaries insp history start ≡ start ∷ bs)
  unfolding compute_safe_boundaries
  compute_safe_boundaries-cons history start h =
      let inside : ltb (length history) start ≡ false = ground arith in
      let later = scan_boundaries insp start [] (drop start history) in
      rw inside (elim (Bool-cases (last_or start later == length history)) [
        | inl e ↦ (later, rw e)
        | inr e ↦ (later ++ length history ∷ [], rw e)
      ])

  find_mechanical_boundary-prefix :
      (history pre : List T) (start : ℕ)
      → start ≤ length history
      → IsTotal count
      → {p : ℕ} → count pre ≡ ok p
      → p ≤ max_tokens
      → (r : ℕ × ℕ) × (find_mechanical_boundary count history pre max_tokens
            (compute_safe_boundaries insp history start)
          ≡ ok r)
  unfolding last_or
  find_mechanical_boundary-prefix history pre start h total {p} counted small =
      let (bs, e) = compute_safe_boundaries-cons history start h in
      let last : last_or start bs ≡ length history =
        ap (last_or 0) (sym e) ∙ last-compute_safe_boundaries insp history start h in
      rw e (
        find_mechanical_boundary-total count history pre max_tokens start bs total p
          (record { counted = rw (last, prefix_alone pre history) counted; within = small }))

  abbrev DidNotFail : Attempt T → Type 0
  DidNotFail (gave_up r) = Unit
  DidNotFail (finished out r) = Unit
  DidNotFail (failed e r) = ⊥

module _ {T : Type 0} (insp : Inspector T) (count : TokenCounter T) (max_tokens : ℕ)
    (history : List T) (end : ℕ) (fits : end ≤ length history) (total : IsTotal count) {p : ℕ}
    (counted : count (take end history) ≡ ok p) (small : p ≤ max_tokens) where
  cut_summary-succeeds :
      (b : ℕ) (summary : List T) (report : Report)
      → DidNotFail insp count max_tokens (
          cut_summary insp count history end summary
            (join_segments (take end history) summary (drop b history))
            max_tokens
            report)
  unfolding cut_summary
  cut_summary-succeeds b summary report =
      let joined = join_segments (take end history) summary (drop b history) in
      let (r, found) =
        find_mechanical_boundary-prefix insp count max_tokens joined (take end history) end
          (end-le-joined insp history end count max_tokens fits b summary) total counted small in
      rw (found, cut_summary) tt

  join_summary-succeeds :
      (b : ℕ) (summary : List T) (report : Report)
      → DidNotFail insp count max_tokens
          (join_summary insp count history end b max_tokens summary report)
  unfolding join_summary
  join_summary-succeeds b summary report =
      let (n, joined) = total (join_segments (take end history) summary (drop b history)) in
      elim (Bool-cases (leb n max_tokens)) [
        | inl yes_fits ↦ rw (joined, join_summary) (rw yes_fits tt)
        | inr large ↦ rw (joined, join_summary) (rw large (cut_summary-succeeds b summary report))
      ]

  try_summary_truncation-succeeds :
      (summarize : Summarizer T) (b : ℕ) (report : Report)
      → DidNotFail insp count max_tokens
          (try_summary_truncation insp count summarize history end b max_tokens report)
  unfolding try_summary_truncation
  try_summary_truncation-succeeds summarize b report =
      elim (Result-cases (summarize (drop end (take b history)))) [
        | inr (e, bad) ↦ rw (bad, try_summary_truncation) tt
        | inl (summary, made) ↦ elim (Bool-cases (is_valid_summary insp summary)) [
          | inl valid ↦
              rw (made, try_summary_truncation) (rw valid (join_summary-succeeds b summary report))
          | inr bad ↦ rw (made, try_summary_truncation) (rw bad tt)
        ]
      ]

  conclude-succeeds :
      (b toks : ℕ) (a : Attempt T)
      → DidNotFail insp count max_tokens a
      → (conclude history end b toks a).error ≡ none
  unfolding mechanical
  conclude-succeeds b toks (gave_up r) h = refl
  conclude-succeeds b toks (finished out r) h = refl
  conclude-succeeds b toks (failed e r) h = absurd h

  truncate_at-succeeds :
      (summarize : Summarizer T) (min_recent : ℕ) (report : Report)
      → (truncate_at insp count summarize history end max_tokens min_recent report).error ≡ none
  unfolding truncate_at
  truncate_at-succeeds summarize min_recent report =
      let (r, found) =
        find_mechanical_boundary-prefix insp count max_tokens history (take end history) end fits
          total counted small in
      let boundary =
        choose_summary_boundary (compute_safe_boundaries insp history end) end (length history)
          min_recent in
      rw (found, truncate_at)
        (conclude-succeeds r.0 r.1 _
          (pick (ltb end boundary) _ (try_summary_truncation-succeeds summarize boundary report)))
    where
      pick :
          (c : Bool) (a : Attempt T)
          → DidNotFail insp count max_tokens a
          → DidNotFail insp count max_tokens (if c then a else gave_up report)
      pick true a h = h
      pick false a h = tt

module _ {T : Type 0} (history : List T) (k : ℕ) (count : TokenCounter T) (summarize : Summarizer T)
    (insp : Inspector T) (min_recent : ℕ) where
  -- With a counter that does not fail, `ApplySemanticTruncation` returns no error if the leading
  -- system messages have at most `maxTokens` tokens, whatever the summarizer does.
  pub apply_semantic_truncation-succeeds :
      IsTotal count
      → {p : ℕ} → count (take (prefix_end insp history) history) ≡ ok p
      → p ≤ suc k
      → (apply_semantic_truncation history
          (suc k)
          (some count)
          (some summarize)
          (some insp)
          min_recent).error
        ≡ none
  unfolding apply_semantic_truncation truncate_counted
  apply_semantic_truncation-succeeds total {p} counted small =
      let (n, before) = total history in
      let within : ltb (suc k) p ≡ false = ground arith in
      rw (before, apply_semantic_truncation)
        (elim (Bool-cases (leb n (suc k))) [
          | inl short ↦ rw (short, truncate_counted) refl
          | inr long ↦
              rw (long, truncate_counted)
                (rw (counted, truncate_counted)
                  (rw within (
                    truncate_at-succeeds insp count (suc k) history (prefix_end insp history)
                      (leading_system_prefix_len-le insp history) total counted small summarize
                      min_recent _)))
        ])
