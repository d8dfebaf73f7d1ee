-- ===== src/History/Truncation.antt =====
-- history/semantic_truncation.go: what the truncated history is, that it keeps to the budget, and
-- when there is one.
use toolsy.Prelude.{
  ℕ, suc, ◌≤◌, ◌≡◌, refl, inl, inr, Bool, true, false, List, [], ◌∷◌, ◌++◌, arith, length, take,
  drop, ltb, leb, leb→le, none, some, if◌then◌else◌, Bool-cases, length-append, length-take,
}
use toolsy.Errors.{ok, Result-cases}
use toolsy.History.{
  Inspector, TokenCounter, Summarizer, Report, Attempt, gave_up, finished, failed, Truncated,
  join_segments, leading_system_prefix_len, compute_safe_boundaries, find_mechanical_boundary,
  choose_summary_boundary, is_valid_summary, cut_summary, join_summary, try_summary_truncation,
  conclude, mechanical, truncate_at, truncate_counted, apply_semantic_truncation,
}
use toolsy.History.Boundaries.{IsSafe, compute_safe_boundaries-IsSafe}
use toolsy.History.Choice.{
  Fits, IsFirstFit-All, find_mechanical_boundary-first, choose_summary_boundary-All,
}

pub leading_system_prefix_len-le :
    {T : Type 0} (insp : Inspector T) (history : List T)
    → leading_system_prefix_len insp history ≤ length history
unfolding leading_system_prefix_len
leading_system_prefix_len-le insp [] = omega arith
leading_system_prefix_len-le insp (m ∷ ms) = ground (arith, leading_system_prefix_len-le insp ms)

module _ {T : Type 0} (insp : Inspector T) (history : List T) (end : ℕ) where
  -- The forms of a result: `end` is the end of the leading system messages.
  pub data Shape (out : List T) : Type 0 where
    unchanged : out ≡ history → Shape out
    dropped :
        (b : ℕ)
        → IsSafe insp history end b
        → out ≡ join_segments (take end history) [] (drop b history)
        → Shape out
    summarised :
        (b : ℕ) (summary : List T)
        → IsSafe insp history end b
        → is_valid_summary insp summary ≡ true
        → out ≡ join_segments (take end history) summary (drop b history)
        → Shape out
    cut_after_summary :
        (b c : ℕ) (summary : List T)
        → IsSafe insp history end b
        → is_valid_summary insp summary ≡ true
        → IsSafe insp (join_segments (take end history) summary (drop b history)) end c
        → out
          ≡ join_segments
              (take end history)
              []
              (drop c (join_segments (take end history) summary (drop b history)))
        → Shape out

  -- A result has one of the forms, and the report states its tokens, within the budget.
  pub record IsGood (count : TokenCounter T) (max_tokens : ℕ) (out : List T) (report : Report)
      : Type 0 where
    pub shape : Shape out
    pub counted : count out ≡ ok report.tokens_after
    pub within : report.tokens_after ≤ max_tokens

  abbrev AttemptIsGood : TokenCounter T → ℕ → Attempt T → Type 0
  AttemptIsGood count max_tokens (gave_up r) = Unit
  AttemptIsGood count max_tokens (finished out r) = IsGood count max_tokens out r
  AttemptIsGood count max_tokens (failed e r) = Unit

  module _ (count : TokenCounter T) (max_tokens : ℕ) (fits : end ≤ length history) where
    abbrev joined_at : ℕ → List T → List T
    joined_at b summary = join_segments (take end history) summary (drop b history)

    pub end-le-joined : (b : ℕ) (summary : List T) → end ≤ length (joined_at b summary)
    end-le-joined b summary = omega (
      arith,
      length-append (take end history ++ summary) (drop b history),
      length-append (take end history) summary,
      length-take end history,
    )

    cut_summary-IsGood :
        (b : ℕ) (summary : List T) (report : Report)
        → IsSafe insp history end b
        → is_valid_summary insp summary ≡ true
        → AttemptIsGood count max_tokens
            (cut_summary insp count history end summary (joined_at b summary) max_tokens report)
    unfolding cut_summary
    cut_summary-IsGood b summary report safe valid =
        let joined = joined_at b summary in
        let bs = compute_safe_boundaries insp joined end in
        elim (Result-cases
          (find_mechanical_boundary count joined (take end history) max_tokens bs)) [
            | inr (e, bad) ↦ rw (bad, cut_summary) tt
            | inl ((c, toks), found) ↦
                let first =
                  find_mechanical_boundary-first count joined (take end history) max_tokens bs c
                    toks found in
                rw (found, cut_summary)
                  (record {
                    shape =
                        cut_after_summary b c summary safe valid
                          (IsFirstFit-All count joined (take end history) max_tokens
                            (IsSafe insp joined end) bs first
                            (compute_safe_boundaries-IsSafe insp joined end
                              (end-le-joined b summary)))
                          refl;
                    counted = first.fits.counted;
                    within = first.fits.within;
                  })
          ]

    join_summary-IsGood :
        (b : ℕ) (summary : List T) (report : Report)
        → IsSafe insp history end b
        → is_valid_summary insp summary ≡ true
        → AttemptIsGood count max_tokens
            (join_summary insp count history end b max_tokens summary report)
    unfolding join_summary
    join_summary-IsGood b summary report safe valid =
        elim (Result-cases (count (joined_at b summary))) [
          | inr (e, bad) ↦ rw (bad, join_summary) tt
          | inl (toks, counted) ↦ elim (Bool-cases (leb toks max_tokens)) [
            | inl small ↦
                rw (counted, join_summary)
                  (rw small (record {
                    shape = summarised b summary safe valid refl;
                    counted = counted;
                    within = leb→le toks max_tokens small;
                  }))
            | inr large ↦
                rw (counted, join_summary)
                  (rw large (cut_summary-IsGood b summary report safe valid))
          ]
        ]

    try_summary_truncation-IsGood :
        (summarize : Summarizer T) (b : ℕ) (report : Report)
        → IsSafe insp history end b
        → AttemptIsGood count max_tokens
            (try_summary_truncation insp count summarize history end b max_tokens report)
    unfolding try_summary_truncation
    try_summary_truncation-IsGood summarize b report safe =
        elim (Result-cases (summarize (drop end (take b history)))) [
          | inr (e, bad) ↦ rw (bad, try_summary_truncation) tt
          | inl (summary, made) ↦ elim (Bool-cases (is_valid_summary insp summary)) [
            | inl valid ↦
                rw (made, try_summary_truncation)
                  (rw valid (join_summary-IsGood b summary report safe valid))
            | inr bad ↦ rw (made, try_summary_truncation) (rw bad tt)
          ]
        ]

    -- What a conclusion needs of the attempt and of the mechanical boundary.
    conclude-IsGood :
        (b toks : ℕ)
        → IsSafe insp history end b
        → Fits count history (take end history) max_tokens b toks
        → (a : Attempt T) → AttemptIsGood count max_tokens a
        → let t = conclude history end b toks a in
          t.error ≡ none → IsGood count max_tokens t.out t.report
    unfolding mechanical
    conclude-IsGood b toks safe f (gave_up r) good done = record {
      shape = dropped b safe refl;
      counted = f.counted;
      within = f.within;
    }
    conclude-IsGood b toks safe f (finished out r) good done = good
    conclude-IsGood b toks safe f (failed e r) good done = cc

    truncate_at-IsGood :
        (summarize : Summarizer T) (min_recent : ℕ) (report : Report)
        → let t = truncate_at insp count summarize history end max_tokens min_recent report in
          t.error ≡ none → IsGood count max_tokens t.out t.report
    unfolding truncate_at
    truncate_at-IsGood summarize min_recent report =
        let bs = compute_safe_boundaries insp history end in
        let pre = take end history in
        let all_safe = compute_safe_boundaries-IsSafe insp history end fits in
        let here : IsSafe insp history end end = inr (0, omega arith, fits, λ id named. refl) in
        let boundary = choose_summary_boundary bs end (length history) min_recent in
        let boundary_safe : IsSafe insp history end boundary =
          choose_summary_boundary-All (IsSafe insp history end) end bs (length history) min_recent
            here all_safe in
        elim (Result-cases (find_mechanical_boundary count history pre max_tokens bs)) [
          | inr (e, bad) ↦ rw (bad, truncate_at) (λ done. cc)
          | inl ((b, toks), found) ↦
              let first =
                find_mechanical_boundary-first count history pre max_tokens bs b toks found in
              rw (found, truncate_at)
                (conclude-IsGood b toks
                  (IsFirstFit-All count history pre max_tokens (IsSafe insp history end) bs first
                    all_safe)
                  first.fits _
                  (pick (ltb end boundary) _
                    (try_summary_truncation-IsGood summarize boundary report boundary_safe)))
        ]
      where
        pick :
            (c : Bool) (a : Attempt T)
            → AttemptIsGood count max_tokens a
            → AttemptIsGood count max_tokens (if c then a else gave_up report)
        pick true a h = h
        pick false a h = tt

-- The end of the leading system messages, `protectedEnd`.
abbrev pub prefix_end : {T : Type 0} → Inspector T → List T → ℕ
prefix_end insp history = leading_system_prefix_len insp history

module _ {T : Type 0} (history : List T) (k : ℕ) (count : TokenCounter T) (summarize : Summarizer T)
    (insp : Inspector T) (min_recent : ℕ) where
  abbrev run : Truncated T
  run =
      apply_semantic_truncation history (suc k) (some count) (some summarize) (some insp) min_recent

  truncate_counted-IsGood :
      (before : ℕ)
      → count history ≡ ok before
      → let t = truncate_counted insp count summarize history (suc k) min_recent before in
        t.error ≡ none → IsGood insp history (prefix_end insp history) count (suc k) t.out t.report
  unfolding truncate_counted
  truncate_counted-IsGood before counted = elim (Bool-cases (leb before (suc k))) [
    | inl small ↦ rw small (λ done. record {
      shape = unchanged refl;
      counted = counted;
      within = leb→le before (suc k) small;
    })
    | inr large ↦ rw large (elim (Result-cases (count (take (prefix_end insp history) history))) [
      | inr (e, bad) ↦ rw (bad, truncate_counted) (λ done. cc)
      | inl (toks, prefixed) ↦ elim (Bool-cases (ltb (suc k) toks)) [
        | inl over ↦ rw (prefixed, truncate_counted) (rw over (λ done. cc))
        | inr fits ↦
            rw (prefixed, truncate_counted)
              (rw fits (
                truncate_at-IsGood insp history (prefix_end insp history) count (suc k)
                  (leading_system_prefix_len-le insp history) summarize min_recent _))
      ]
    ])
  ]

  -- A history that `ApplySemanticTruncation` returns without an error has at most `maxTokens`
  -- tokens by the counter, and the report states how many; it is the history itself, or the
  -- leading system messages with the rest cut at a safe boundary, with or without a summary.
  pub apply_semantic_truncation-IsGood :
      let t = run in
      t.error ≡ none → IsGood insp history (prefix_end insp history) count (suc k) t.out t.report
  unfolding apply_semantic_truncation
  apply_semantic_truncation-IsGood = elim (Result-cases (count history)) [
    | inr (e, bad) ↦ rw (bad, apply_semantic_truncation) (λ done. cc)
    | inl (before, counted) ↦
        rw (counted, apply_semantic_truncation) (truncate_counted-IsGood before counted)
  ]
