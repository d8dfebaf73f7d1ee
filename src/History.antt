-- ===== src/History.antt =====
-- history/semantic_truncation.go: a chat history is cut to a token budget, old messages being
-- summarised or dropped, and never between a tool call and its result.
--
-- `TokenCounter`, `ContextSummarizer` and `MessageInspector` are implemented by the host: they are
-- functions here, with an error as a value. The context is not modelled: it is only passed on.
mod Cuts
unfoldable pub use Cuts.*
pub mod Boundaries
pub mod Choice
pub mod Truncation
pub mod Success
mod Tests
use toolsy.Prelude.{
  ℕ, zero, suc, ◌+◌, ◌-◌, max, String, Bool, true, false, not, ◌&&◌, ◌||◌, Option, none, some, List,
  [], ◌∷◌, ◌++◌, length, take, drop, is_empty, ltb, leb, ◌==◌, str_eq, if◌then◌else◌,
}
use toolsy.Errors.{GoError, message, wrap, lit, Result, ok, err}

-- What `trySummaryTruncation` returns, with the report as it left it.
pub data Attempt (T : Type 0) : Type 0 where
  gave_up : Report → Attempt T
  finished : List T → Report → Attempt T
  failed : GoError → Report → Attempt T

-- What the package function returns beside the error.
pub record Truncated (T : Type 0) : Type 0 where
  pub out : List T
  pub report : Report
  pub error : Option GoError

module _ {T : Type 0} where
  -- `&a[0] == &b[0]` for a slice `b` that was allocated afresh: only two empty slices are the same.
  abbrev pub same_slice_data : List T → List T → Bool
  same_slice_data a fresh = length a == length fresh && is_empty a

  abbrev fail_with : Report → GoError → Truncated T
  fail_with r e = record { out = []; report = r; error = some e }

  -- The summary was joined in and is still too long: cut the joined history mechanically.
  unfoldable pub cut_summary :
      Inspector T → TokenCounter T → List T → ℕ → List T → List T → ℕ → Report → Attempt T
  cut_summary insp count history protected_end summary joined max_tokens report =
      let pre = take protected_end history in
      elim (find_mechanical_boundary count joined pre max_tokens
        (compute_safe_boundaries insp joined protected_end)) [
          | err e ↦ failed e report
          | ok (b, toks) ↦
              let final = join_segments pre [] (drop b joined) in
              finished final (record report {
                applied = not (same_slice_data history final);
                summarization_applied =
                    not (is_empty summary)
                    && ltb b (protected_end + length summary)
                    && ltb protected_end (length final);
                mechanical_truncation_used = true;
                tokens_after = toks;
                messages_compressed_count = compressed_count (length history) (length final);
              })
        ]

  unfoldable pub join_summary :
      Inspector T → TokenCounter T → List T → ℕ → ℕ → ℕ → List T → Report → Attempt T
  join_summary insp count history protected_end boundary max_tokens summary report =
      let joined = join_segments (take protected_end history) summary (drop boundary history) in
      let cut = cut_summary insp count history protected_end summary joined max_tokens report in
      elim (count joined) [
        | err e ↦ failed (wrap (lit "toolsy/history: count summary output tokens" ∷ []) e) report
        | ok toks ↦
            if leb toks max_tokens
            then finished joined (record report {
              applied = not (same_slice_data history joined);
              summarization_applied = not (is_empty summary);
              tokens_after = toks;
              messages_compressed_count = compressed_count (length history) (length joined);
            })
            else cut
      ]

  unfoldable pub try_summary_truncation :
      Inspector T → TokenCounter T → Summarizer T → List T → ℕ → ℕ → ℕ → Report → Attempt T
  try_summary_truncation insp count summarize history protected_end boundary max_tokens report =
      let lost = record report { summarizer_failed = true; fallback_used = true } in
      elim (summarize (drop protected_end (take boundary history))) [
        | err e ↦ gave_up lost
        | ok summary ↦
            if is_valid_summary insp summary
            then join_summary insp count history protected_end boundary max_tokens summary report
            else gave_up lost
      ]

  -- The fallback: the history itself is cut at the boundary found before.
  unfoldable pub mechanical : List T → ℕ → ℕ → ℕ → Report → Truncated T
  mechanical history protected_end b toks report =
      let final = join_segments (take protected_end history) [] (drop b history) in
      record {
        out = final;
        report = record report {
          applied = not (same_slice_data history final);
          summarization_applied = false;
          mechanical_truncation_used = true;
          tokens_after = toks;
          messages_compressed_count = compressed_count (length history) (length final);
        };
        error = none;
      }

  abbrev pub conclude : List T → ℕ → ℕ → ℕ → Attempt T → Truncated T
  conclude history protected_end b toks (gave_up r) = mechanical history protected_end b toks r
  conclude history protected_end b toks (finished final r) = record {
    out = final;
    report = r;
    error = none;
  }
  conclude history protected_end b toks (failed e r) = fail_with r e

  -- From the boundaries on: the mechanical candidate is looked for first.
  unfoldable pub truncate_at :
      Inspector T → TokenCounter T → Summarizer T → List T → ℕ → ℕ → ℕ → Report → Truncated T
  truncate_at insp count summarize history protected_end max_tokens min_recent report =
      let bs = compute_safe_boundaries insp history protected_end in
      let boundary = choose_summary_boundary bs protected_end (length history) min_recent in
      let pre = take protected_end history in
      elim (find_mechanical_boundary count history pre max_tokens bs) [
        | err e ↦ fail_with report e
        | ok (b, toks) ↦ conclude history protected_end b toks (
            if ltb protected_end boundary
            then try_summary_truncation insp count summarize history protected_end boundary
                max_tokens report
            else gave_up report)
      ]

  unfoldable pub truncate_counted :
      Inspector T → TokenCounter T → Summarizer T → List T → ℕ → ℕ → ℕ → Truncated T
  truncate_counted insp count summarize history max_tokens min_recent before =
      let report = record empty_report { tokens_before = before; tokens_after = before } in
      let end = leading_system_prefix_len insp history in
      let go = truncate_at insp count summarize history end max_tokens min_recent report in
      let inspected : Truncated T = elim (count (take end history)) [
        | err e ↦
            fail_with report (wrap (lit "toolsy/history: count protected prefix tokens" ∷ []) e)
        | ok toks ↦
            if ltb max_tokens toks
            then fail_with report
                (message (lit "toolsy/history: protected system prefix exceeds maxTokens" ∷ []))
            else go
      ] in
      if leb before max_tokens
      then record { out = history; report = report; error = none }
      else inspected

  -- ApplySemanticTruncation; a nil argument is `none`, and a `maxTokens` below 1 is 0.
  unfoldable pub apply_semantic_truncation :
      List T
      → ℕ
      → Option (TokenCounter T)
      → Option (Summarizer T)
      → Option (Inspector T)
      → ℕ
      → Truncated T
  apply_semantic_truncation history zero count summarize insp min_recent =
      fail_with empty_report (message (lit "toolsy/history: maxTokens must be > 0" ∷ []))
  apply_semantic_truncation history (suc k) none summarize insp min_recent =
      fail_with empty_report (message (lit "toolsy/history: token counter is nil" ∷ []))
  apply_semantic_truncation history (suc k) (some count) none insp min_recent =
      fail_with empty_report (message (lit "toolsy/history: context summarizer is nil" ∷ []))
  apply_semantic_truncation history (suc k) (some count) (some summarize) none min_recent =
      fail_with empty_report (message (lit "toolsy/history: message inspector is nil" ∷ []))
  apply_semantic_truncation history (suc k) (some count) (some summarize) (some insp) min_recent =
      elim (count history) [
        | err e ↦
            fail_with empty_report
              (wrap (lit "toolsy/history: count tokens before truncation" ∷ []) e)
        | ok before ↦ truncate_counted insp count summarize history (suc k) min_recent before
      ]
