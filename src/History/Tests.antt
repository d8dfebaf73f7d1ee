-- ===== src/History/Tests.antt =====
-- The theorems about history truncation at a small conversation.
use toolsy.Prelude.{String, ◌≡◌, refl, true, false, List, [], ◌∷◌, arith, length, none, some, All}
use toolsy.Errors.{ok}
use toolsy.History.{
  Inspector, TokenCounter, Summarizer, apply_semantic_truncation, compute_safe_boundaries,
  choose_summary_boundary, find_mechanical_boundary, leading_system_prefix_len, register_id,
  consume_id, register_open_tool_call_ids, consume_open_tool_call_ids, track, scan_boundaries,
  last_or, best_up_to, last_above, is_valid_summary, join_summary, try_summary_truncation,
  truncate_at, truncate_counted,
}
use toolsy.History.Boundaries.{IsSafe, compute_safe_boundaries-IsSafe}
use toolsy.History.Choice.{IsTotal}
use toolsy.History.Truncation.{IsGood, prefix_end, apply_semantic_truncation-IsGood}
use toolsy.History.Success.{apply_semantic_truncation-succeeds}

data Message : Type 0 where
  system user : Message
  call result : String → Message

abbrev inspector : Inspector Message
inspector = record {
  is_system = elim [ system ↦ true | user ↦ false | call id ↦ false | result id ↦ false ];
  is_tool_call = elim [ system ↦ false | user ↦ false | call id ↦ true | result id ↦ false ];
  is_tool_result = elim [ system ↦ false | user ↦ false | call id ↦ false | result id ↦ true ];
  tool_call_ids = elim [ system ↦ [] | user ↦ [] | call id ↦ id ∷ [] | result id ↦ id ∷ [] ];
}

-- One token for each message.
abbrev counter : TokenCounter Message
counter l = ok (length l)

abbrev summarizer : Summarizer Message
summarizer l = ok (user ∷ [])

abbrev chat : List Message
chat = system ∷ user ∷ call "a" ∷ call "b" ∷ result "a" ∷ result "b" ∷ user ∷ []

boundaries_of_chat : compute_safe_boundaries inspector chat 1 ≡ 1 ∷ 2 ∷ 6 ∷ 7 ∷ []
unfolding compute_safe_boundaries scan_boundaries track register_open_tool_call_ids
    consume_open_tool_call_ids register_id consume_id last_or
boundaries_of_chat = refl

compute_safe_boundaries-IsSafe_example :
    All (IsSafe inspector chat 1) (compute_safe_boundaries inspector chat 1)
compute_safe_boundaries-IsSafe_example =
    compute_safe_boundaries-IsSafe inspector chat 1 (omega arith)

counter-IsTotal : IsTotal counter
counter-IsTotal l = (length l, refl)

apply_semantic_truncation-succeeds_example :
    (apply_semantic_truncation chat 4 (some counter) (some summarizer) (some inspector) 1).error
    ≡ none
unfolding leading_system_prefix_len
apply_semantic_truncation-succeeds_example =
    apply_semantic_truncation-succeeds chat 3 counter summarizer inspector 1 counter-IsTotal {p = 1}
      refl (omega arith)

apply_semantic_truncation-IsGood_example :
    let t = apply_semantic_truncation chat 4 (some counter) (some summarizer) (some inspector) 1 in
    IsGood inspector chat (prefix_end inspector chat) counter 4 t.out t.report
apply_semantic_truncation-IsGood_example =
    apply_semantic_truncation-IsGood chat 3 counter summarizer inspector 1
      apply_semantic_truncation-succeeds_example

-- The call and its result were summarised together.
truncated_chat :
    (apply_semantic_truncation chat 4 (some counter) (some summarizer) (some inspector) 1).out
    ≡ system ∷ user ∷ user ∷ []
unfolding apply_semantic_truncation truncate_counted truncate_at try_summary_truncation join_summary
    compute_safe_boundaries scan_boundaries track register_open_tool_call_ids
    consume_open_tool_call_ids register_id consume_id last_or choose_summary_boundary best_up_to
    last_above find_mechanical_boundary is_valid_summary leading_system_prefix_len
truncated_chat = refl
