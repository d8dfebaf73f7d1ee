-- ===== src/History/Cuts.antt =====
-- history/semantic_truncation.go: messages, the boundaries at which a history may be cut, and the choice of
-- one.
use toolsy.Prelude.{
  ℕ, suc, ◌+◌, ◌-◌, max, String, Bool, true, false, not, ◌&&◌, ◌||◌, List, [], ◌∷◌, ◌++◌, length,
  drop, is_empty, ltb, leb, ◌==◌, str_eq, if◌then◌else◌,
}
use toolsy.Errors.{message, wrap, lit, Result, ok, err}

pub record Inspector (T : Type 0) : Type 0 where
  pub is_system : T → Bool
  pub is_tool_call : T → Bool
  pub is_tool_result : T → Bool
  pub tool_call_ids : T → List String

abbrev pub TokenCounter : Type 0 → Type 0
TokenCounter T = List T → Result ℕ

abbrev pub Summarizer : Type 0 → Type 0
Summarizer T = List T → Result (List T)

pub record Report : Type 0 where
  pub applied : Bool
  pub summarization_applied : Bool
  pub mechanical_truncation_used : Bool
  pub fallback_used : Bool
  pub summarizer_failed : Bool
  pub tokens_before : ℕ
  pub tokens_after : ℕ
  pub messages_compressed_count : ℕ

abbrev pub empty_report : Report
empty_report = record {
  applied = false;
  summarization_applied = false;
  mechanical_truncation_used = false;
  fallback_used = false;
  summarizer_failed = false;
  tokens_before = 0;
  tokens_after = 0;
  messages_compressed_count = 0;
}

-- `idsOpen map[string]int`, an entry for each key.
abbrev pub OpenIds : Type 0
OpenIds = List (String × ℕ)

-- idsOpen[id]++
unfoldable pub register_id : OpenIds → String → OpenIds
register_id [] id = (id, 1) ∷ []
register_id ((k, n) ∷ m) id = if str_eq k id then (k, suc n) ∷ m else (k, n) ∷ register_id m id

-- One result: the count falls, and at one or less the entry goes.
unfoldable pub consume_id : OpenIds → String → OpenIds
consume_id [] id = []
consume_id ((k, n) ∷ m) id =
    if str_eq k id then (if leb n 1 then m else (k, n - 1) ∷ m) else (k, n) ∷ consume_id m id

unfoldable pub register_open_tool_call_ids : OpenIds → List String → OpenIds
register_open_tool_call_ids m [] = m
register_open_tool_call_ids m (id ∷ ids) =
    register_open_tool_call_ids (if str_eq id "" then m else register_id m id) ids

unfoldable pub consume_open_tool_call_ids : OpenIds → List String → OpenIds
consume_open_tool_call_ids m [] = m
consume_open_tool_call_ids m (id ∷ ids) =
    consume_open_tool_call_ids (if str_eq id "" then m else consume_id m id) ids

-- The last element of a list that starts with `b`.
unfoldable pub last_or : ℕ → List ℕ → ℕ
last_or b [] = b
last_or b (c ∷ cs) = last_or c cs

module _ {T : Type 0} where
  unfoldable pub leading_system_prefix_len : Inspector T → List T → ℕ
  leading_system_prefix_len insp [] = 0
  leading_system_prefix_len insp (m ∷ ms) =
      if insp.is_system m then suc (leading_system_prefix_len insp ms) else 0

  -- The body of the loop of `computeSafeBoundaries`.
  unfoldable pub track : Inspector T → OpenIds → T → OpenIds
  track insp open_ids msg =
      let ids = insp.tool_call_ids msg in
      let called =
        if insp.is_tool_call msg then register_open_tool_call_ids open_ids ids else open_ids in
      if insp.is_tool_result msg then consume_open_tool_call_ids called ids else called

  -- The loop from message `i` on: the boundaries that it appends.
  unfoldable pub scan_boundaries : Inspector T → ℕ → OpenIds → List T → List ℕ
  scan_boundaries insp i open_ids [] = []
  scan_boundaries insp i open_ids (msg ∷ rest) =
      let later = scan_boundaries insp (suc i) (track insp open_ids msg) rest in
      if is_empty (track insp open_ids msg) then suc i ∷ later else later

  unfoldable pub compute_safe_boundaries : Inspector T → List T → ℕ → List ℕ
  compute_safe_boundaries insp history protected_end =
      let start = if ltb (length history) protected_end then length history else protected_end in
      let later = scan_boundaries insp start [] (drop start history) in
      if last_or start later == length history
      then start ∷ later
      else (start ∷ later) ++ length history ∷ []

  abbrev pub join_segments : List T → List T → List T → List T
  join_segments pre mid suf = pre ++ mid ++ suf

  unfoldable pub find_mechanical_boundary :
      TokenCounter T → List T → List T → ℕ → List ℕ → Result (ℕ × ℕ)
  find_mechanical_boundary count history pre max_tokens [] =
      err
        (message (lit "toolsy/history: no boundary-safe truncation candidate fits maxTokens" ∷ []))
  find_mechanical_boundary count history pre max_tokens (b ∷ bs) =
      let later = find_mechanical_boundary count history pre max_tokens bs in
      elim (count (join_segments pre [] (drop b history))) [
        | err e ↦ err (wrap (lit "toolsy/history: count tokens for mechanical candidate" ∷ []) e)
        | ok toks ↦ if leb toks max_tokens then ok (b, toks) else later
      ]

  unfoldable pub no_tool_message : Inspector T → List T → Bool
  no_tool_message insp [] = true
  no_tool_message insp (m ∷ ms) =
      not (insp.is_tool_call m || insp.is_tool_result m) && no_tool_message insp ms

  unfoldable pub is_valid_summary : Inspector T → List T → Bool
  unfolding no_tool_message
  is_valid_summary insp summary = not (is_empty summary) && no_tool_message insp summary

-- The greatest boundary above the prefix and up to `target`, or the prefix's end.
unfoldable pub best_up_to : ℕ → ℕ → ℕ → List ℕ → ℕ
best_up_to protected_end target best [] = best
best_up_to protected_end target best (b ∷ bs) =
    best_up_to protected_end target
      (if leb b protected_end then best else if leb b target && ltb best b then b else best) bs

-- The last boundary above the prefix, or the prefix's end.
unfoldable pub last_above : ℕ → List ℕ → ℕ
last_above protected_end [] = protected_end
last_above protected_end (b ∷ bs) =
    let later = last_above protected_end bs in
    if ltb protected_end later then later else if ltb protected_end b then b else protected_end

unfoldable pub choose_summary_boundary : List ℕ → ℕ → ℕ → ℕ → ℕ
choose_summary_boundary bs protected_end total_len min_recent =
    let target = max (total_len - min_recent) (protected_end + 1) in
    let best = best_up_to protected_end target protected_end bs in
    if leb total_len protected_end
    then protected_end
    else if ltb protected_end best
    then best
    else last_above protected_end bs

abbrev pub compressed_count : ℕ → ℕ → ℕ
compressed_count before after = if ltb after before then before - after else 0
