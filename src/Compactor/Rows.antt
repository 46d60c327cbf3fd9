-- ===== src/Compactor/Rows.antt =====
-- What of a frame, and of its persisted row, the model's history shows: projectFrameToEntry and
-- projectRowToEntry of pkg/extension/compactor/history.go. The prompt templates are arguments.
use hugen.Prelude.{ℕ, Bool, false, Option, none, some, List, [], ◌∷◌, ◌++◌, reverse, if◌then◌else◌}
use hugen.Prelude.Text.{Text, codes, text_eq, has_prefix}
use hugen.Prelude.Maps.{lookup}
use hugen.Compactor.{user, assistant, tool, ToolCall, HistoryEntry}
use hugen.Compactor.History.{blank}
use hugen.Compactor.Frames.{
  ToolValue, nil, string, bytes, json, Payload, user_message, agent_message, tool_result,
  system_message, subagent_result, extension_frame, other_frame, Kind, kind_user, kind_agent,
  kind_tool_result, kind_system, kind_subagent_result, kind_extension, kind_other, CallValue,
  object, not_object, Metadata, EventRow,
}

-- The two templates, by the values they bind; `no_result` is `fmt.Sprintf` of the reason.
pub record Renderer : Type 0 where
  pub async_completed : Text → Text → Text → Text → Text → Text
  pub subagent_result : Text → Text → ℕ → Text → Text
  pub no_result : Text → Text

trim_newlines : Text → Text
trim_newlines [] = []
trim_newlines (c ∷ cs) =
    let rest = trim_newlines cs in if text_eq (c ∷ []) (codes "\n") then rest else c ∷ cs

-- `strings.TrimRight(s, "\n")`
unfoldable pub trim_right_newlines : Text → Text
unfolding trim_newlines
trim_right_newlines s = reverse (trim_newlines (reverse s))

unfoldable pub status_from_reason : Text → Text
status_from_reason reason =
    if text_eq reason (codes "completed")
    then codes "completed"
    else if text_eq reason (codes "hard_ceiling")
    then codes "hard_ceiling"
    else if text_eq reason (codes "cancel_cascade")
    then codes "cancel_cascade"
    else if has_prefix reason (codes "subagent_cancel: ")
    then codes "cancelled"
    else if has_prefix reason (codes "user_cancel: ")
    then codes "cancelled"
    else if has_prefix reason (codes "panic: ")
    then codes "panic"
    else reason

abbrev pub user_entry : ℕ → ℕ → Text → HistoryEntry
user_entry seq at text = record {
  seq = seq;
  timestamp = at;
  message = record (blank user) { content = text };
}

unfoldable pub stringify_tool_result : ToolValue → Text
stringify_tool_result nil = []
stringify_tool_result (string t) = t
stringify_tool_result (bytes t base64) = t
stringify_tool_result (json t) = t

-- The message of a subagent's result, none where it is silent.
unfoldable pub subagent_text : Renderer → Text → Text → ℕ → Text → Text → Text → Option Text
unfolding trim_right_newlines status_from_reason
subagent_text r child reason turns goal mode result =
    if text_eq mode (codes "silent")
    then none
    else if text_eq mode (codes "async_notify")
    then some (
        trim_right_newlines
          (r.async_completed child goal (status_from_reason reason) reason result))
    else some (
        codes "[system: subagent_result] "
        ++ trim_right_newlines (
            r.subagent_result child reason turns
              (if text_eq result [] then r.no_result reason else result)))

abbrev pub entry_of_text : ℕ → ℕ → Option Text → Option HistoryEntry
entry_of_text seq at none = none
entry_of_text seq at (some text) = some (user_entry seq at text)

abbrev pub assistant_entry : ℕ → ℕ → Text → List ToolCall → Text → Text → HistoryEntry
assistant_entry seq at text calls thinking signature = record {
  seq = seq;
  timestamp = at;
  message = record (blank assistant) {
    content = text;
    tool_calls = calls;
    thinking = thinking;
    thought_signature = signature;
  };
}

abbrev tool_entry : ℕ → ℕ → Text → Text → HistoryEntry
tool_entry seq at id text = record {
  seq = seq;
  timestamp = at;
  message = record (blank tool) { tool_call_id = id; content = text };
}

abbrev pub system_text : Text → Text → Text
system_text kind content = codes "[system: " ++ (kind ++ (codes "] " ++ content))

-- By the payload, with the number and the time of its frame.
unfoldable pub project_frame_to_entry : Renderer → ℕ → ℕ → Payload → Option HistoryEntry
unfolding stringify_tool_result subagent_text
project_frame_to_entry r seq at (user_message t) = some (user_entry seq at t)
project_frame_to_entry r seq at (agent_message a) =
    if a.consolidated
    then some (assistant_entry seq at a.text a.tool_calls a.thinking a.thought_signature)
    else none
project_frame_to_entry r seq at (tool_result id v) =
    some (tool_entry seq at id (stringify_tool_result v))
project_frame_to_entry r seq at (system_message k t) = some (user_entry seq at (system_text k t))
project_frame_to_entry r seq at (subagent_result s) =
    entry_of_text seq at
      (subagent_text r s.session_id s.reason s.turns_used s.goal s.render_mode s.result)
project_frame_to_entry r seq at (extension_frame e op t d) = none
project_frame_to_entry r seq at (other_frame k t) = none

abbrev pub or_empty : Option Text → Text
or_empty none = []
or_empty (some t) = t

unfoldable pub metadata_string : Text → Metadata → Text
unfolding lookup
metadata_string key m = or_empty (lookup key m.strings)

unfoldable pub metadata_bool : Text → Metadata → Bool
unfolding lookup
metadata_bool key m = elim (lookup key m.bools) [ none ↦ false | some b ↦ b ]

unfoldable pub metadata_int : Text → Metadata → ℕ
unfolding lookup
metadata_int key m = elim (lookup key m.ints) [ none ↦ 0 | some n ↦ n ]

unfoldable pub decode_tool_calls : List CallValue → List ToolCall
unfolding lookup
decode_tool_calls [] = []
decode_tool_calls (object strings args ∷ rest) =
    record {
      id = or_empty (lookup (codes "tool_id") strings);
      name = or_empty (lookup (codes "name") strings);
      args = args;
    }
    ∷ decode_tool_calls rest
decode_tool_calls (not_object ∷ rest) = decode_tool_calls rest

abbrev pub first_of : Text → Text → Text
first_of a b = if text_eq a [] then b else a

-- By the kind of the row.
unfoldable pub project_row : Renderer → Kind → EventRow → Option HistoryEntry
unfolding metadata_string metadata_bool metadata_int decode_tool_calls subagent_text
project_row r kind_user row = some (user_entry row.seq row.created_at row.content)
project_row r kind_agent row =
    if metadata_bool (codes "consolidated") row.metadata
    then some (
        assistant_entry row.seq row.created_at row.content
          (decode_tool_calls row.metadata.tool_calls)
          (metadata_string (codes "thinking") row.metadata)
          (metadata_string (codes "thought_signature") row.metadata))
    else none
project_row r kind_tool_result row = some (
    tool_entry row.seq row.created_at (metadata_string (codes "tool_id") row.metadata)
      (first_of row.tool_result row.content))
project_row r kind_system row = some (
    user_entry row.seq row.created_at (
      system_text (first_of (metadata_string (codes "kind") row.metadata) (codes "system"))
        row.content))
project_row r kind_subagent_result row = entry_of_text row.seq row.created_at (
    subagent_text r (metadata_string (codes "session_id") row.metadata)
      (metadata_string (codes "reason") row.metadata)
      (metadata_int (codes "turns_used") row.metadata) (metadata_string (codes "goal") row.metadata)
      (metadata_string (codes "render_mode") row.metadata)
      (first_of row.content (metadata_string (codes "result") row.metadata)))
project_row r kind_extension row = none
project_row r (kind_other k) row = none

unfoldable pub project_row_to_entry : Renderer → EventRow → Option HistoryEntry
unfolding project_row
project_row_to_entry r row = project_row r row.event_type row
