-- ===== src/Compactor/Emission.antt =====
-- What the compactor does with a frame that a session emits: OnFrameEmit of
-- pkg/extension/compactor/frame_observer.go, with `emit` of pkg/session/session.go.
use hugen.Prelude.{
  ℕ, suc, ◌+◌, ltb, Bool, true, false, not, Option, none, some, List, [], ◌∷◌, ◌++◌, if◌then◌else◌,
}
use hugen.Prelude.Text.{Text}
use hugen.Compactor.{
  HistoryEntry, CompactorState, estimate_tokens, estimate_tool_result_tokens, prune_window,
}
use hugen.Compactor.Digests.{Config, Digest}
use hugen.Compactor.Frames.{
  ToolValue, nil, string, bytes, json, value_text, Fate, closed, not_numbered, not_appended,
  unreported, delivered, Payload, user_message, agent_message, tool_result, system_message,
  subagent_result, extension_frame, other_frame, Frame, EventRow, frame_to_event_row,
}
use hugen.Compactor.Rows.{Renderer, project_frame_to_entry}

pub data Strategy : Type 0 where
  off window summarize : Strategy

-- What does not change: the templates, the JSON of a string, what decodeDigest makes of the JSON of a
-- digest, and the resolved configuration.
pub record Env : Type 0 where
  pub renderer : Renderer
  pub quote : Text → Text
  pub decode_digest : Digest → Option Digest
  pub strategy : Strategy
  pub window_size : ℕ
  pub config : Config

pub record Session : Type 0 where
  pub log : List EventRow
  pub state : CompactorState

unfoldable pub append_boundary : ℕ → ℕ → CompactorState → CompactorState
append_boundary seq delta s = record s {
  user_message_seqs = if ltb 0 seq then s.user_message_seqs ++ seq ∷ [] else s.user_message_seqs;
  estimated_tokens = s.estimated_tokens + delta;
}

unfoldable pub add_tokens : ℕ → CompactorState → CompactorState
add_tokens delta s = record s { estimated_tokens = s.estimated_tokens + delta }

abbrev pub marshalled : Env → ToolValue → Option Text
marshalled env nil = none
marshalled env (string t) = some (env.quote t)
marshalled env (bytes t base64) = some (value_text (bytes t base64))
marshalled env (json j) = some j

-- The boundaries and the estimate.
unfoldable pub tracked : Env → ℕ → Payload → CompactorState → CompactorState
unfolding append_boundary add_tokens estimate_tokens estimate_tool_result_tokens
tracked env seq (user_message t) s = append_boundary seq (estimate_tokens t) s
tracked env seq (agent_message a) s =
    if a.consolidated then add_tokens (estimate_tokens a.text) s else s
tracked env seq (tool_result id v) s = add_tokens (estimate_tool_result_tokens (marshalled env v)) s
tracked env seq (system_message k t) s = s
tracked env seq (subagent_result r) s = s
tracked env seq (extension_frame e op t d) s = s
tracked env seq (other_frame k t) s = s

abbrev pub trim : Strategy → ℕ → List HistoryEntry → List HistoryEntry
trim off n es = es
trim summarize n es = es
trim window n es = prune_window n es

abbrev pub trimmed : Env → List HistoryEntry → List HistoryEntry
trimmed env es = trim env.strategy env.window_size es

abbrev pub with_entry : Env → Option HistoryEntry → CompactorState → CompactorState
with_entry env none s = s
with_entry env (some e) s = record s { history = trimmed env (s.history ++ e ∷ []) }

unfoldable pub on_frame_emit : Env → ℕ → Frame → CompactorState → CompactorState
unfolding tracked project_frame_to_entry prune_window
on_frame_emit env seq f s =
    with_entry env (project_frame_to_entry env.renderer seq f.occurred_at f.payload)
      (tracked env seq f.payload s)

abbrev pub is_streaming_chunk : Payload → Bool
is_streaming_chunk (agent_message a) = not a.consolidated
is_streaming_chunk (user_message t) = false
is_streaming_chunk (tool_result id v) = false
is_streaming_chunk (system_message k t) = false
is_streaming_chunk (subagent_result r) = false
is_streaming_chunk (extension_frame e op t d) = false
is_streaming_chunk (other_frame k t) = false

unfoldable pub max_seq : List EventRow → ℕ
max_seq [] = 0
max_seq (r ∷ rs) = let m = max_seq rs in if ltb m r.seq then r.seq else m

abbrev pub is_delivered : Fate → Bool
is_delivered delivered = true
is_delivered closed = false
is_delivered not_numbered = false
is_delivered not_appended = false
is_delivered unreported = false

abbrev pub is_closed : Fate → Bool
is_closed closed = true
is_closed not_numbered = false
is_closed not_appended = false
is_closed unreported = false
is_closed delivered = false

-- The store has the row.
abbrev pub is_stored : Fate → Bool
is_stored closed = false
is_stored not_numbered = false
is_stored not_appended = false
is_stored unreported = true
is_stored delivered = true

abbrev pub persisted : Env → Frame → Option EventRow → Session → Bool × Session
persisted env f none s = (false, s)
persisted env f (some row) s = (
  is_delivered f.fate,
  record { log = s.log ++ row ∷ []; state = on_frame_emit env row.seq f s.state },
)

-- `emit`; whether it gives no error. Streamed chunks only go to the outbox. An error after the row is
-- persisted and observed leaves both.
unfoldable pub emit : Env → Frame → Session → Bool × Session
unfolding on_frame_emit max_seq frame_to_event_row
emit env f s =
    if is_closed f.fate
    then (false, s)
    else if is_streaming_chunk f.payload
    then (is_delivered f.fate, s)
    else if is_stored f.fate
    then persisted env f (frame_to_event_row (suc (max_seq s.log)) f) s
    else (false, s)
