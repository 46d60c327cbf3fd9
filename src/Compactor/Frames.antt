-- ===== src/Compactor/Frames.antt =====
-- Frames and their persisted rows: the kinds of pkg/protocol/frame.go that reach the compactor,
-- Validate, FrameToEventRow of pkg/session/store/store.go. The metadata, which is what JSON makes of
-- the payload, is kept as one map for each type of value; the JSON text of a value stands for it.
use hugen.Prelude.{
  ℕ, ◌==◌, Bool, true, not, ◌&&◌, Option, none, some, List, [], ◌∷◌, ◌++◌, map, if◌then◌else◌,
}
use hugen.Prelude.Text.{Text, codes, text_eq}
use hugen.Compactor.{ToolCall}
use hugen.Compactor.Digests.{Digest}

pub record AgentMessage : Type 0 where
  pub text : Text
  pub final : Bool
  pub consolidated : Bool
  pub tool_calls : List ToolCall
  pub thinking : Text
  pub thought_signature : Text

pub record SubagentResult : Type 0 where
  pub session_id : Text
  pub result : Text
  pub reason : Text
  pub turns_used : ℕ
  pub goal : Text
  pub render_mode : Text

-- The result of a tool: nil, a string, a []byte with its base64, or another value by its JSON.
pub data ToolValue : Type 0 where
  nil : ToolValue
  string : Text → ToolValue
  bytes : Text → Text → ToolValue
  json : Text → ToolValue

-- `protocol.Kind`: the kinds that the compactor projects, and any other.
pub data Kind : Type 0 where
  kind_user kind_agent kind_tool_result kind_system kind_subagent_result kind_extension : Kind
  kind_other : Text → Kind

-- `extension_frame` has the extension, the op, the field `text` of the data, and what decodeDigest
-- makes of the data; a frame of another kind has its kind and the row's content.
pub data Payload : Type 0 where
  user_message : Text → Payload
  agent_message : AgentMessage → Payload
  tool_result : Text → ToolValue → Payload
  system_message : Text → Text → Payload
  subagent_result : SubagentResult → Payload
  extension_frame : Text → Text → Text → Option Digest → Payload
  other_frame : Text → Text → Payload

-- What comes of emitting a frame: the session is closed; the store gives no number or does not append
-- the row; the row is persisted and observed, but the outbox is closed or the context ends; or no error.
pub data Fate : Type 0 where
  closed not_numbered not_appended unreported delivered : Fate

-- A frame and, in `fate`, what the store and the outbox make of its emission.
pub record Frame : Type 0 where
  pub id : Text
  pub session : Text
  pub author_id : Text
  pub author_kind : Text
  pub occurred_at : ℕ
  pub payload : Payload
  pub fate : Fate

abbrev pub kind_of : Payload → Kind
kind_of (user_message t) = kind_user
kind_of (agent_message a) = kind_agent
kind_of (tool_result id v) = kind_tool_result
kind_of (system_message k t) = kind_system
kind_of (subagent_result r) = kind_subagent_result
kind_of (extension_frame e op t d) = kind_extension
kind_of (other_frame k t) = kind_other k

abbrev pub has_text : Text → Bool
has_text t = not (text_eq t [])

-- Validate, on the kinds that are modelled.
abbrev pub valid_payload : Payload → Bool
valid_payload (user_message t) = true
valid_payload (agent_message a) = true
valid_payload (tool_result id v) = true
valid_payload (system_message k t) = has_text k
valid_payload (subagent_result r) = has_text r.session_id && has_text r.reason
valid_payload (extension_frame e op t d) = true
valid_payload (other_frame k t) = has_text k

unfoldable pub validate : Frame → Bool
validate f =
    has_text f.session
    && has_text f.id
    && not (f.occurred_at == 0)
    && has_text f.author_id
    && has_text f.author_kind
    && valid_payload f.payload

-- An element of the array `tool_calls`.
pub data CallValue : Type 0 where
  object : List (Text × Text) → Option Text → CallValue
  not_object : CallValue

-- The values of a row's metadata by their type; `digest` is what decodeDigest makes of `data`.
pub record Metadata : Type 0 where
  pub strings : List (Text × Text)
  pub bools : List (Text × Bool)
  pub ints : List (Text × ℕ)
  pub tool_calls : List CallValue
  pub digest : Option Digest

abbrev pub no_metadata : Metadata
no_metadata = record { strings = []; bools = []; ints = []; tool_calls = []; digest = none }

-- An `omitempty` string.
abbrev pub optional : Text → Text → List (Text × Text)
optional key v = if text_eq v [] then [] else (key, v) ∷ []

abbrev pub call_value : ToolCall → CallValue
call_value c = object ((codes "tool_id", c.id) ∷ (codes "name", c.name) ∷ []) c.args

abbrev pub value_text : ToolValue → Text
value_text nil = []
value_text (string t) = t
value_text (bytes t base64) = 34 ∷ (base64 ++ 34 ∷ [])
value_text (json t) = t

unfoldable pub metadata_of : Payload → Metadata
metadata_of (user_message t) = record no_metadata { strings = (codes "text", t) ∷ [] }
metadata_of (agent_message a) = record no_metadata {
  strings =
      (codes "text", a.text)
      ∷ (optional (codes "thinking") a.thinking
          ++ optional (codes "thought_signature") a.thought_signature);
  bools =
      (codes "final", a.final) ∷ (if a.consolidated then (codes "consolidated", true) ∷ [] else []);
  tool_calls = map call_value a.tool_calls;
}
metadata_of (tool_result id v) = record no_metadata {
  strings = (codes "tool_id", id) ∷ elim v [
    | nil ↦ []
    | string t ↦ (codes "result", t) ∷ []
    | bytes t base64 ↦ (codes "result", base64) ∷ []
    | json t ↦ []
  ];
}
metadata_of (system_message k t) = record no_metadata {
  strings = (codes "kind", k) ∷ (codes "content", t) ∷ [];
}
metadata_of (subagent_result r) = record no_metadata {
  strings =
      (codes "session_id", r.session_id)
      ∷ (optional (codes "result") r.result
          ++ ((codes "reason", r.reason)
              ∷ (optional (codes "goal") r.goal ++ optional (codes "render_mode") r.render_mode)));
  ints = (codes "turns_used", r.turns_used) ∷ [];
}
metadata_of (extension_frame e op t d) = record no_metadata {
  strings = (codes "extension", e) ∷ (codes "op", op) ∷ [];
  digest = d;
}
metadata_of (other_frame k t) = no_metadata

pub record EventRow : Type 0 where
  pub id : Text
  pub seq : ℕ
  pub event_type : Kind
  pub author : Text
  pub content : Text
  pub tool_result : Text
  pub metadata : Metadata
  pub created_at : ℕ

abbrev content_of : Payload → Text
content_of (user_message t) = t
content_of (agent_message a) = a.text
content_of (tool_result id v) = []
content_of (system_message k t) = t
content_of (subagent_result r) = r.result
content_of (extension_frame e op t d) = t
content_of (other_frame k t) = t

abbrev tool_result_of : Payload → Text
tool_result_of (tool_result id v) = value_text v
tool_result_of (user_message t) = []
tool_result_of (agent_message a) = []
tool_result_of (system_message k t) = []
tool_result_of (subagent_result r) = []
tool_result_of (extension_frame e op t d) = []
tool_result_of (other_frame k t) = []

abbrev pub row_of : ℕ → Frame → Payload → EventRow
row_of seq f p = record {
  id = f.id;
  seq = seq;
  event_type = kind_of p;
  author = f.author_id;
  content = content_of p;
  tool_result = tool_result_of p;
  metadata = metadata_of p;
  created_at = f.occurred_at;
}

-- FrameToEventRow, with the number that `emit` stamps; none where the frame is not valid.
unfoldable pub frame_to_event_row : ℕ → Frame → Option EventRow
unfolding validate metadata_of
frame_to_event_row seq f = if validate f then some (row_of seq f f.payload) else none
