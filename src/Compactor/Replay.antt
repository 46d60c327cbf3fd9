-- ===== src/Compactor/Replay.antt =====
-- A restart shows the model what it saw live: the two projections agree on every frame.
use hugen.Prelude.{
  ℕ, ◌≡◌, refl, ap, ap₂, ◌∙◌, inl, inr, true, Option, some, List, [], ◌∷◌, ◌++◌, map, Bool-cases,
  arith,
}
use hugen.Prelude.Text.{Text, codes, text_eq}
use hugen.Prelude.Maps.{lookup}
use hugen.Compactor.{ToolCall, HistoryEntry}
use hugen.Compactor.Frames.{
  AgentMessage, SubagentResult, ToolValue, nil, string, bytes, json, Payload, user_message,
  agent_message, tool_result, system_message, subagent_result, extension_frame, other_frame, Frame,
  call_value, optional, EventRow, validate, valid_payload, metadata_of, row_of, frame_to_event_row,
}
use hugen.Compactor.Rows.{
  Renderer, project_frame_to_entry, project_row_to_entry, metadata_string, metadata_bool,
  metadata_int, decode_tool_calls, or_empty, first_of, entry_of_text, subagent_text,
  assistant_entry,
}

decode-encode : (cs : List ToolCall) → decode_tool_calls (map call_value cs) ≡ cs
unfolding decode_tool_calls lookup text_eq
decode-encode [] = refl
decode-encode (c ∷ cs) = ap (λ (l : List ToolCall). c ∷ l) (decode-encode cs)

abbrev agent_strings : Text → Text → Text → List (Text × Text)
agent_strings t thinking signature =
    (codes "text", t)
    ∷ (optional (codes "thinking") thinking ++ optional (codes "thought_signature") signature)

thinking_kept :
    (t thinking signature : Text)
    → or_empty (lookup (codes "thinking") (agent_strings t thinking signature)) ≡ thinking
unfolding lookup text_eq
thinking_kept t [] [] = refl
thinking_kept t [] (c ∷ cs) = refl
thinking_kept t (c ∷ cs) signature = refl

signature_kept :
    (t thinking signature : Text)
    → or_empty (lookup (codes "thought_signature") (agent_strings t thinking signature)) ≡ signature
unfolding lookup text_eq
signature_kept t [] [] = refl
signature_kept t [] (c ∷ cs) = refl
signature_kept t (d ∷ ds) [] = refl
signature_kept t (d ∷ ds) (c ∷ cs) = refl

abbrev result_strings : SubagentResult → Text → Text → Text → List (Text × Text)
result_strings s result goal mode =
    (codes "session_id", s.session_id)
    ∷ (optional (codes "result") result
        ++ ((codes "reason", s.reason)
            ∷ (optional (codes "goal") goal ++ optional (codes "render_mode") mode)))

reason_kept :
    (s : SubagentResult) (result goal mode : Text)
    → or_empty (lookup (codes "reason") (result_strings s result goal mode)) ≡ s.reason
unfolding lookup text_eq
reason_kept s [] goal mode = refl
reason_kept s (c ∷ cs) goal mode = refl

goal_kept :
    (s : SubagentResult) (result goal mode : Text)
    → or_empty (lookup (codes "goal") (result_strings s result goal mode)) ≡ goal
unfolding lookup text_eq
goal_kept s [] [] [] = refl
goal_kept s [] [] (m ∷ ms) = refl
goal_kept s [] (g ∷ gs) mode = refl
goal_kept s (c ∷ cs) [] [] = refl
goal_kept s (c ∷ cs) [] (m ∷ ms) = refl
goal_kept s (c ∷ cs) (g ∷ gs) mode = refl

mode_kept :
    (s : SubagentResult) (result goal mode : Text)
    → or_empty (lookup (codes "render_mode") (result_strings s result goal mode)) ≡ mode
unfolding lookup text_eq
mode_kept s [] [] [] = refl
mode_kept s [] [] (m ∷ ms) = refl
mode_kept s [] (g ∷ gs) [] = refl
mode_kept s [] (g ∷ gs) (m ∷ ms) = refl
mode_kept s (c ∷ cs) [] [] = refl
mode_kept s (c ∷ cs) [] (m ∷ ms) = refl
mode_kept s (c ∷ cs) (g ∷ gs) [] = refl
mode_kept s (c ∷ cs) (g ∷ gs) (m ∷ ms) = refl

body_kept :
    (s : SubagentResult) (result goal mode : Text)
    → first_of result (or_empty (lookup (codes "result") (result_strings s result goal mode)))
      ≡ result
unfolding lookup text_eq
body_kept s [] [] [] = refl
body_kept s [] [] (m ∷ ms) = refl
body_kept s [] (g ∷ gs) [] = refl
body_kept s [] (g ∷ gs) (m ∷ ms) = refl
body_kept s (c ∷ cs) goal mode = refl

-- A []byte is shown as its text live, and as its JSON by the row.
abbrev pub IsPlainValue : ToolValue → Type 0
IsPlainValue nil = Unit
IsPlainValue (string t) = Unit
IsPlainValue (bytes t base64) = ⊥
IsPlainValue (json t) = Unit

abbrev pub IsPlain : Payload → Type 0
IsPlain (tool_result id v) = IsPlainValue v
IsPlain (user_message t) = Unit
IsPlain (agent_message a) = Unit
IsPlain (system_message k t) = Unit
IsPlain (subagent_result r) = Unit
IsPlain (extension_frame e op t d) = Unit
IsPlain (other_frame k t) = Unit

module _ (r : Renderer) (seq : ℕ) (f : Frame) where
  Agree : Payload → Type 0
  Agree p = project_row_to_entry r (row_of seq f p) ≡ project_frame_to_entry r seq f.occurred_at p

  Agree-agent : (a : AgentMessage) → Agree (agent_message a)
  unfolding Agree project_row_to_entry project_frame_to_entry metadata_of metadata_string
      metadata_bool lookup text_eq
  Agree-agent a = elim (Bool-cases a.consolidated) [
    | inr n ↦ rw n refl
    | inl y ↦
        rw (y, decode-encode a.tool_calls)
          (ap₂ (λ (x y : Text). some (assistant_entry seq f.occurred_at a.text a.tool_calls x y))
            (thinking_kept a.text a.thinking a.thought_signature)
            (signature_kept a.text a.thinking a.thought_signature))
  ]

  Agree-tool : (id : Text) (v : ToolValue) → IsPlainValue v → Agree (tool_result id v)
  unfolding Agree project_row_to_entry project_frame_to_entry metadata_of metadata_string lookup
      text_eq
  Agree-tool id nil h = refl
  Agree-tool id (string []) h = refl
  Agree-tool id (string (c ∷ t)) h = refl
  Agree-tool id (bytes t base64) h = absurd h
  Agree-tool id (json []) h = refl
  Agree-tool id (json (c ∷ t)) h = refl

  Agree-system :
      (k t : Text) → valid_payload (system_message k t) ≡ true → Agree (system_message k t)
  unfolding Agree project_row_to_entry project_frame_to_entry metadata_of metadata_string lookup
      text_eq
  Agree-system [] t h = cc
  Agree-system (c ∷ k) t h = refl

  Agree-subagent : (s : SubagentResult) → Agree (subagent_result s)
  unfolding Agree project_row_to_entry project_frame_to_entry metadata_of metadata_string
      metadata_int lookup text_eq
  Agree-subagent s =
      let g : Text → Text → Text → Text → Option HistoryEntry = λ reason goal mode body.
        entry_of_text seq f.occurred_at
          (subagent_text r s.session_id reason s.turns_used goal mode body) in
      let strings : List (Text × Text) = result_strings s s.result s.goal s.render_mode in
      let goal : Text = or_empty (lookup (codes "goal") strings) in
      let mode : Text = or_empty (lookup (codes "render_mode") strings) in
      let body : Text = first_of s.result (or_empty (lookup (codes "result") strings)) in
      ap (λ (x : Text). g x goal mode body) (reason_kept s s.result s.goal s.render_mode)
      ∙ ap (λ (x : Text). g s.reason x mode body) (goal_kept s s.result s.goal s.render_mode)
      ∙ ap (λ (x : Text). g s.reason s.goal x body) (mode_kept s s.result s.goal s.render_mode)
      ∙ ap (λ (x : Text). g s.reason s.goal s.render_mode x)
          (body_kept s s.result s.goal s.render_mode)

  agree : (p : Payload) → valid_payload p ≡ true → IsPlain p → Agree p
  unfolding Agree project_row_to_entry project_frame_to_entry metadata_of
  agree (user_message t) h n = refl
  agree (agent_message a) h n = Agree-agent a
  agree (tool_result id v) h n = Agree-tool id v n
  agree (system_message k t) h n = Agree-system k t h
  agree (subagent_result s) h n = Agree-subagent s
  agree (extension_frame e op t d) h n = refl
  agree (other_frame k t) h n = refl

valid-payload : (f : Frame) → validate f ≡ true → valid_payload f.payload ≡ true
unfolding validate
valid-payload f h = ground arith

-- The row that a frame is persisted as.
pub frame_row :
    (seq : ℕ) (f : Frame) (row : EventRow)
    → frame_to_event_row seq f ≡ some row
    → (validate f ≡ true) × (row ≡ row_of seq f f.payload)
unfolding frame_to_event_row
frame_row seq f row h = elim (Bool-cases (validate f)) [
  | inl v ↦ (v, (let g = rw v at h in cc))
  | inr v ↦ absurd (let g = rw v at h in cc)
]

-- Whenever a frame is persisted whose result is no []byte, what its row shows the model after a restart
-- is what the frame showed it live, nothing in the one case if nothing in the other.
pub project_row-project_frame :
    (r : Renderer) (seq : ℕ) (f : Frame) (row : EventRow)
    → frame_to_event_row seq f ≡ some row
    → IsPlain f.payload
    → project_row_to_entry r row ≡ project_frame_to_entry r seq f.occurred_at f.payload
unfolding Agree
project_row-project_frame r seq f row h n =
    let (v, e) = frame_row seq f row h in rw e (agree r seq f f.payload (valid-payload f v) n)
