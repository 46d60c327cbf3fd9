-- ===== src/Compactor/Tests.antt =====
-- The compactor on short histories and on a short session.
use hugen.Prelude.{ℕ, ◌≡◌, refl, Bool, true, false, none, some, List, [], ◌∷◌, ◌++◌, arith}
use hugen.Prelude.Text.{Text, codes, text_eq, trim_space}
use hugen.Mission.Criteria.Types.{itoa, digits_loop}
use hugen.Compactor.{
  user, assistant, tool, ToolCall, Message, HistoryEntry, Checkpoint, CompactorState,
  snap_to_pair_safe_head, first_user_message, prune_window,
}
use hugen.Compactor.Checkpoints.{find_checkpoint, set_checkpoint_hidden, rollback_from}
use hugen.Compactor.Digests.{Config, new_cutoff}
use hugen.Compactor.Frames.{
  string, Payload, AgentMessage, agent_message, user_message, tool_result, Frame, delivered,
  delivered,
}
use hugen.Compactor.Hiding.{is_visible, provide_history-expand, rollback_from-unpaired}
use hugen.Compactor.History.{
  Format, hidden_segment_note, stub_call, blank, messages, provide_history,
}
use hugen.Compactor.Pairs.{well_paired, exchanges, provide_history-paired}
use hugen.Compactor.Window.{prune_window-paired}
use hugen.Compactor.Rows.{Renderer, user_entry, assistant_entry}
use hugen.Compactor.Segments.Shown.{EndsWith}
use hugen.Compactor.Segments.Open.{Action, says, stamps, sheds, acts, open_segment-shown}
use hugen.Compactor.Recovery.{new_state}
use hugen.Compactor.Emission.{summarize, Strategy, Env}
use hugen.Compactor.Compaction.{Answers}
use hugen.Compactor.Restart.Run.{Event, emits, turn_ends, run}

abbrev call : Text → ToolCall
call id = record { id = id; name = codes "context:checkpoint"; args = none }

abbrev entry : ℕ → Message → HistoryEntry
entry seq m = record { seq = seq; timestamp = 1; message = m }

abbrev asks : Text → Message
asks id = record (blank assistant) { tool_calls = call id ∷ [] }

abbrev answers : Text → Message
answers id = record (blank tool) { tool_call_id = id; content = codes "done" }

abbrev brief : HistoryEntry
brief = entry 1 (record (blank user) { content = codes "fill in the report" })

abbrev checkpoint : Checkpoint
checkpoint = record {
  id = codes "cp-1";
  seq = 4;
  description = codes "read the devices";
  tokens = 7;
  hidden = true;
  note = [];
}

-- The brief, a call with its result, the call that makes the checkpoint, its result, more work.
abbrev entries : List HistoryEntry
entries =
    brief
    ∷ entry 2 (asks (codes "c1"))
    ∷ entry 3 (answers (codes "c1"))
    ∷ entry 4 (asks (codes "c2"))
    ∷ entry 5 (answers (codes "c2"))
    ∷ entry 6 (asks (codes "c3"))
    ∷ []

abbrev state : Bool → CompactorState
state hidden = record new_state {
  history = entries;
  checkpoints = record checkpoint { hidden = hidden } ∷ [];
  last_checkpoint_seq = 4;
  cp_counter = 1;
}

abbrev format : Format
format id body tokens = id ++ body

provide_history-paired_example :
    (well_paired [] (provide_history format (state true)).0 ≡ true)
    × (exchanges (provide_history format (state true)).0 ≡ exchanges (messages entries))
unfolding well_paired text_eq
provide_history-paired_example = provide_history-paired format (state true) refl

provide_history-expand_example :
    (provide_history format
      (set_checkpoint_hidden
        (codes "cp-1")
        false
        []
        (set_checkpoint_hidden (codes "cp-1") true (codes "brief") (state false)).1).1).0
    ≡ (provide_history format (state false)).0
unfolding is_visible text_eq
provide_history-expand_example =
    provide_history-expand format (codes "cp-1") (codes "brief") (state false) refl

rollback_from-unpaired_example :
    ((rollback_from (codes "cp-1") (state false)).1.history
      ≡ (brief ∷ entry 2 (asks (codes "c1")) ∷ entry 3 (answers (codes "c1")) ∷ [])
        ++ entry 4 (asks (codes "c2")) ∷ entry 6 (asks (codes "c3")) ∷ [])
    × (well_paired [] (messages (rollback_from (codes "cp-1") (state false)).1.history) ≡ false)
unfolding find_checkpoint text_eq
rollback_from-unpaired_example =
    rollback_from-unpaired (codes "cp-1") (record checkpoint { hidden = false }) (state false)
      (brief ∷ entry 2 (asks (codes "c1")) ∷ entry 3 (answers (codes "c1")) ∷ [])
      (entry 5 (answers (codes "c2")) ∷ []) (entry 4 (asks (codes "c2")))
      (entry 6 (asks (codes "c3"))) (call (codes "c2")) [] refl refl (omega arith) refl
      (omega arith) (omega arith) refl refl refl

-- The window's head moves back from the result to its call; the brief stays.
prune_window_test :
    prune_window 3 entries
    ≡ brief
      ∷ entry 4 (asks (codes "c2"))
      ∷ entry 5 (answers (codes "c2"))
      ∷ entry 6 (asks (codes "c3"))
      ∷ []
unfolding prune_window snap_to_pair_safe_head first_user_message
prune_window_test = refl

prune_window-paired_example : well_paired [] (messages (prune_window 3 entries)) ≡ true
unfolding well_paired text_eq
prune_window-paired_example = prune_window-paired 3 entries refl

abbrev renderer : Renderer
renderer = record {
  async_completed = λ id goal status reason summary. summary;
  subagent_result = λ id reason turns body. body;
  no_result = λ reason. reason;
}

abbrev config : Config
config = record {
  enabled = true;
  preserved_recent_turns = 1;
  min_turn_gap = 0;
  max_turns = 2;
  max_tokens = 0;
  digest_max_tokens = 0;
  kept_verbatim_max = 4;
}

abbrev env : Strategy → Env
env strategy = record {
  renderer = renderer;
  quote = λ t. t;
  decode_digest = λ d. some d;
  strategy = strategy;
  window_size = 2;
  config = config;
}

abbrev frame : Payload → Frame
frame p = record {
  id = codes "f";
  session = codes "s";
  author_id = codes "u";
  author_kind = codes "user";
  occurred_at = 1;
  payload = p;
  fate = delivered;
}

abbrev said : Event
said = emits (frame (user_message (codes "go on")))

abbrev result : Event
result = emits (frame (tool_result (codes "c1") (string (codes "42"))))

abbrev no_rows : Answers
no_rows = record {
  classify = λ rows. record { kept = []; tool_pairs = 1; inquiries = 0; refs = [] };
  summary = codes "read 42";
  collapse = none;
}

-- The newest first: the third turn's end compacts the first.
abbrev events : List Event
events = said ∷ turn_ends no_rows (frame (user_message [])) ∷ said ∷ said ∷ result ∷ said ∷ []

abbrev seqs_of : List HistoryEntry → List ℕ
seqs_of [] = []
seqs_of (e ∷ es) = e.seq ∷ seqs_of es

-- The compaction cuts before the second message from the end, where one turn is preserved.
cut_test : new_cutoff config (1 ∷ 3 ∷ 4 ∷ []) none ≡ some 2
unfolding new_cutoff
cut_test = refl

cut_made : seqs_of (run (env summarize) events).state.history ≡ 3 ∷ 4 ∷ 6 ∷ []
unfolding run text_eq
cut_made = refl

abbrev agent : List ToolCall → AgentMessage
agent calls = record {
  text = codes "ok";
  final = false;
  consolidated = true;
  tool_calls = calls;
  thinking = [];
  thought_signature = [];
}

-- The newest first: the segment of the checkpoint's call is hidden.
abbrev worked : List Action
worked =
    says (frame (user_message (codes "b")))
    ∷ sheds (codes "cp-1") (codes "read")
    ∷ says (frame (agent_message (agent [])))
    ∷ stamps (frame (user_message [])) (agent (call (codes "c1") ∷ [])) (codes "reading")
    ∷ says (frame (user_message (codes "a")))
    ∷ []

abbrev closed_part : List HistoryEntry
closed_part =
    user_entry 1 1 (codes "a")
    ∷ assistant_entry 2 1 (codes "ok") (call (codes "c1") ∷ []) [] []
    ∷ []

abbrev open_part : List HistoryEntry
open_part = assistant_entry 3 1 (codes "ok") [] [] [] ∷ user_entry 4 1 (codes "b") ∷ []

open_segment-shown_example :
    EndsWith open_part
      (provide_history format (acts (env summarize) (λ es note. none) worked).state).0
unfolding acts text_eq trim_space itoa digits_loop
open_segment-shown_example =
    open_segment-shown (env summarize) refl format (λ es note. none) worked closed_part open_part
      refl (omega arith, (omega arith, tt))

-- What is hidden is a stub behind its note.
shed_test :
    (provide_history format (acts (env summarize) (λ es note. none) worked).state).0
    ≡ messages (user_entry 1 1 (codes "a") ∷ [])
      ++ (record (blank user) { content = codes "cp-1read" }
          ∷ record (blank assistant) { tool_calls = stub_call (call (codes "c1")) ∷ [] }
          ∷ messages open_part)
unfolding acts provide_history text_eq trim_space itoa digits_loop hidden_segment_note
shed_test = refl
