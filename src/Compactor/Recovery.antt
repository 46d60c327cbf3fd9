-- ===== src/Compactor/Recovery.antt =====
-- Recover (recovery.go) and the reset (commands.go) of pkg/extension/compactor, over a session's log.
use hugen.Prelude.{
  ℕ, Bool, take, ltb, leb, not, Option, none, some, List, [], ◌∷◌, ◌++◌, if◌then◌else◌,
}
use hugen.Prelude.Text.{codes, text_eq}
use hugen.Compactor.{HistoryEntry, CompactorState, estimate_tokens, prune_window}
use hugen.Compactor.Digests.{Digest, current_payload_version, cutoff_of}
use hugen.Compactor.Frames.{
  extension_frame, Frame, EventRow, kind_user, kind_agent, kind_tool_result, kind_system,
  kind_subagent_result, kind_extension, kind_other, Kind,
}
use hugen.Compactor.Rows.{project_row_to_entry, metadata_string, metadata_bool, first_of}
use hugen.Compactor.Emission.{Env, Session, append_boundary, add_tokens, trimmed, emit}
use hugen.Compactor.Compaction.{provider_name}

-- The compactor's own rows: a digest that is set, one that is cleared, and no such row.
pub data Op : Type 0 where
  sets : Digest → Op
  clears ignored : Op

abbrev pub op_of_digest : Option Digest → Op
op_of_digest none = ignored
op_of_digest (some d) = if ltb current_payload_version d.version then ignored else sets d

abbrev pub op_of_kind : Kind → EventRow → Op
op_of_kind kind_extension r =
    if not (text_eq (metadata_string (codes "extension") r.metadata) provider_name)
    then ignored
    else if text_eq (metadata_string (codes "op") r.metadata) (codes "digest_set")
    then op_of_digest r.metadata.digest
    else if text_eq (metadata_string (codes "op") r.metadata) (codes "digest_clear")
    then clears
    else ignored
op_of_kind kind_user r = ignored
op_of_kind kind_agent r = ignored
op_of_kind kind_tool_result r = ignored
op_of_kind kind_system r = ignored
op_of_kind kind_subagent_result r = ignored
op_of_kind (kind_other k) r = ignored

abbrev pub applied : Op → Option Digest → Option Digest
applied (sets d) latest = some d
applied clears latest = none
applied ignored latest = latest

-- The first pass.
unfoldable pub latest_from : Option Digest → List EventRow → Option Digest
unfolding metadata_string
latest_from latest [] = latest
latest_from latest (r ∷ rs) = latest_from (applied (op_of_kind r.event_type r) latest) rs

abbrev pub tracked_row : Kind → EventRow → CompactorState → CompactorState
tracked_row kind_user r s = append_boundary r.seq (estimate_tokens r.content) s
tracked_row kind_agent r s =
    if metadata_bool (codes "consolidated") r.metadata
    then add_tokens (estimate_tokens r.content) s
    else s
tracked_row kind_tool_result r s = add_tokens (estimate_tokens (first_of r.tool_result r.content)) s
tracked_row kind_system r s = s
tracked_row kind_subagent_result r s = s
tracked_row kind_extension r s = s
tracked_row (kind_other k) r s = s

abbrev pub added : Option HistoryEntry → List HistoryEntry → List HistoryEntry
added none es = es
added (some e) es = es ++ e ∷ []

-- The second pass, with the entries so far as the history.
unfoldable pub replayed : Env → ℕ → List EventRow → CompactorState → CompactorState
unfolding project_row_to_entry append_boundary add_tokens estimate_tokens metadata_bool
replayed env cutoff [] s = s
replayed env cutoff (r ∷ rs) s =
    let s' = tracked_row r.event_type r s in
    replayed env cutoff rs (record s' {
      history =
          if leb r.seq cutoff
          then s'.history
          else added (project_row_to_entry env.renderer r) s'.history;
    })

unfoldable pub recover : Env → List EventRow → CompactorState → CompactorState
unfolding latest_from replayed prune_window
recover env events s =
    let latest = latest_from none events in
    let s' =
      replayed env (cutoff_of latest) events
        (record s { user_message_seqs = []; estimated_tokens = 0; history = [] }) in
    record s' { digest = latest; history = trimmed env s'.history }

-- `materialise` of pkg/session/replay.go, where it recovers the compactor from the rows that ListEvents
-- gives without a limit of its own: the oldest 1000.
unfoldable pub restart : Env → List EventRow → CompactorState → CompactorState
unfolding recover
restart env log s = recover env (take 1000 log) s

-- The digest is dropped, and the state rebuilt from the oldest 100000 rows if the store lists them.
unfoldable pub rebuilt : Env → Bool → List EventRow → CompactorState → CompactorState
unfolding recover
rebuilt env listed log s =
    if listed
    then recover env (take 100000 log) (record s { digest = none })
    else record s { digest = none }

-- `/compactor reset`, whose frame has the envelope `f`; `listed` is whether the store then lists the
-- rows.
unfoldable pub reset : Env → Bool → Frame → Session → Session
unfolding emit rebuilt
reset env listed f s =
    let (sent, s') =
      emit env (record f { payload = extension_frame provider_name (codes "digest_clear") [] none })
        s in
    if sent then record s' { state = rebuilt env listed s'.log s'.state } else s'

abbrev pub new_state : CompactorState
new_state = record {
  digest = none;
  user_message_seqs = [];
  estimated_tokens = 0;
  history = [];
  checkpoints = [];
  last_checkpoint_seq = 0;
  cp_counter = 0;
  preamble_floor = none;
}

abbrev pub new_session : Session
new_session = record { log = []; state = new_state }
