-- ===== src/Compactor/Checkpoints.antt =====
-- The checkpoints of a turn: pkg/extension/compactor/checkpoints.go and the calls of
-- context_provider.go behind the decoding of their arguments. The summary of a segment is an argument.
use hugen.Prelude.{
  ℕ, suc, ◌+◌, ltb, leb, Bool, true, false, not, ◌&&◌, ◌||◌, Option, none, some, List, [], ◌∷◌,
  ◌++◌, if◌then◌else◌,
}
use hugen.Prelude.Text.{Text, codes, text_eq, trim_space}
use hugen.Mission.Criteria.Types.{itoa}
use hugen.Compactor.{
  HistoryEntry, Checkpoint, CompactorState, history_max_seq, segment_tokens, preamble_floor, max_of,
}

abbrev pub stamped : ℕ → ℕ → ℕ → Text → Checkpoint
stamped n head tokens description = record {
  id = codes "cp-" ++ itoa n;
  seq = head;
  description = description;
  tokens = tokens;
  hidden = false;
  note = [];
}

unfoldable pub add_checkpoint : Text → CompactorState → Checkpoint × CompactorState
unfolding history_max_seq segment_tokens
add_checkpoint description s =
    let (tokens, s') = segment_tokens s in
    let head = history_max_seq s.history in
    let cp = stamped (suc s'.cp_counter) head tokens description in
    (
      cp,
      record s' {
        cp_counter = suc s'.cp_counter;
        checkpoints = s'.checkpoints ++ cp ∷ [];
        last_checkpoint_seq = head;
      },
    )

-- The flag of one checkpoint, and the note where it is hidden with one.
abbrev pub marked : Bool → Text → Checkpoint → Checkpoint
marked hidden note cp = record cp {
  hidden = hidden;
  note = if hidden && not (text_eq note []) then note else cp.note;
}

unfoldable pub set_hidden :
    Text → Bool → Text → List Checkpoint → Option (Checkpoint × List Checkpoint)
set_hidden id hidden note [] = none
set_hidden id hidden note (cp ∷ cps) =
    if text_eq cp.id id
    then some (marked hidden note cp, marked hidden note cp ∷ cps)
    else elim (set_hidden id hidden note cps) [
      | none ↦ none
      | some (found, rest) ↦ some (found, cp ∷ rest)
    ]

unfoldable pub set_checkpoint_hidden :
    Text → Bool → Text → CompactorState → Option Checkpoint × CompactorState
unfolding set_hidden
set_checkpoint_hidden id hidden note s = elim (set_hidden id hidden note s.checkpoints) [
  | none ↦ (none, s)
  | some (cp, cps) ↦ (some cp, record s { checkpoints = cps })
]

unfoldable pub find_checkpoint : Text → List Checkpoint → Option Checkpoint
find_checkpoint id [] = none
find_checkpoint id (cp ∷ cps) = if text_eq cp.id id then some cp else find_checkpoint id cps

-- The window of the segment that the checkpoint closes.
unfoldable pub segment_of : Text → ℕ → List Checkpoint → Option (ℕ × ℕ)
segment_of id prev [] = none
segment_of id prev (cp ∷ cps) =
    if text_eq cp.id id then some (prev, cp.seq) else segment_of id cp.seq cps

unfoldable pub between : ℕ → ℕ → List HistoryEntry → List HistoryEntry
between low high [] = []
between low high (e ∷ es) =
    if ltb low e.seq && leb e.seq high then e ∷ between low high es else between low high es

unfoldable pub segment_entries : Text → CompactorState → List HistoryEntry × CompactorState
unfolding segment_of preamble_floor between
segment_entries id s = elim (segment_of id 0 s.checkpoints) [
  | none ↦ ([], s)
  | some (prev, seq) ↦
      (let (floor, s') = preamble_floor s.history s in
        (between (max_of prev floor) seq s.history, s'))
]

unfoldable pub hidden_segment_tokens : List Checkpoint → ℕ
hidden_segment_tokens [] = 0
hidden_segment_tokens (cp ∷ cps) = (if cp.hidden then cp.tokens else 0) + hidden_segment_tokens cps

-- The entries up to the checkpoint and from the head on, and how many are dropped.
unfoldable pub restored : ℕ → ℕ → List HistoryEntry → List HistoryEntry × ℕ
restored seq head [] = ([], 0)
restored seq head (e ∷ es) =
    let (kept, dropped) = restored seq head es in
    if leb e.seq seq || leb head e.seq then (e ∷ kept, dropped) else (kept, suc dropped)

unfoldable pub survivors : ℕ → List Checkpoint → List Checkpoint
survivors seq [] = []
survivors seq (cp ∷ cps) = if leb cp.seq seq then cp ∷ survivors seq cps else survivors seq cps

unfoldable pub rollback_from : Text → CompactorState → Option ℕ × CompactorState
unfolding find_checkpoint history_max_seq restored survivors
rollback_from id s = elim (find_checkpoint id s.checkpoints) [
  | none ↦ (none, s)
  | some cp ↦
      (let (kept, dropped) = restored cp.seq (history_max_seq s.history) s.history in
        (
          some dropped,
          record s {
            history = kept;
            checkpoints = survivors cp.seq s.checkpoints;
            last_checkpoint_seq = cp.seq;
          },
        ))
]

pub data CallError : Type 0 where
  no_cp_id no_note not_found : CallError

pub data CallReply : Type 0 where
  closed hid expanded : Text → CallReply
  rolled_back : Text → ℕ → CallReply
  tool_error : CallError → CallReply

unfoldable pub call_checkpoint : Text → CompactorState → CallReply × CompactorState
unfolding add_checkpoint
call_checkpoint description s =
    let trimmed = trim_space description in
    let desc = if text_eq trimmed [] then codes "(unlabelled segment)" else trimmed in
    let (cp, s') = add_checkpoint desc s in (closed cp.id, s')

-- What the summariser makes of the segment, none where there is no summariser or it fails.
abbrev pub Summarizer : Type 0
Summarizer = List HistoryEntry → Text → Option Text

abbrev pub brief_of : Summarizer → List HistoryEntry → Text → Text
brief_of summarize [] note = note
brief_of summarize (e ∷ es) note = elim (summarize (e ∷ es) note) [
  | none ↦ note
  | some b ↦ if text_eq (trim_space b) [] then note else trim_space b
]

abbrev pub marked_reply :
    (Text → CallReply) → Option Checkpoint × CompactorState → CallReply × CompactorState
marked_reply reply (none, s) = (tool_error not_found, s)
marked_reply reply (some cp, s) = (reply cp.id, s)

unfoldable pub call_hide : Summarizer → Text → Text → CompactorState → CallReply × CompactorState
unfolding segment_entries set_checkpoint_hidden
call_hide summarize cp_id note s =
    let id = trim_space cp_id in
    let (entries, s') = segment_entries id s in
    if text_eq id []
    then (tool_error no_cp_id, s)
    else marked_reply hid
        (set_checkpoint_hidden id true (brief_of summarize entries (trim_space note)) s')

unfoldable pub call_expand : Text → CompactorState → CallReply × CompactorState
unfolding set_checkpoint_hidden
call_expand cp_id s =
    if text_eq (trim_space cp_id) []
    then (tool_error no_cp_id, s)
    else marked_reply expanded (set_checkpoint_hidden (trim_space cp_id) false [] s)

abbrev pub rollback_reply : Text → Option ℕ × CompactorState → CallReply × CompactorState
rollback_reply id (none, s) = (tool_error not_found, s)
rollback_reply id (some dropped, s) = (rolled_back id dropped, s)

unfoldable pub call_rollback : Text → Text → CompactorState → CallReply × CompactorState
unfolding rollback_from
call_rollback cp_id note s =
    let id = trim_space cp_id in
    if text_eq id []
    then (tool_error no_cp_id, s)
    else if text_eq (trim_space note) []
    then (tool_error no_note, s)
    else rollback_reply id (rollback_from id s)
