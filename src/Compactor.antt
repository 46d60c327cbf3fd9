-- ===== src/Compactor.antt =====
-- The history compactor's state, pkg/extension/compactor/state.go and checkpoints.go, over the messages
-- of pkg/model/model.go: the owned history, its window, and the checkpoints of a turn. A role is one of
-- the model package's constants; the arguments of a tool call are their JSON text, none for nil.
pub mod Checkpoints
pub mod Hiding
pub mod Digests
pub mod Frames
pub mod Rows
pub mod Replay
pub mod Recovery
pub mod Compaction
pub mod Emission
pub mod Restart
pub mod Segments
pub mod Emitted
mod Tests
pub mod History
pub mod Pairs
pub mod Window
pub mod Live
use hugen.Prelude.{
  ℕ, zero, suc, ◌+◌, ◌-◌, ◌/◌, ◌==◌, ltb, leb, Bool, true, false, not, ◌&&◌, ◌||◌, Option, none,
  some, List, [], ◌∷◌, ◌++◌, length, get_elem?, drop, if◌then◌else◌,
}
use hugen.Prelude.Text.{Text}
use hugen.Compactor.Digests.{Digest}

pub data Role : Type 0 where
  user assistant system tool : Role

abbrev pub is_tool : Role → Bool
is_tool tool = true
is_tool user = false
is_tool assistant = false
is_tool system = false

abbrev pub is_user : Role → Bool
is_user user = true
is_user tool = false
is_user assistant = false
is_user system = false

pub record ToolCall : Type 0 where
  pub id : Text
  pub name : Text
  pub args : Option Text

pub record Message : Type 0 where
  pub role : Role
  pub content : Text
  pub tool_call_id : Text
  pub tool_calls : List ToolCall
  pub thinking : Text
  pub thought_signature : Text

pub record HistoryEntry : Type 0 where
  pub seq : ℕ
  pub timestamp : ℕ
  pub message : Message

pub record Checkpoint : Type 0 where
  pub id : Text
  pub seq : ℕ
  pub description : Text
  pub tokens : ℕ
  pub hidden : Bool
  pub note : Text

-- `CompactorState` less what is only displayed; `preamble_floor` is none until it is set.
pub record CompactorState : Type 0 where
  pub digest : Option Digest
  pub user_message_seqs : List ℕ
  pub estimated_tokens : ℕ
  pub history : List HistoryEntry
  pub checkpoints : List Checkpoint
  pub last_checkpoint_seq : ℕ
  pub cp_counter : ℕ
  pub preamble_floor : Option ℕ

unfoldable pub estimate_tokens : Text → ℕ
estimate_tokens s = if length s == 0 then 0 else (length s + 3) / 4

-- Of a value, none for nil, that is marshalled to a text.
unfoldable pub estimate_tool_result_tokens : Option Text → ℕ
unfolding estimate_tokens
estimate_tool_result_tokens none = 0
estimate_tool_result_tokens (some json) = estimate_tokens json

calls_tokens : List ToolCall → ℕ
unfolding estimate_tokens estimate_tool_result_tokens
calls_tokens [] = 0
calls_tokens (c ∷ cs) =
    estimate_tokens c.name + estimate_tool_result_tokens c.args + calls_tokens cs

unfoldable pub estimate_message_tokens : Message → ℕ
unfolding calls_tokens estimate_tokens
estimate_message_tokens m =
    estimate_tokens m.content + estimate_tokens m.thinking + calls_tokens m.tool_calls

-- The estimate of the entries behind a cutoff.
unfoldable pub tokens_past : ℕ → List HistoryEntry → ℕ
unfolding estimate_message_tokens
tokens_past cutoff [] = 0
tokens_past cutoff (e ∷ es) =
    (if ltb cutoff e.seq then estimate_message_tokens e.message else 0) + tokens_past cutoff es

-- The largest index up to `head` that holds no tool result, or that is 0 or the end.
unfoldable pub snap_to_pair_safe_head : List HistoryEntry → ℕ → ℕ
snap_to_pair_safe_head es zero = 0
snap_to_pair_safe_head es (suc head) = elim (get_elem? es (suc head)) [
  | none ↦ suc head
  | some e ↦ if is_tool e.message.role then snap_to_pair_safe_head es head else suc head
]

unfoldable pub first_user_message : List HistoryEntry → Option (ℕ × HistoryEntry)
first_user_message [] = none
first_user_message (e ∷ es) =
    if is_user e.message.role
    then some (0, e)
    else elim (first_user_message es) [ none ↦ none | some (i, u) ↦ some (suc i, u) ]

-- The pinned brief and the window from `head`.
abbrev pub pinned : Option (ℕ × HistoryEntry) → ℕ → List HistoryEntry → List HistoryEntry
pinned none head es = drop head es
pinned (some (pin, brief)) head es = if ltb pin head then brief ∷ drop head es else drop head es

unfoldable pub prune_window : ℕ → List HistoryEntry → List HistoryEntry
unfolding snap_to_pair_safe_head first_user_message
prune_window limit es =
    if limit == 0
    then es
    else if leb (length es) limit
    then es
    else pinned (first_user_message es) (snap_to_pair_safe_head es (length es - (limit - 1))) es

unfoldable pub up_to : ℕ → List HistoryEntry → List HistoryEntry
up_to seq [] = []
up_to seq (e ∷ es) = if leb e.seq seq then e ∷ up_to seq es else up_to seq es

unfoldable pub past : ℕ → List HistoryEntry → List HistoryEntry
past cutoff [] = []
past cutoff (e ∷ es) = if ltb cutoff e.seq then e ∷ past cutoff es else past cutoff es

-- `RollbackTo`, of a turn that is cancelled.
unfoldable pub rollback_to : ℕ → CompactorState → CompactorState
unfolding up_to
rollback_to seq s = record s { history = up_to seq s.history }

unfoldable pub prune_to_cutoff : ℕ → CompactorState → CompactorState
unfolding past
prune_to_cutoff cutoff s = record s { history = past cutoff s.history }

unfoldable pub history_max_seq : List HistoryEntry → ℕ
history_max_seq [] = 0
history_max_seq (e ∷ es) = let m = history_max_seq es in if ltb m e.seq then e.seq else m

abbrev bears_calls : Message → Bool
bears_calls m = elim m.role [
  | assistant ↦ elim m.tool_calls [ [] ↦ false | c ∷ cs ↦ true ]
  | user ↦ false
  | system ↦ false
  | tool ↦ false
]

-- With the sequence number of the entry before, 0 at the start.
compute_floor_from : ℕ → List HistoryEntry → Option ℕ
compute_floor_from before [] = none
compute_floor_from before (e ∷ es) =
    let later = compute_floor_from e.seq es in if bears_calls e.message then some before else later

unfoldable pub compute_preamble_floor : List HistoryEntry → Option ℕ
unfolding compute_floor_from
compute_preamble_floor es = compute_floor_from 0 es

-- The floor, 0 where there is none yet, and the state that remembers it.
unfoldable pub preamble_floor : List HistoryEntry → CompactorState → ℕ × CompactorState
unfolding compute_preamble_floor
preamble_floor es s = elim s.preamble_floor [
  | some floor ↦ (floor, s)
  | none ↦ elim (compute_preamble_floor es) [
    | none ↦ (0, s)
    | some floor ↦ (floor, record s { preamble_floor = some floor })
  ]
]

abbrev max_of : ℕ → ℕ → ℕ
max_of low floor = if ltb low floor then floor else low

unfoldable pub segment_tokens : CompactorState → ℕ × CompactorState
unfolding preamble_floor tokens_past
segment_tokens s =
    let (floor, s') = preamble_floor s.history s in
    (tokens_past (max_of s.last_checkpoint_seq floor) s.history, s')
