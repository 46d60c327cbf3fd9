-- ===== src/Plan/Handle.antt =====
-- The plan tools over a session's handle: `callSet`, `callComment`, `callClear`, `SystemSet` and
-- `persistAndApply` of pkg/extension/plan/extension.go, and `Recover` of recovery.go.
-- Beside the handle's projection stands the session's event log, to which `state.Emit` appends the row
-- that FrameToEventRow of pkg/session/store/store.go makes of a frame. The coding of `OpData` as JSON is
-- a parameter; what comes of an emit, with the frame's time, is an argument.
use hugen.Prelude.{
  ℕ, ◌≡◌, Bool, true, false, not, ◌&&◌, Option, none, some, List, [], ◌∷◌, ◌++◌, if◌then◌else◌,
  take,
}
use hugen.Prelude.Text.{Text, codes, text_eq}
use hugen.Plan.{Plan, ProjectEvent, Op, set, clear, comment, other, apply, project, no_plan}

-- `json.Marshal` and `json.Unmarshal` of an `OpData`, and which texts are valid UTF-8.
pub record Codec : Type 0 where
  pub marshal : Text → Text → Text
  pub unmarshal : Text → Option (Text × Text)
  pub is_utf8 : Text → Bool

-- What is valid UTF-8 is decoded as it was encoded.
pub record IsCodec (codec : Codec) : Type 0 where
  pub read_back :
      (text step : Text)
      → codec.is_utf8 text ≡ true
      → codec.is_utf8 step ≡ true
      → codec.unmarshal (codec.marshal text step) ≡ some (text, step)
  pub empty : codec.is_utf8 [] ≡ true

-- A row, as far as it is read here: its kind, the fields of its metadata, the empty text and none where
-- there is none, its content and its time.
pub record Row : Type 0 where
  pub is_extension : Bool
  pub extension : Text
  pub op : Text
  pub payload : Option Text
  pub content : Text
  pub created_at : ℕ

pub record Session : Type 0 where
  pub plan : Plan
  pub log : List Row

pub data Reply : Type 0 where
  done bad_request no_active_plan io : Reply

-- Before the row is persisted, after it, or no error.
pub data Outcome : Type 0 where
  lost : Outcome
  unreported landed : ℕ → Outcome

-- A tool call that reached its handler with well-formed arguments.
pub data Call : Type 0 where
  call_set call_comment system_set : Text → Text → Call
  call_clear : Call

abbrev pub provider_name : Text
provider_name = codes "plan"

abbrev pub op_text : Op → Text
op_text set = codes "set"
op_text comment = codes "comment"
op_text clear = codes "clear"
op_text (other s) = s

unfoldable pub op_of : Text → Op
op_of t =
    if text_eq t (codes "set")
    then set
    else if text_eq t (codes "comment")
    then comment
    else if text_eq t (codes "clear")
    then clear
    else other t

abbrev pub data_of : Codec → Option Text → Text × Text
data_of codec none = ([], [])
data_of codec (some raw) = elim (codec.unmarshal raw) [ none ↦ ([], []) | some d ↦ d ]

-- The row of a plan frame.
abbrev pub row_of : Codec → ℕ → Op → Text → Text → Row
row_of codec at op text step = record {
  is_extension = true;
  extension = provider_name;
  op = op_text op;
  payload = some (codec.marshal text step);
  content = (data_of codec (some (codec.marshal text step))).0;
  created_at = at;
}

abbrev pub event_of : ℕ → Op → Text → Text → ProjectEvent
event_of at op text step = record { at = at; op = op; text = text; current_step = step }

abbrev pub kept_step : Text → Bool → Plan → Text
kept_step step preserve p = if preserve && text_eq step [] then p.current_step else step

unfoldable pub persist_and_apply :
    Codec → Outcome → Op → Text → Text → Bool → Session → Session × Reply
persist_and_apply codec lost op text step preserve s = (s, io)
persist_and_apply codec (unreported at) op text step preserve s =
    (record s { log = s.log ++ row_of codec at op text (kept_step step preserve s.plan) ∷ [] }, io)
persist_and_apply codec (landed at) op text step preserve s =
    let kept = kept_step step preserve s.plan in
    (
      record {
        plan = apply s.plan (event_of at op text kept);
        log = s.log ++ row_of codec at op text kept ∷ [];
      },
      done,
    )

unfoldable pub handle : Codec → Outcome → Call → Session → Session × Reply
unfolding persist_and_apply
handle codec outcome (call_set text step) s =
    if text_eq text []
    then (s, bad_request)
    else persist_and_apply codec outcome set text step true s
handle codec outcome (call_comment text step) s =
    if text_eq text []
    then (s, bad_request)
    else if s.plan.active
    then persist_and_apply codec outcome comment text step true s
    else (s, no_active_plan)
handle codec outcome (system_set text step) s =
    persist_and_apply codec outcome set text step false s
handle codec outcome call_clear s = persist_and_apply codec outcome clear [] [] false s

-- A call with what comes of its emit, and a row that is not the plan's.
pub data Action : Type 0 where
  calls : Outcome → Call → Action
  appends : Row → Action

unfoldable pub act : Codec → Action → Session → Session
unfolding handle
act codec (calls outcome c) s = (handle codec outcome c s).0
act codec (appends r) s = record s { log = s.log ++ r ∷ [] }

-- `InitState`, with an empty log.
abbrev pub init : Session
init = record { plan = no_plan; log = [] }

-- The actions, the newest first.
unfoldable pub run : Codec → List Action → Session
unfolding act
run codec [] = init
run codec (a ∷ older) = act codec a (run codec older)

abbrev pub is_plan_row : Row → Bool
is_plan_row r = r.is_extension && text_eq r.extension provider_name && not (text_eq r.op [])

abbrev pub filled : Row → Text × Text → ProjectEvent
filled r (text, step) =
    event_of r.created_at (op_of r.op) (if text_eq text [] then r.content else text) step

unfoldable pub events_from_rows : Codec → List Row → List ProjectEvent
unfolding op_of
events_from_rows codec [] = []
events_from_rows codec (r ∷ rows) =
    let rest = events_from_rows codec rows in
    if is_plan_row r then filled r (data_of codec r.payload) ∷ rest else rest

-- `Recover`
unfoldable pub recover : Codec → List Row → Plan
unfolding events_from_rows
recover codec rows = project (events_from_rows codec rows)

-- A restart: `materialise` of pkg/session/replay.go reads the oldest 1000 rows.
unfoldable pub restart : Codec → List Row → Plan
unfolding recover
restart codec log = recover codec (take 1000 log)
