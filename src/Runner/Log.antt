-- ===== src/Runner/Log.antt =====
-- The audit log of the fires: runlog.go's in-memory log, and `runFire` of service.go, which writes
-- it. The map from names to rows is a function; a duration is the difference of two times, 0 where
-- the clock went back.
pub mod History
use hugen.Prelude.{
  ℕ, ◌-◌, ◌==◌, ltb, leb, Bool, true, false, not, ◌&&◌, ◌||◌, Option, none, some, List, [], ◌∷◌,
  ◌++◌, length, drop, last_n, if◌then◌else◌,
}
use hugen.Prelude.Text.{Text, text_eq}
use hugen.Runner.{Outcome, Registration, Fire, mark_idle, record_outcome}

pub data RunStatus : Type 0 where
  in_flight completed failed timeout : RunStatus

pub record Entry : Type 0 where
  pub name : Text
  pub fire_seq : ℕ
  pub planned_at : ℕ
  pub started_at : ℕ
  pub completed_at : ℕ
  pub status : RunStatus
  pub error_message : Text
  pub summary : Text
  pub duration : ℕ

pub record RunLog : Type 0 where
  pub cap_per : ℕ
  pub entries : Text → List Entry

-- `NewMemoryRunLog`; 0 stands for a cap that is not positive.
abbrev pub new_log : ℕ → RunLog
new_log cap = record { cap_per = if cap == 0 then 128 else cap; entries = λ name. [] }

abbrev pub put : Text → List Entry → RunLog → RunLog
put name rows l = record l { entries = λ n. if text_eq n name then rows else l.entries n }

pub append : Entry → RunLog → RunLog
append e l =
    let rows = l.entries e.name ++ e ∷ [] in
    put e.name (if ltb l.cap_per (length rows) then drop (length rows - l.cap_per) rows else rows) l

pub merge : Entry → Entry → Entry
merge finalized e = record e {
  completed_at = finalized.completed_at;
  status = finalized.status;
  error_message = finalized.error_message;
  summary = finalized.summary;
  duration = finalized.duration;
}

or_here : ℕ → Entry → Entry → List Entry → Option (List Entry) → Option (List Entry)
or_here seq finalized e rows (some rows') = some (e ∷ rows')
or_here seq finalized e rows none =
    if e.fire_seq == seq then some (merge finalized e ∷ rows) else none

-- The rows with the last one of that number merged, if there is one: the loop of `Finalize`.
pub merge_last : ℕ → Entry → List Entry → Option (List Entry)
unfolding or_here
merge_last seq finalized [] = none
merge_last seq finalized (e ∷ rows) = or_here seq finalized e rows (merge_last seq finalized rows)

or_append : Text → Entry → RunLog → Option (List Entry) → RunLog
unfolding append
or_append name finalized l none = append finalized l
or_append name finalized l (some rows) = put name rows l

pub finalize : Text → ℕ → Entry → RunLog → RunLog
unfolding merge_last or_append
finalize name seq finalized l =
    or_append name finalized l (merge_last seq finalized (l.entries name))

-- `ListByName`; 0 stands for a limit that is not positive.
pub list_by_name : Text → ℕ → RunLog → List Entry
list_by_name name limit l =
    let rows = l.entries name in
    if limit == 0 || ltb (length rows) limit then rows else last_n limit rows

abbrev is_completed : RunStatus → Bool
is_completed completed = true
is_completed in_flight = false
is_completed failed = false
is_completed timeout = false

abbrev or_this : Entry → Option Entry → Option Entry
or_this e (some e') = some e'
or_this e none = if is_completed e.status then some e else none

last_completed : List Entry → Option Entry
last_completed [] = none
last_completed (e ∷ rows) = or_this e (last_completed rows)

pub latest_success : Text → RunLog → Option Entry
unfolding last_completed
latest_success name l = last_completed (l.entries name)

-- How the function failed: past its deadline, or otherwise, a panic included.
pub data FireError : Type 0 where
  deadline_exceeded other : Text → FireError

abbrev pub status_of : Option FireError → RunStatus
status_of none = completed
status_of (some (deadline_exceeded message)) = timeout
status_of (some (other message)) = failed

-- The error's message, or the outcome's where there is none.
abbrev pub message_of : Option FireError → Outcome → Text
message_of none o = o.error_message
message_of (some (deadline_exceeded message)) o =
    if text_eq message [] then o.error_message else message
message_of (some (other message)) o = if text_eq message [] then o.error_message else message

-- A fire whose function has returned.
pub record Run : Type 0 where
  pub name : Text
  pub fire : Fire
  pub started : ℕ
  pub completed_at : ℕ
  pub outcome : Outcome
  pub error : Option FireError

pub opened : Run → Entry
opened r = record {
  name = r.name;
  fire_seq = r.fire.seq;
  planned_at = r.fire.planned_at;
  started_at = r.started;
  completed_at = 0;
  status = in_flight;
  error_message = [];
  summary = [];
  duration = 0;
}

pub closed : Run → Entry
closed r = record {
  name = r.name;
  fire_seq = r.fire.seq;
  planned_at = r.fire.planned_at;
  started_at = r.started;
  completed_at = r.completed_at;
  status = status_of r.error;
  error_message = message_of r.error r.outcome;
  summary = r.outcome.summary;
  duration = r.completed_at - r.started;
}

pub log_run : Run → RunLog → RunLog
unfolding opened closed finalize append
log_run r l = finalize r.name r.fire.seq (closed r) (append (opened r) l)

-- `runFire`: the log, and the registration once the fire has ended.
pub run_fire : Run → RunLog → Registration → RunLog × Registration
unfolding log_run
run_fire r l reg = (
  log_run r l,
  mark_idle (record_outcome r.completed_at r.outcome (is_completed (status_of r.error)) reg),
)
