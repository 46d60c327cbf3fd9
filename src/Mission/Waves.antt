-- ===== src/Mission/Waves.antt =====
-- The waves of a mission: pkg/extension/mission/executor.go, with the plan state of plan_state.go and the
-- workers' bookkeeping of state.go. What the spawner answers, the roles' timeouts and the instants at which the waiting
-- loop looks are arguments; a duration is a number as a time is.
pub mod Clock
pub mod Deadlines
pub mod Ending
pub mod Outcomes
pub mod Accounts
pub mod Rounds
pub mod Run
mod Tests
use hugen.Prelude.{
  ℕ, ◌+◌, ◌-◌, ◌==◌, ltb, Bool, true, false, not, ◌&&◌, ◌||◌, Option, none, some, List, [], ◌∷◌,
  ◌++◌, if◌then◌else◌, Result, ok, fail, ◌>>=◌, any,
}
use hugen.Prelude.Text.{Text, codes, text_eq}
use hugen.Prelude.Maps.{set, lookup, remove}
use hugen.Mission.Handoffs.{Handoff, RefError, get, make_ref, resolve_depends_on}

pub record SubagentSpec : Type 0 where
  pub name : Text
  pub skill : Text
  pub role : Text
  pub task : Text
  pub depends_on : List Text

pub record Wave : Type 0 where
  pub label : Text
  pub subagents : List SubagentSpec

pub data WaveStatus : Type 0 where
  wave_ok wave_partial wave_failed : WaveStatus

pub record DoneWorker : Type 0 where
  pub name : Text
  pub role : Text
  pub skill : Text
  pub status : Text
  pub ref : Text
  pub error : Text
  pub timed_out : Bool

pub record DoneWave : Type 0 where
  pub label : Text
  pub status : WaveStatus
  pub completed_at : ℕ
  pub refs : List Text
  pub subagents : List DoneWorker

pub record WorkerCursor : Type 0 where
  pub name : Text
  pub role : Text
  pub skill : Text

-- The part of the mission's state that waves use.
pub record MissionState : Type 0 where
  pub done : List DoneWave
  pub active : Option Wave
  pub current_wave : Text
  pub workers_in_wave : List (Text × WorkerCursor)
  pub hitl_waiting : List (Text × Bool)

unfoldable pub begin_wave : Wave → MissionState → MissionState
begin_wave wave m = record m { current_wave = wave.label; active = some wave; workers_in_wave = [] }

unfoldable pub register_worker : Text → WorkerCursor → MissionState → MissionState
unfolding set
register_worker id cur m = record m { workers_in_wave = set id cur m.workers_in_wave }

unfoldable pub lookup_worker : Text → MissionState → Option WorkerCursor
unfolding lookup
lookup_worker id m = lookup id m.workers_in_wave

unfoldable pub task_of : Text → List SubagentSpec → Text
task_of name [] = []
task_of name (s ∷ specs) = if text_eq s.name name then s.task else task_of name specs

unfoldable pub worker_task : Text → MissionState → Text
unfolding task_of
worker_task name m = elim m.active [ none ↦ [] | some w ↦ task_of name w.subagents ]

unfoldable pub mark_hitl_waiting : Text → MissionState → MissionState
unfolding set
mark_hitl_waiting id m =
    if text_eq id [] then m else record m { hitl_waiting = set id true m.hitl_waiting }

unfoldable pub clear_hitl_waiting : Text → MissionState → MissionState
unfolding remove
clear_hitl_waiting id m =
    if text_eq id [] then m else record m { hitl_waiting = remove id m.hitl_waiting }

abbrev pub is_some : {A : Type 0} → Option A → Bool
is_some none = false
is_some (some a) = true

unfoldable pub is_hitl_waiting : Text → List (Text × Bool) → Bool
unfolding lookup
is_hitl_waiting id waiting = if text_eq id [] then false else is_some (lookup id waiting)

-- A `pendingWorker`; no block runs where `block_start` is 0.
pub record PendingWorker : Type 0 where
  pub ref : Text
  pub session_id : Text
  pub deadline : ℕ
  pub block_accum : ℕ
  pub block_start : ℕ

-- What one round of the waiting loop sees, and whether the parent's context ends behind it.
pub record Instant : Type 0 where
  pub now : ℕ
  pub handoffs : List (Text × Handoff)
  pub hitl_waiting : List (Text × Bool)
  pub ctx_done : Bool

-- The sets of refs, and the sessions that the terminator was called with.
pub record Verdicts : Type 0 where
  pub done : List Text
  pub timed_out : List Text
  pub cancelled : List Text

abbrev pub no_verdicts : Verdicts
no_verdicts = record { done = []; timed_out = []; cancelled = [] }

unfoldable pub has : Text → List Text → Bool
has r [] = false
has r (x ∷ xs) = text_eq x r || has r xs

abbrev pub settled : Text → Verdicts → Bool
settled r v = has r v.done || has r v.timed_out

abbrev pub landed : Instant → PendingWorker → Bool
landed i w = is_some (get w.ref i.handoffs)

-- `cancelTimedOutWorker`
unfoldable pub cancel_timed_out_worker : Bool → PendingWorker → Verdicts → Verdicts
cancel_timed_out_worker terminator w v =
    if not terminator || text_eq w.session_id []
    then v
    else record v { cancelled = w.session_id ∷ v.cancelled }

unfoldable pub start_block : ℕ → PendingWorker → PendingWorker
start_block now w = if w.block_start == 0 then record w { block_start = now } else w

unfoldable pub credit_block : ℕ → PendingWorker → PendingWorker
credit_block now w =
    if w.block_start == 0
    then w
    else record w { block_accum = w.block_accum + (now - w.block_start); block_start = 0 }

-- The loop's body for one worker: the worker, the sets, and what it adds to `remaining`.
unfoldable pub poll_one : Bool → Instant → PendingWorker → Verdicts → PendingWorker × Verdicts × ℕ
unfolding has is_hitl_waiting start_block credit_block cancel_timed_out_worker get
poll_one terminator i w v =
    if settled w.ref v
    then (w, v, 0)
    else if landed i w
    then (w, record v { done = w.ref ∷ v.done }, 0)
    else if is_hitl_waiting w.session_id i.hitl_waiting
    then (start_block i.now w, v, 1)
    else let w' = credit_block i.now w in
      if ltb (w'.deadline + w'.block_accum) i.now
      then (
        w',
        cancel_timed_out_worker terminator w' (record v { timed_out = w'.ref ∷ v.timed_out }),
        0,
      )
      else (w', v, 1)

unfoldable pub poll :
    Bool → Instant → List PendingWorker → Verdicts → List PendingWorker × Verdicts × ℕ
unfolding poll_one
poll terminator i [] v = ([], v, 0)
poll terminator i (w ∷ ws) v =
    let (w', v', r) = poll_one terminator i w v in
    let (ws', v'', n) = poll terminator i ws v' in (w' ∷ ws', v'', r + n)

-- The loop is over, was cut off by the context, or is still waiting behind the given instants.
pub data Waited : Type 0 where
  finished : Verdicts → Waited
  interrupted : Verdicts → Waited
  waiting : Verdicts → Waited

unfoldable pub wait_rounds : Bool → List Instant → List PendingWorker → Verdicts → Waited
unfolding poll
wait_rounds terminator [] ws v = waiting v
wait_rounds terminator (i ∷ is) ws v =
    let (ws', v', remaining) = poll terminator i ws v in
    let rest = wait_rounds terminator is ws' v' in
    if remaining == 0 then finished v' else if i.ctx_done then interrupted v' else rest

unfoldable pub wait_for_workers : Bool → List Instant → List PendingWorker → Waited
unfolding wait_rounds
wait_for_workers terminator is [] = finished no_verdicts
wait_for_workers terminator is (w ∷ ws) = wait_rounds terminator is (w ∷ ws) no_verdicts
