-- ===== src/Mission/Waves/Run.antt =====
-- `RunWave` of pkg/extension/mission/executor.go, with the outcomes and the status of a wave.
use hugen.Prelude.{
  ℕ, suc, ◌+◌, ◌==◌, Bool, true, false, not, Option, none, some, List, [], ◌∷◌, ◌++◌, if◌then◌else◌,
  Result, ok, fail, ◌>>=◌,
}
use hugen.Prelude.Text.{Text, codes, text_eq}
use hugen.Prelude.Maps.{set, lookup}
use hugen.Mission.Handoffs.{Handoff, RefError, get, make_ref, resolve_depends_on}
use hugen.Mission.Waves.{
  SubagentSpec, Wave, WaveStatus, wave_ok, wave_partial, wave_failed, DoneWorker, DoneWave,
  MissionState, begin_wave, register_worker, PendingWorker, Instant, has, Waited, finished,
  interrupted, waiting, wait_for_workers,
}

-- What the spawner is asked, without the inputs of the spec, which it only passes on.
pub record SpawnRequest : Type 0 where
  pub name : Text
  pub skill : Text
  pub role : Text
  pub task : Text
  pub render_mode : Text

-- The session's id, or the spawner's error.
pub record SpawnRecord : Type 0 where
  pub spec : SubagentSpec
  pub res : Result Text Text

-- `ref, _ := MakeRef(…)`: the empty text on an error.
unfoldable pub ref_or_empty : Text → Text → Text
unfolding make_ref
ref_or_empty name label = elim (make_ref name label) [ ok r ↦ r | fail e ↦ [] ]

abbrev pub entry : SubagentSpec → Text → Text → Text → Bool → DoneWorker
entry spec status ref error timed_out = record {
  name = spec.name;
  role = spec.role;
  skill = spec.skill;
  status = status;
  ref = ref;
  error = error;
  timed_out = timed_out;
}

-- An outcome of a worker that was spawned: the hand-off wins over the timeout.
unfoldable pub spawned_outcome : SubagentSpec → Text → Option Handoff → Bool → DoneWorker
spawned_outcome spec ref (some h) timed_out =
    entry spec h.status ref (if text_eq h.status (codes "ok") then [] else h.reason) false
spawned_outcome spec ref none true =
    entry spec (codes "timeout") ref (codes "worker exceeded its per-role time budget") true
spawned_outcome spec ref none false =
    entry spec (codes "error") ref (codes "no handoff produced before wave ctx expired") false

unfoldable pub outcome_of : Text → List (Text × Handoff) → List Text → SpawnRecord → DoneWorker
unfolding spawned_outcome ref_or_empty get has
outcome_of label store timed_out rec = elim rec.res [
  | fail e ↦ entry rec.spec (codes "error") [] e false
  | ok id ↦
      let ref = ref_or_empty rec.spec.name label in
      spawned_outcome rec.spec ref (get ref store) (has ref timed_out)
]

unfoldable pub collect_outcomes :
    Text → List (Text × Handoff) → List Text → List SpawnRecord → List DoneWorker
unfolding outcome_of
collect_outcomes label store timed_out [] = []
collect_outcomes label store timed_out (rec ∷ records) =
    outcome_of label store timed_out rec ∷ collect_outcomes label store timed_out records

abbrev pub is_ok : DoneWorker → Bool
is_ok w = text_eq w.status (codes "ok")

-- The workers with the status `ok`, and the others.
unfoldable pub count_status : (Bool → Bool) → List DoneWorker → ℕ
count_status pick [] = 0
count_status pick (w ∷ ws) =
    let rest = count_status pick ws in if pick (is_ok w) then suc rest else rest

unfoldable pub aggregate_status : List DoneWorker → WaveStatus
unfolding count_status
aggregate_status outcomes =
    if count_status (λ b. b) outcomes == 0
    then wave_failed
    else if count_status not outcomes == 0
    then wave_ok
    else wave_partial

-- The first loop: the map from a subagent's name to its resolved text.
unfoldable pub resolve_all :
    List SubagentSpec
    → List (Text × Handoff)
    → List (Text × Text)
    → Result RefError (List (Text × Text))
unfolding set
resolve_all [] store resolved = ok resolved
resolve_all (sub ∷ subs) store resolved = resolve_depends_on sub.depends_on store >>= λ body.
    resolve_all subs store (set sub.name body resolved)

abbrev pub text_or_empty : Option Text → Text
text_or_empty none = []
text_or_empty (some t) = t

unfoldable pub spawn_request : List (Text × Text) → Text → SubagentSpec → SpawnRequest
unfolding lookup
spawn_request resolved render_mode sub =
    let before = text_or_empty (lookup sub.name resolved) in
    record {
      name = sub.name;
      skill = sub.skill;
      role = sub.role;
      task = if text_eq before [] then sub.task else before ++ (codes "\n\n" ++ sub.task);
      render_mode = if text_eq render_mode [] then codes "silent" else render_mode;
    }

unfoldable pub register : Result Text Text → SubagentSpec → MissionState → MissionState
unfolding register_worker
register (fail e) sub m = m
register (ok id) sub m =
    register_worker id (record { name = sub.name; role = sub.role; skill = sub.skill }) m

-- The second loop, from the requests on: each worker spawned is registered.
unfoldable pub spawn_all :
    (SpawnRequest → Result Text Text)
    → List (Text × Text)
    → Text
    → List SubagentSpec
    → MissionState
    → List SpawnRecord × MissionState
unfolding spawn_request register
spawn_all spawner resolved render_mode [] m = ([], m)
spawn_all spawner resolved render_mode (sub ∷ subs) m =
    let res = spawner (spawn_request resolved render_mode sub) in
    let (records, m'') = spawn_all spawner resolved render_mode subs (register res sub m) in
    (record { spec = sub; res = res } ∷ records, m'')

-- The third loop.
unfoldable pub pending_workers : (Text → ℕ) → ℕ → Text → List SpawnRecord → List PendingWorker
unfolding ref_or_empty
pending_workers role_timeout base label [] = []
pending_workers role_timeout base label (rec ∷ records) =
    let rest = pending_workers role_timeout base label records in
    elim rec.res [
      | fail e ↦ rest
      | ok id ↦
          record {
            ref = ref_or_empty rec.spec.name label;
            session_id = id;
            deadline = base + role_timeout rec.spec.role;
            block_accum = 0;
            block_start = 0;
          }
          ∷ rest
    ]

unfoldable pub refs_of : List DoneWorker → List Text
refs_of [] = []
refs_of (w ∷ ws) = if text_eq w.ref [] then refs_of ws else w.ref ∷ refs_of ws

pub data WaveError : Type 0 where
  no_spawner empty_label no_subagents : WaveError
  unresolved : RefError → WaveError

pub data RunResult : Type 0 where
  refused : WaveError → RunResult
  cut_off : List DoneWorker → RunResult
  completed : WaveStatus → List DoneWorker → RunResult
  still_waiting : RunResult

-- What the environment gives to a run: the spawner, whether a terminator is wired, the timeout of each
-- role, the instants of the waiting loop, the store when it begins and when it is left, and the clock there.
pub record Environment : Type 0 where
  pub spawner : Option (SpawnRequest → Result Text Text)
  pub terminator : Bool
  pub role_timeout : Text → ℕ
  pub render_mode : Text
  pub deadline_base : ℕ
  pub instants : List Instant
  pub store_before : List (Text × Handoff)
  pub store_after : List (Text × Handoff)
  pub completed_at : ℕ

abbrev pub done_wave : Environment → Wave → List DoneWorker → DoneWave
done_wave env wave outcomes = record {
  label = wave.label;
  status = aggregate_status outcomes;
  completed_at = env.completed_at;
  refs = refs_of outcomes;
  subagents = outcomes;
}

-- Behind the waiting loop.
unfoldable pub end_wave :
    Environment → Wave → List SpawnRecord → Waited → MissionState → RunResult × MissionState
unfolding collect_outcomes aggregate_status refs_of
end_wave env wave records (waiting v) m = (still_waiting, m)
end_wave env wave records (interrupted v) m = (
  cut_off (collect_outcomes wave.label env.store_after v.timed_out records),
  record m { active = none; current_wave = [] },
)
end_wave env wave records (finished v) m =
    let outcomes = collect_outcomes wave.label env.store_after v.timed_out records in
    (
      completed (aggregate_status outcomes) outcomes,
      record m {
        done = m.done ++ done_wave env wave outcomes ∷ [];
        active = none;
        current_wave = [];
      },
    )

unfoldable pub start_wave :
    Environment
    → (SpawnRequest → Result Text Text)
    → Wave
    → List (Text × Text)
    → MissionState
    → RunResult × MissionState
unfolding begin_wave spawn_all pending_workers wait_for_workers end_wave
start_wave env spawner wave resolved m =
    let (records, m') =
      spawn_all spawner resolved env.render_mode wave.subagents (begin_wave wave m) in
    let workers = pending_workers env.role_timeout env.deadline_base wave.label records in
    end_wave env wave records (wait_for_workers env.terminator env.instants workers) m'

unfoldable pub run_resolved :
    Environment
    → (SpawnRequest → Result Text Text)
    → Wave
    → MissionState
    → Result RefError (List (Text × Text))
    → RunResult × MissionState
unfolding start_wave
run_resolved env spawner wave m (fail e) = (refused (unresolved e), m)
run_resolved env spawner wave m (ok resolved) = start_wave env spawner wave resolved m

unfoldable pub run_subagents :
    Environment
    → (SpawnRequest → Result Text Text)
    → Wave
    → MissionState
    → List SubagentSpec
    → RunResult × MissionState
unfolding resolve_all run_resolved
run_subagents env spawner wave m [] = (refused no_subagents, m)
run_subagents env spawner wave m (sub ∷ subs) =
    run_resolved env spawner wave m (resolve_all (sub ∷ subs) env.store_before [])

unfoldable pub run_with :
    Environment
    → Option (SpawnRequest → Result Text Text)
    → Wave
    → MissionState
    → RunResult × MissionState
unfolding run_subagents
run_with env none wave m = (refused no_spawner, m)
run_with env (some spawner) wave m =
    if text_eq wave.label []
    then (refused empty_label, m)
    else run_subagents env spawner wave m wave.subagents

unfoldable pub run_wave : Environment → Wave → MissionState → RunResult × MissionState
unfolding run_with
run_wave env wave m = run_with env env.spawner wave m
