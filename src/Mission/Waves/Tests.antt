-- ===== src/Mission/Waves/Tests.antt =====
-- The theorems on waves at a wave of two workers, one of which overruns.
use hugen.Prelude.{
  ℕ, if◌then◌else◌, ◌≡◌, refl, Bool, true, false, none, some, List, [], ◌∷◌, Result, ok, arith,
}
use hugen.Prelude.Text.{Text, codes, text_eq}
use hugen.Prelude.Maps.{lookup}
use hugen.Mission.Handoffs.{Handoff, get}
use hugen.Mission.Waves.{
  SubagentSpec, Wave, DoneWorker, MissionState, PendingWorker, Instant, has, is_hitl_waiting,
  start_block, credit_block, cancel_timed_out_worker, poll_one, poll, wait_rounds, wait_for_workers,
}
use hugen.Mission.Waves.Clock.{blocked_time}
use hugen.Mission.Waves.Deadlines.{Overran, timed_out-Overran}
use hugen.Mission.Waves.Ending.{is_over, wait_for_workers-ends}
use hugen.Mission.Waves.Run.{Environment, SpawnRequest, entry}

abbrev worker : Text → Text → PendingWorker
worker ref id = record {
  ref = ref;
  session_id = id;
  deadline = 10;
  block_accum = 0;
  block_start = 0;
}

abbrev handoff : Text → Handoff
handoff ref = record {
  ref = ref;
  status = codes "ok";
  reason = [];
  body = [];
  subagent = record { session_id = codes "s1"; name = codes "a"; role = []; skill = [] };
  created_at = 4;
}

-- At 3 the second worker waits for a human; at 8 the first has handed off; at 16 the second, which
-- waited for five, overruns.
abbrev round : ℕ → List (Text × Handoff) → List (Text × Bool) → Instant
round now handoffs hitl = record {
  now = now;
  handoffs = handoffs;
  hitl_waiting = hitl;
  ctx_done = false;
}

abbrev landed_one : List (Text × Handoff)
landed_one = (codes "a@w", handoff (codes "a@w")) ∷ []

abbrev before : List Instant
before = round 3 [] ((codes "s2", true) ∷ []) ∷ round 8 landed_one [] ∷ []

abbrev rounds : List Instant
rounds = round 3 [] ((codes "s2", true) ∷ []) ∷ round 8 landed_one [] ∷ round 16 landed_one [] ∷ []

abbrev workers : List PendingWorker
workers = worker (codes "a@w") (codes "s1") ∷ worker (codes "b@w") (codes "s2") ∷ []

timed_out-Overran_example : Overran workers rounds (codes "b@w")
unfolding wait_for_workers wait_rounds poll poll_one has is_hitl_waiting start_block credit_block
    cancel_timed_out_worker get lookup text_eq
timed_out-Overran_example =
    timed_out-Overran true rounds workers (codes "b@w") ((refl, refl), ((refl, refl), tt))
      (omega arith, (omega arith, (omega arith, tt))) refl

wait_for_workers-ends_example : is_over (wait_for_workers true rounds workers) ≡ true
unfolding is_hitl_waiting lookup text_eq blocked_time
wait_for_workers-ends_example =
    wait_for_workers-ends true before (round 16 landed_one []) workers
      ((refl, refl), ((refl, refl), tt)) (omega arith, (omega arith, (omega arith, tt)))
      ((refl, omega arith), ((refl, omega arith), tt))

abbrev spawner : SpawnRequest → Result Text Text
spawner r = if text_eq r.name (codes "a") then ok (codes "s1") else ok (codes "s2")

abbrev spec : Text → SubagentSpec
spec name = record { name = name; skill = []; role = []; task = codes "go"; depends_on = [] }

abbrev wave : Wave
wave = record { label = codes "w"; subagents = spec (codes "a") ∷ spec (codes "b") ∷ [] }

abbrev environment : Environment
environment = record {
  spawner = some spawner;
  terminator = true;
  role_timeout = λ role. 9;
  render_mode = [];
  deadline_base = 1;
  instants = rounds;
  store_before = [];
  store_after = landed_one;
  completed_at = 17;
}

abbrev mission : MissionState
mission = record {
  done = [];
  active = none;
  current_wave = [];
  workers_in_wave = [];
  hitl_waiting = [];
}

abbrev outcomes : List DoneWorker
outcomes =
    entry (spec (codes "a")) (codes "ok") (codes "a@w") [] false
    ∷ entry (spec (codes "b")) (codes "timeout") (codes "b@w")
        (codes "worker exceeded its per-role time budget") true
    ∷ []
