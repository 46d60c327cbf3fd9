-- ===== src/Runner.antt =====
-- The runner of scheduled functions: pkg/scheduler/runner (schedule.go, the registrations of
-- service.go). Times are numbers of nanoseconds, 0 the zero time; a duration that is not positive is
-- 0. Each operation on a registration runs under its lock, so it is one step. The fields of an
-- Outcome that the runner only passes on are left out.
pub mod Log
pub mod Overlap
pub mod Firing
mod Tests
use hugen.Prelude.{
  ℕ, zero, suc, ◌+◌, ◌-◌, ◌==◌, ltb, leb, Bool, true, false, not, ◌&&◌, ◌||◌, Option, none, some,
  List, [], ◌∷◌, ◌++◌, if◌then◌else◌, Result, ok, fail,
}
use hugen.Prelude.Text.{Text, codes, text_eq, has_prefix}

-- The schedules of schedule.go; a cron expression is the `Next` of the parsed schedule.
pub data Schedule : Type 0 where
  cron : (ℕ → ℕ) → Schedule
  every : ℕ → Schedule
  once : ℕ → Schedule
  manual : Schedule

pub next : Schedule → ℕ → ℕ
next (cron parsed) after = parsed after
next (every d) after = if d == 0 then 0 else after + d
next (once at) after = if not (ltb at after) then at else 0
next manual after = 0

pub record Outcome : Type 0 where
  pub summary : Text
  pub error_message : Text

pub record Options : Type 0 where
  pub timeout : ℕ
  pub start_paused : Bool
  pub initial_fire_seq : ℕ
  pub initial_fire_at : ℕ

-- `registration`, without its name and its function.
pub record Registration : Type 0 where
  pub sched : Schedule
  pub timeout : ℕ
  pub paused : Bool
  pub next_fire_at : ℕ
  pub last_fire_at : ℕ
  pub last_outcome : Option Outcome
  pub fire_count : ℕ
  pub in_flight : Bool

-- `FireMeta`, with the timeout.
pub record Fire : Type 0 where
  pub seq : ℕ
  pub planned_at : ℕ
  pub timeout : ℕ
  pub prev : Option Outcome

-- The registration that `Register` puts into the map, at the time `now`.
pub new_registration : Schedule → Options → ℕ → Registration
new_registration sched o now = record {
  sched = sched;
  timeout = o.timeout;
  paused = o.start_paused;
  next_fire_at = if o.initial_fire_at == 0 then next sched now else o.initial_fire_at;
  last_fire_at = 0;
  last_outcome = none;
  fire_count = if ltb 1 o.initial_fire_seq then o.initial_fire_seq - 1 else 0;
  in_flight = false;
}

pub pause : Registration → Registration
pause r = record r { paused = true }

pub resume : ℕ → Registration → Registration
resume now r = record r { paused = false; next_fire_at = next r.sched now }

pub reschedule : ℕ → Registration → Registration
reschedule at r = record r { next_fire_at = at }

pub should_fire : ℕ → Registration → Bool
should_fire now r =
    if r.paused || r.in_flight
    then false
    else if r.next_fire_at == 0
    then false
    else not (ltb now r.next_fire_at)

pub prepare_fire : ℕ → Registration → Registration × Option Fire
prepare_fire now r =
    if r.paused || (r.in_flight || r.next_fire_at == 0)
    then (r, none)
    else if ltb now r.next_fire_at
    then (r, none)
    else (
      record r { in_flight = true; fire_count = suc r.fire_count; next_fire_at = next r.sched now },
      some (record {
        seq = suc r.fire_count;
        planned_at = r.next_fire_at;
        timeout = r.timeout;
        prev = r.last_outcome;
      }),
    )

-- A round of `tickOnce` for one registration, which reads the clock twice.
pub tick_once : ℕ → ℕ → Registration → Registration × Option Fire
unfolding prepare_fire
tick_once now now' r = if should_fire now r then prepare_fire now' r else (r, none)

pub mark_idle : Registration → Registration
mark_idle r = record r { in_flight = false }

pub record_outcome : ℕ → Outcome → Bool → Registration → Registration
record_outcome at o success r =
    if success
    then record r { last_fire_at = at; last_outcome = some o }
    else record r { last_fire_at = at }
