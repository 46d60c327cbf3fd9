-- ===== src/Runner/Tests.antt =====
-- The theorems on the runner at concrete registrations.
use hugen.Prelude.{
  suc, ◌+◌, ◌≤◌, ◌≡◌, refl, true, false, none, some, [], ◌∷◌, arith, length, last_n,
}
use hugen.Prelude.Text.{codes}
use hugen.Runner.{
  every, once, Options, Registration, Outcome, Fire, next, new_registration, pause, resume,
  should_fire, prepare_fire, tick_once, mark_idle,
}
use hugen.Runner.Overlap.{World, stay, then_step, ticks, fresh, started, IsNumbered, no_overlap}
use hugen.Runner.Firing.{
  fire_is_due, paused, idled, resumed, perform, perform_all, every_spacing, once_only, once_again,
}
use hugen.Runner.Log.{Run, new_log, deadline_exceeded}
use hugen.Runner.Log.History.{log_runs, rows_of, entries-log_runs}

abbrev plain : Options
plain = record { timeout = 0; start_paused = false; initial_fire_seq = 0; initial_fire_at = 0 }

abbrev reaper : Registration
reaper = new_registration (every 60) plain 100

abbrev reminder : Registration
reminder = new_registration (once 100) plain 50

abbrev good : Outcome
good = record { summary = codes "ok"; error_message = [] }

abbrev after_tick : World
after_tick = started (fresh reaper) (tick_once 165 166 reaper)

no_overlap_example :
    (length after_tick.running ≤ 1)
    × IsNumbered reaper.fire_count after_tick.reg.fire_count after_tick.fired
no_overlap_example =
    no_overlap (every 60) plain 100 after_tick
      (then_step _ (fresh reaper) _ (stay (fresh reaper)) (ticks 165 166))

abbrev first_fire : Fire
first_fire = record { seq = 1; planned_at = 160; timeout = 0; prev = none }

fire_is_due_test :
    (first_fire.planned_at ≡ reaper.next_fire_at)
    × (first_fire.planned_at ≤ 166)
    × (first_fire.seq ≡ suc reaper.fire_count)
    × (reaper.paused ≡ false)
    × (reaper.in_flight ≡ false)
unfolding tick_once prepare_fire should_fire new_registration next
fire_is_due_test = fire_is_due 165 166 reaper first_fire refl

every_spacing_example : 165 + 60 ≤ 240
unfolding prepare_fire should_fire new_registration next perform_all perform mark_idle pause resume
every_spacing_example =
    every_spacing 60 165 240 reaper (paused ∷ resumed 170 ∷ idled ∷ []) refl (omega arith) refl
      (tt, (omega arith, (tt, tt))) refl

once_only_example : should_fire 500 (perform_all (idled ∷ []) (prepare_fire 101 reminder).0) ≡ false
unfolding prepare_fire new_registration next
once_only_example = once_only 100 101 500 reminder (idled ∷ []) refl (omega arith) refl (tt, tt)

once_again_example : should_fire 105 (mark_idle (prepare_fire 100 reminder).0) ≡ true
unfolding prepare_fire new_registration next
once_again_example = once_again 100 105 reminder refl (omega arith) (omega arith) refl

abbrev nightly : Run
nightly = record {
  name = codes "nightly";
  fire = first_fire;
  started = 166;
  completed_at = 170;
  outcome = good;
  error = some (deadline_exceeded (codes "deadline"));
}

entries-log_runs_example :
    (log_runs (nightly ∷ nightly ∷ []) (new_log 1)).entries (codes "nightly")
    ≡ last_n 1 (rows_of (codes "nightly") (nightly ∷ nightly ∷ []))
entries-log_runs_example =
    entries-log_runs (nightly ∷ nightly ∷ []) (new_log 1) (codes "nightly") (omega arith)
      (omega arith)
