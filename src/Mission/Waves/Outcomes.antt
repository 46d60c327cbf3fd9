-- ===== src/Mission/Waves/Outcomes.antt =====
-- What a wave that ran to its end reports and leaves.
use hugen.Prelude.{◌≡◌, none, List, [], ◌∷◌, ◌++◌, All}
use hugen.Prelude.Text.{Text}
use hugen.Mission.Waves.{Wave, WaveStatus, DoneWorker, PendingWorker, MissionState}
use hugen.Mission.Waves.Run.{SpawnRecord, done_wave, Environment}
use hugen.Mission.Waves.Accounts.{
  IsStatus, IsAccounted, outcome_names, subagent_names, specs, Waits,
}

-- What a completed run reports and leaves: an outcome for each subagent, in order; the status that
-- they add up to; the wave behind those done before, with the refs of the outcomes; no active wave; the
-- workers that were waited for; and of each one reported as timed out, its ref has no hand-off, and a
-- worker of that ref has overrun its deadline.
pub record IsCompleted (env : Environment) (wave : Wave) (m : MissionState) (status : WaveStatus)
    (outcomes : List DoneWorker) (m' : MissionState) : Type 0 where
  pub records : List SpawnRecord
  pub spawned : specs records ≡ wave.subagents
  pub names : outcome_names outcomes ≡ subagent_names wave.subagents
  pub status_adds_up : IsStatus status outcomes
  pub done : m'.done ≡ m.done ++ done_wave env wave outcomes ∷ []
  pub inactive : m'.active ≡ none
  pub no_wave : m'.current_wave ≡ []
  pub workers : List PendingWorker
  pub waits : Waits env.role_timeout env.deadline_base wave.label records workers
  pub accounted : All (IsAccounted env.store_after workers env.instants) outcomes
