-- ===== src/Mission/Waves/Accounts.antt =====
-- A wave's outcomes account for its workers: each has one, and a worker without a hand-off fails.
use hugen.Prelude.{
  ℕ, ◌+◌, ◌==◌, ◌≡◌, refl, sym, ap, ◌∙◌, ◌⊎◌, inl, inr, Bool, true, false, not, Option, none, some,
  List, [], ◌∷◌, map, arith, Bool-cases, All, any, all, Result, ok, fail,
}
use hugen.Prelude.Text.{Text}
use hugen.Mission.Handoffs.{Handoff, get}
use hugen.Mission.Waves.{
  SubagentSpec, WaveStatus, wave_ok, wave_partial, wave_failed, DoneWorker, MissionState,
  register_worker, PendingWorker, Instant, has,
}
use hugen.Mission.Waves.Clock.{IsFresh}
use hugen.Mission.Waves.Deadlines.{Overran}
use hugen.Mission.Waves.Run.{
  SpawnRequest, SpawnRecord, ref_or_empty, spawned_outcome, outcome_of, collect_outcomes, is_ok,
  count_status, aggregate_status, spawn_all, spawn_request, register, pending_workers,
}

count_ok : (ws : List DoneWorker) → (count_status (λ b. b) ws == 0) ≡ not (any is_ok ws)
unfolding count_status
count_ok [] = refl
count_ok (w ∷ ws) = let e = count_ok ws in ground arith

count_bad : (ws : List DoneWorker) → (count_status not ws == 0) ≡ all is_ok ws
unfolding count_status
count_bad [] = refl
count_bad (w ∷ ws) = let e = count_bad ws in ground arith

-- The status that the outcomes add up to, of at least one outcome.
abbrev pub IsStatus : WaveStatus → List DoneWorker → Type 0
IsStatus wave_ok ws = all is_ok ws ≡ true
IsStatus wave_failed ws = any is_ok ws ≡ false
IsStatus wave_partial ws = (any is_ok ws ≡ true) × (all is_ok ws ≡ false)

pub aggregate-IsStatus : (ws : List DoneWorker) → IsStatus (aggregate_status ws) ws
unfolding aggregate_status
aggregate-IsStatus ws = elim (Bool-cases (count_status (λ b. b) ws == 0)) [
  | inl a ↦ rw a (let e = count_ok ws in ground arith)
  | inr a ↦ rw a (elim (Bool-cases (count_status not ws == 0)) [
    | inl b ↦ rw b (sym (count_bad ws) ∙ b)
    | inr b ↦ rw b ((let e = count_ok ws in ground arith), sym (count_bad ws) ∙ b)
  ])
]

-- A worker reported as timed out has left no hand-off, and its ref has overrun.
abbrev pub IsAccounted :
    List (Text × Handoff) → List PendingWorker → List Instant → DoneWorker → Type 0
IsAccounted store workers rounds w =
    (w.timed_out ≡ false) ⊎ ((get w.ref store ≡ none) × Overran workers rounds w.ref)

outcome-IsAccounted :
    (label : Text) (store : List (Text × Handoff)) (timed_out : List Text)
    (workers : List PendingWorker) (rounds : List Instant) (rec : SpawnRecord)
    → ((r : Text) → has r timed_out ≡ true → Overran workers rounds r)
    → IsAccounted store workers rounds (outcome_of label store timed_out rec)
unfolding outcome_of
outcome-IsAccounted label store timed_out workers rounds rec f = go rec.res refl
  where
    spawned :
        (ref : Text) (h : Option Handoff) (b : Bool)
        → get ref store ≡ h
        → has ref timed_out ≡ b
        → IsAccounted store workers rounds (spawned_outcome rec.spec ref h b)
    spawned ref (some h) b e g = inl refl
    spawned ref none true e g = inr (e, f ref g)
    spawned ref none false e g = inl refl

    go :
        (r : Result Text Text)
        → rec.res ≡ r
        → IsAccounted store workers rounds (outcome_of label store timed_out rec)
    go (fail x) e = simp (e, outcome_of) (inl refl)
    go (ok id) e =
        simp (e, outcome_of)
          (spawned (ref_or_empty rec.spec.name label) (get (ref_or_empty rec.spec.name label) store)
            (has (ref_or_empty rec.spec.name label) timed_out) refl refl)

pub all-IsAccounted :
    (label : Text) (store : List (Text × Handoff)) (timed_out : List Text)
    (workers : List PendingWorker) (rounds : List Instant) (records : List SpawnRecord)
    → ((r : Text) → has r timed_out ≡ true → Overran workers rounds r)
    → All (IsAccounted store workers rounds) (collect_outcomes label store timed_out records)
unfolding collect_outcomes
all-IsAccounted label store timed_out workers rounds [] f = tt
all-IsAccounted label store timed_out workers rounds (rec ∷ records) f = (
  outcome-IsAccounted label store timed_out workers rounds rec f,
  all-IsAccounted label store timed_out workers rounds records f,
)

abbrev pub outcome_names : List DoneWorker → List Text
outcome_names ws = map (λ (w : DoneWorker). w.name) ws

abbrev pub subagent_names : List SubagentSpec → List Text
subagent_names ss = map (λ (s : SubagentSpec). s.name) ss

abbrev pub specs : List SpawnRecord → List SubagentSpec
specs rs = map (λ (r : SpawnRecord). r.spec) rs

spawned_name :
    (spec : SubagentSpec) (ref : Text) (h : Option Handoff) (b : Bool)
    → (spawned_outcome spec ref h b).name ≡ spec.name
unfolding spawned_outcome
spawned_name spec ref (some h) b = refl
spawned_name spec ref none true = refl
spawned_name spec ref none false = refl

outcome_name :
    (label : Text) (store : List (Text × Handoff)) (timed_out : List Text) (rec : SpawnRecord)
    → (outcome_of label store timed_out rec).name ≡ rec.spec.name
unfolding outcome_of
outcome_name label store timed_out rec = go rec.res refl
  where
    go :
        (r : Result Text Text)
        → rec.res ≡ r
        → (outcome_of label store timed_out rec).name ≡ rec.spec.name
    go (fail x) e = simp (e, outcome_of) refl
    go (ok id) e = simp (e, outcome_of) (spawned_name rec.spec _ _ _)

pub names_kept :
    (label : Text) (store : List (Text × Handoff)) (timed_out : List Text)
    (records : List SpawnRecord)
    → outcome_names (collect_outcomes label store timed_out records)
      ≡ subagent_names (specs records)
unfolding collect_outcomes
names_kept label store timed_out [] = refl
names_kept label store timed_out (rec ∷ records) =
    rw (outcome_name label store timed_out rec, names_kept label store timed_out records) refl

pub specs_kept :
    (spawner : SpawnRequest → Result Text Text) (resolved : List (Text × Text)) (mode : Text)
    (subs : List SubagentSpec) (m : MissionState)
    → specs (spawn_all spawner resolved mode subs m).0 ≡ subs
unfolding spawn_all
specs_kept spawner resolved mode [] m = refl
specs_kept spawner resolved mode (sub ∷ subs) m =
    ap (λ r. sub ∷ r) (specs_kept spawner resolved mode subs _)

register_done :
    (r : Result Text Text) (sub : SubagentSpec) (m : MissionState)
    → (register r sub m).done ≡ m.done
unfolding register register_worker
register_done (fail e) sub m = refl
register_done (ok id) sub m = refl

pub spawn_done :
    (spawner : SpawnRequest → Result Text Text) (resolved : List (Text × Text)) (mode : Text)
    (subs : List SubagentSpec) (m : MissionState)
    → (spawn_all spawner resolved mode subs m).1.done ≡ m.done
unfolding spawn_all
spawn_done spawner resolved mode [] m = refl
spawn_done spawner resolved mode (sub ∷ subs) m =
    spawn_done spawner resolved mode subs _
    ∙ register_done (spawner (spawn_request resolved mode sub)) sub m

-- For each subagent that was spawned, in order, a worker under its ref, whose deadline is the start of
-- the wait and the timeout of its own role; and none for one that was not.
pub data Waits (role_timeout : Text → ℕ) (base : ℕ) (label : Text)
    : List SpawnRecord → List PendingWorker → Type 0 where
  no_more : Waits role_timeout base label [] []
  not_spawned :
      {rec : SpawnRecord} {records : List SpawnRecord} {ws : List PendingWorker} (e : Text)
      → rec.res ≡ fail e
      → Waits role_timeout base label records ws
      → Waits role_timeout base label (rec ∷ records) ws
  spawned :
      {rec : SpawnRecord} {records : List SpawnRecord} {w : PendingWorker} {ws : List PendingWorker}
      (id : Text)
      → rec.res ≡ ok id
      → (w.ref ≡ ref_or_empty rec.spec.name label)
        × (w.session_id ≡ id)
        × (w.deadline ≡ base + role_timeout rec.spec.role)
      → Waits role_timeout base label records ws
      → Waits role_timeout base label (rec ∷ records) (w ∷ ws)

pub pending-Waits :
    (role_timeout : Text → ℕ) (base : ℕ) (label : Text) (records : List SpawnRecord)
    → Waits role_timeout base label records (pending_workers role_timeout base label records)
unfolding pending_workers
pending-Waits role_timeout base label [] = no_more
pending-Waits role_timeout base label (rec ∷ records) =
    go rec.res refl (pending-Waits role_timeout base label records)
  where
    go :
        (r : Result Text Text)
        → rec.res ≡ r
        → Waits role_timeout base label records (pending_workers role_timeout base label records)
        → Waits role_timeout base label
            (rec ∷ records)
            (pending_workers role_timeout base label (rec ∷ records))
    go (fail x) e h = simp (e, pending_workers) (not_spawned x e h)
    go (ok id) e h = simp (e, pending_workers) (spawned id e (refl, refl, refl) h)

pub pending-IsFresh :
    (role_timeout : Text → ℕ) (base : ℕ) (label : Text) (records : List SpawnRecord)
    → All IsFresh (pending_workers role_timeout base label records)
unfolding pending_workers
pending-IsFresh role_timeout base label [] = tt
pending-IsFresh role_timeout base label (rec ∷ records) =
    go rec.res refl (pending-IsFresh role_timeout base label records)
  where
    go :
        (r : Result Text Text)
        → rec.res ≡ r
        → All IsFresh (pending_workers role_timeout base label records)
        → All IsFresh (pending_workers role_timeout base label (rec ∷ records))
    go (fail x) e h = simp (e, pending_workers) h
    go (ok id) e h = simp (e, pending_workers) ((refl, refl), h)
