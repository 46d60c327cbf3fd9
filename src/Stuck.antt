-- ===== src/Stuck.antt =====
-- The stuck detector: pkg/extension/stuckdetector (state.go, detectors.go, frame_observer.go).
-- A time is a number of nanoseconds. An emitted frame is a value of the output; with no prompts
-- renderer the source emits none of the first three, which is not modelled. The hash of a call and the
-- error code of a result, which need SHA-256 and JSON, are fields of the observed frame.
pub mod Pattern
pub mod Edges
pub mod Window
mod Tests
use mathlib.Core.List.{foldl}
use hugen.Prelude.{
  ℕ, ◌+◌, ◌-◌, ◌*◌, Bool, true, false, not, ◌&&◌, Option, none, some, List, [], ◌∷◌, ◌++◌, length,
  drop, last_n, any, all, ltb, if◌then◌else◌,
}
use hugen.Prelude.Text.{Text, text_eq}
use Pattern.{
  HashSample, repeated_hash_window, tight_density_count, repeated_error_window, repeated_hash,
  tight_density, repeated_error, no_progress_hit,
}

pub record DetectorState : Type 0 where
  pub recent_hashes : List HashSample
  pub repeated_hash_active : Bool
  pub tight_density_active : Bool
  pub repeated_error_active : Bool
  pub no_progress_active : Bool

abbrev pub init : DetectorState
init = record {
  recent_hashes = [];
  repeated_hash_active = false;
  tight_density_active = false;
  repeated_error_active = false;
  no_progress_active = false;
}

-- The frames that the detectors emit.
pub data Nudge : Type 0 where
  stuck_repeated_tool stuck_tight_density : Nudge
  stuck_repeated_error : Text → Text → Nudge
  no_progress : Text → Nudge

abbrev max_len_from : ℕ → ℕ → ℕ
max_len_from n len = if ltb len n then n else len

abbrev pub max_len : ℕ
max_len = max_len_from repeated_error_window (max_len_from tight_density_count repeated_hash_window)

pub record_sample : DetectorState → HashSample → DetectorState
record_sample s sample =
    let recent = s.recent_hashes ++ sample ∷ [] in
    record s {
      recent_hashes =
          if ltb max_len (length recent) then drop (length recent - max_len) recent else recent;
    }

-- The newest sample of the call gets the code; `none` if there is no such sample.
pub annotate : Text → Text → List HashSample → Option (List HashSample)
annotate tool_id code [] = none
annotate tool_id code (x ∷ xs) = elim (annotate tool_id code xs) [
  | some ys ↦ some (x ∷ ys)
  | none ↦ if text_eq x.tool_id tool_id then some (record x { err_code = code } ∷ xs) else none
]

-- The new value of a flag, and whether it went from inactive to active.
pub set_active : Bool → Bool → Bool × Bool
set_active v active = if v then (true, not active) else (false, false)

abbrev when : Bool → Nudge → List Nudge
when b n = if b then n ∷ [] else []

abbrev pub is_some {ℓ} : {A : Type ℓ} → Option A → Bool
is_some none = false
is_some (some a) = true

pub evaluate_repeated_hash : DetectorState → List HashSample → DetectorState × List Nudge
unfolding set_active
evaluate_repeated_hash s samples =
    let (flag, rising) = set_active (repeated_hash samples) s.repeated_hash_active in
    (record s { repeated_hash_active = flag }, when rising stuck_repeated_tool)

pub evaluate_tight_density : DetectorState → List HashSample → DetectorState × List Nudge
unfolding set_active
evaluate_tight_density s samples =
    let (flag, rising) = set_active (tight_density samples) s.tight_density_active in
    (record s { tight_density_active = flag }, when rising stuck_tight_density)

error_nudge : Option HashSample → Bool → List Nudge
error_nudge none rising = []
error_nudge (some last) rising = when rising (stuck_repeated_error last.tool last.err_code)

pub evaluate_repeated_error : DetectorState → List HashSample → DetectorState × List Nudge
unfolding set_active error_nudge
evaluate_repeated_error s samples =
    let hit = repeated_error samples in
    let (flag, rising) = set_active (is_some hit) s.repeated_error_active in
    (record s { repeated_error_active = flag }, error_nudge hit rising)

progress_nudge : Option HashSample → Bool → List Nudge
progress_nudge none rising = []
progress_nudge (some last) rising = when rising (no_progress last.hash)

pub evaluate_no_progress : DetectorState → List HashSample → DetectorState × List Nudge
unfolding set_active progress_nudge
evaluate_no_progress s samples =
    let hit = no_progress_hit samples in
    let (flag, rising) = set_active (is_some hit) s.no_progress_active in
    (record s { no_progress_active = flag }, progress_nudge hit rising)

-- `AdviseToolPolicy(...).DisableStuckNudges` of each extension, `none` where it gives no advice.
pub disabled_by_policy : List (Option Bool) → Bool
disabled_by_policy [] = false
disabled_by_policy (none ∷ es) = disabled_by_policy es
disabled_by_policy (some b ∷ es) = if b then true else disabled_by_policy es

pub evaluate : List (Option Bool) → DetectorState → DetectorState × List Nudge
unfolding disabled_by_policy evaluate_repeated_hash evaluate_tight_density evaluate_repeated_error
    evaluate_no_progress
evaluate policy s =
    let samples = s.recent_hashes in
    let (s1, n1) = evaluate_repeated_hash s samples in
    let (s2, n2) = evaluate_tight_density s1 samples in
    let (s3, n3) = evaluate_repeated_error s2 samples in
    let (s4, n4) = evaluate_no_progress s3 samples in
    if disabled_by_policy policy then (s, []) else (s4, n1 ++ (n2 ++ (n3 ++ n4)))

pub record ToolCall : Type 0 where
  pub name : Text
  pub tool_id : Text
  pub hash : Text

pub data Frame : Type 0 where
  agent_message : Bool → List ToolCall → ℕ → Frame
  tool_result : Text → Bool → Text → Frame
  other : Frame

abbrev sample_of : ToolCall → ℕ → HashSample
sample_of c at = record {
  hash = c.hash;
  tool = c.name;
  tool_id = c.tool_id;
  err_code = [];
  at = at;
}

pub record_calls : DetectorState → List ToolCall → ℕ → DetectorState
unfolding record_sample
record_calls s [] at = s
record_calls s (c ∷ cs) at = record_calls (record_sample s (sample_of c at)) cs at

annotated :
    List (Option Bool) → DetectorState → Option (List HashSample) → DetectorState × List Nudge
unfolding evaluate
annotated policy s none = (s, [])
annotated policy s (some recent) = evaluate policy (record s { recent_hashes = recent })

unfoldable pub on_frame_emit :
    List (Option Bool) → DetectorState → Frame → DetectorState × List Nudge
unfolding record_calls annotated annotate
on_frame_emit policy s (agent_message consolidated [] at) = (s, [])
on_frame_emit policy s (agent_message consolidated (c ∷ cs) at) =
    if consolidated then evaluate policy (record_calls s (c ∷ cs) at) else (s, [])
on_frame_emit policy s (tool_result tool_id is_error code) =
    annotated policy s (annotate tool_id (if is_error then code else []) s.recent_hashes)
on_frame_emit policy s other = (s, [])

-- A session's frames, each with the advice that stands when it is emitted.
unfoldable pub run : DetectorState → List (List (Option Bool) × Frame) → DetectorState × List Nudge
run s [] = (s, [])
run s ((policy, f) ∷ fs) =
    let (s1, n1) = on_frame_emit policy s f in let (s2, n2) = run s1 fs in (s2, n1 ++ n2)
