-- ===== src/Stuck/Tests.antt =====
-- The theorems on the detectors at concrete frames.
use hugen.Prelude.{
  arith, ℕ, ◌≡◌, refl, ◌↔◌, Bool, true, not, ◌&&◌, Option, List, [], ◌∷◌, last_n, if◌then◌else◌,
}
use hugen.Prelude.Text.{codes, text_eq}
use hugen.Stuck.Pattern.{repeated_hash, tight_density, repeated_error, no_progress_hit}
use hugen.Stuck.{
  DetectorState, stuck_repeated_tool, stuck_tight_density, Frame, agent_message, init, run,
  evaluate, on_frame_emit, record_sample, disabled_by_policy,
}
use hugen.Stuck.Edges.{
  by_hash, by_error, flag, pattern_of, count_from, evaluate-edge, Persists, no_second_nudge,
  repeated_hash-of-tight_density,
}
use hugen.Stuck.Window.{keys, all_sampled, window_is_last_six, EndsInThree, repeated_hash_iff}

abbrev call : ℕ → List (Option Bool) × Frame
call at = (
  [],
  agent_message true
      (record { name = codes "bash:run"; tool_id = codes "t"; hash = codes "h" } ∷ []) at,
)

abbrev three : List (List (Option Bool) × Frame)
three = call 1 ∷ call 2 ∷ call 3 ∷ []

abbrev repeating : DetectorState
repeating = (run init three).0

-- The third call of a kind makes the two detectors of repetition fire.
fires : (run init three).1 ≡ stuck_repeated_tool ∷ stuck_tight_density ∷ []
unfolding run on_frame_emit evaluate record_sample repeated_hash tight_density repeated_error
    no_progress_hit text_eq
fires = refl

repeating_active : flag by_hash repeating ≡ true
unfolding run on_frame_emit evaluate record_sample repeated_hash text_eq
repeating_active = refl

fourth-Persists : Persists by_hash repeating (call 4 ∷ [])
unfolding run on_frame_emit evaluate record_sample repeated_hash text_eq
fourth-Persists = (refl, tt)

no_second_nudge_example :
    count_from by_hash (run (run init (call 1 ∷ call 2 ∷ [])).0 (call 3 ∷ call 4 ∷ [])).1 ≡ 1
unfolding run on_frame_emit evaluate record_sample repeated_hash text_eq
no_second_nudge_example =
    no_second_nudge by_hash (run init (call 1 ∷ call 2 ∷ [])).0 [] (call 3).1 (call 4 ∷ [])
      (omega arith) (refl, tt)

evaluate-edge_test :
    let (s', nudges) = evaluate [] repeating in
    let present = pattern_of by_error repeating.recent_hashes in
    (flag by_error s' ≡ (if disabled_by_policy [] then flag by_error repeating else present))
    × (count_from by_error nudges ≡ (
        if disabled_by_policy []
        then 0
        else if present && not (flag by_error repeating)
        then 1
        else 0))
    × (s'.recent_hashes ≡ repeating.recent_hashes)
evaluate-edge_test = evaluate-edge by_error [] repeating

window_is_last_six_example : keys (run init three).0 ≡ last_n 6 (all_sampled three)
window_is_last_six_example = window_is_last_six three

repeated_hash_iff_test :
    (repeated_hash repeating.recent_hashes ≡ true) ↔ EndsInThree repeating.recent_hashes
repeated_hash_iff_test = repeated_hash_iff repeating.recent_hashes

tight : tight_density repeating.recent_hashes ≡ true
unfolding run on_frame_emit evaluate record_sample tight_density text_eq
tight = refl

repeated_hash-of-tight_density_test : repeated_hash repeating.recent_hashes ≡ true
repeated_hash-of-tight_density_test = repeated_hash-of-tight_density repeating.recent_hashes tight
