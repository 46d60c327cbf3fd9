-- ===== src/Stuck/Edges.antt =====
-- The detectors fire on rising edges.
use hugen.Prelude.{
  ℕ, suc, ◌+◌, ◌<◌, ◌≡◌, refl, ◌∙◌, Bool, true, false, not, ◌&&◌, Option, none, some, List, [], ◌∷◌,
  ◌++◌, arith, if◌then◌else◌,
}
use hugen.Stuck.Pattern.{HashSample, repeated_hash, tight_density, repeated_error, no_progress_hit}
use hugen.Stuck.{
  DetectorState, Nudge, stuck_repeated_tool, stuck_tight_density, stuck_repeated_error, no_progress,
  evaluate, disabled_by_policy, Frame, on_frame_emit, run, is_some, record_sample, sample_of,
  ToolCall, agent_message, tool_result, other, annotate, record_calls, annotated,
}

pub data Detector : Type 0 where
  by_hash by_density by_error by_progress : Detector

abbrev pub flag : Detector → DetectorState → Bool
flag by_hash s = s.repeated_hash_active
flag by_density s = s.tight_density_active
flag by_error s = s.repeated_error_active
flag by_progress s = s.no_progress_active

abbrev pub pattern_of : Detector → List HashSample → Bool
pattern_of by_hash samples = repeated_hash samples
pattern_of by_density samples = tight_density samples
pattern_of by_error samples = is_some (repeated_error samples)
pattern_of by_progress samples = is_some (no_progress_hit samples)

abbrev is_from : Detector → Nudge → Bool
is_from by_hash stuck_repeated_tool = true
is_from by_density stuck_tight_density = true
is_from by_error (stuck_repeated_error tool code) = true
is_from by_progress (no_progress hash) = true
is_from _ _ = false

-- How often a detector fired.
abbrev pub count_from : Detector → List Nudge → ℕ
count_from d [] = 0
count_from d (n ∷ ns) = if is_from d n then suc (count_from d ns) else count_from d ns

pub count_from-append :
    (d : Detector) (xs ys : List Nudge)
    → count_from d (xs ++ ys) ≡ count_from d xs + count_from d ys
count_from-append d [] ys = omega arith
count_from-append d (x ∷ xs) ys = ground (arith, count_from-append d xs ys)

-- Where the policies disable the nudges, an evaluation does nothing. Elsewhere it sets a detector's
-- flag to whether its pattern is there, fires once if the pattern is there and the flag was not
-- set, and does not fire otherwise. The samples stay.
pub evaluate-edge :
    (d : Detector) (policy : List (Option Bool)) (s : DetectorState)
    → let (s', nudges) = evaluate policy s in
      let present = pattern_of d s.recent_hashes in
      (flag d s' ≡ (if disabled_by_policy policy then flag d s else present))
      × (count_from d nudges
          ≡ (if disabled_by_policy policy then 0 else if present && not (flag d s) then 1 else 0))
      × (s'.recent_hashes ≡ s.recent_hashes)
unfolding evaluate
evaluate-edge by_hash policy s = ground arith
evaluate-edge by_density policy s = ground arith
evaluate-edge by_error policy s = ground arith
evaluate-edge by_progress policy s = ground arith

-- The pattern is there at each evaluation of the run.
abbrev pub Persists : Detector → DetectorState → List (List (Option Bool) × Frame) → Type 0
Persists d s [] = Unit
Persists d s ((policy, f) ∷ fs) =
    let s' = (on_frame_emit policy s f).0 in
    (pattern_of d s'.recent_hashes ≡ true) × Persists d s' fs

evaluate-Quiet :
    (d : Detector) (policy : List (Option Bool)) (s : DetectorState)
    → flag d s ≡ true
    → pattern_of d (evaluate policy s).0.recent_hashes ≡ true
    → (count_from d (evaluate policy s).1 ≡ 0) × (flag d (evaluate policy s).0 ≡ true)
evaluate-Quiet d policy s a p =
    let (f, c, r) = evaluate-edge d policy s in
    let p' : pattern_of d s.recent_hashes ≡ true = rw r at p in ground arith

flag_of_samples :
    (d : Detector) (s : DetectorState) (recent : List HashSample)
    → flag d (record s { recent_hashes = recent }) ≡ flag d s
flag_of_samples by_hash s recent = refl
flag_of_samples _ s recent = refl

flag-record_calls :
    (d : Detector) (s : DetectorState) (cs : List ToolCall) (at : ℕ)
    → flag d (record_calls s cs at) ≡ flag d s
unfolding record_calls
flag-record_calls d s [] at = refl
flag-record_calls d s (c ∷ cs) at =
    flag-record_calls d (record_sample s (sample_of c at)) cs at
    ∙ (unfold record_sample in flag_of_samples d s _)

annotated_quiet :
    (d : Detector) (policy : List (Option Bool)) (s : DetectorState) (o : Option (List HashSample))
    → flag d s ≡ true
    → pattern_of d (annotated policy s o).0.recent_hashes ≡ true
    → (count_from d (annotated policy s o).1 ≡ 0) × (flag d (annotated policy s o).0 ≡ true)
unfolding annotated
annotated_quiet d policy s none a p = (refl, a)
annotated_quiet d policy s (some recent) a p =
    evaluate-Quiet d policy (record s { recent_hashes = recent }) (flag_of_samples d s recent ∙ a) p

-- While the flag is set and the pattern stays, a frame fires nothing and leaves the flag set.
frame_quiet :
    (d : Detector) (policy : List (Option Bool)) (s : DetectorState) (f : Frame)
    → flag d s ≡ true
    → pattern_of d (on_frame_emit policy s f).0.recent_hashes ≡ true
    → (count_from d (on_frame_emit policy s f).1 ≡ 0) × (flag d (on_frame_emit policy s f).0 ≡ true)
unfolding on_frame_emit
frame_quiet d policy s (agent_message consolidated [] at) a p = (refl, a)
frame_quiet d policy s (agent_message true (c ∷ cs) at) a p =
    evaluate-Quiet d policy (record_calls s (c ∷ cs) at) (flag-record_calls d s (c ∷ cs) at ∙ a) p
frame_quiet d policy s (agent_message false (c ∷ cs) at) a p = (refl, a)
frame_quiet d policy s (tool_result tool_id is_error code) a p =
    annotated_quiet d policy s (annotate tool_id (if is_error then code else []) s.recent_hashes) a
      p
frame_quiet d policy s other a p = (refl, a)

-- While the flag is set and the pattern stays, no frames fire.
flagged_quiet :
    (d : Detector) (s : DetectorState) (fs : List (List (Option Bool) × Frame))
    → flag d s ≡ true
    → Persists d s fs
    → (count_from d (run s fs).1 ≡ 0) × (flag d (run s fs).0 ≡ true)
unfolding run
flagged_quiet d s [] a p = (refl, a)
flagged_quiet d s ((policy, f) ∷ fs) a p =
    let (c, a') = frame_quiet d policy s f a p.0 in
    let (c', a'') = flagged_quiet d (on_frame_emit policy s f).0 fs a' p.1 in
    (
      omega (
        arith,
        count_from-append d (on_frame_emit policy s f).1 (run (on_frame_emit policy s f).0 fs).1,
      ),
      a'',
    )

evaluate-fired :
    (d : Detector) (policy : List (Option Bool)) (s : DetectorState)
    → 0 < count_from d (evaluate policy s).1
    → (count_from d (evaluate policy s).1 ≡ 1) × (flag d (evaluate policy s).0 ≡ true)
evaluate-fired d policy s h = let (f, c, r) = evaluate-edge d policy s in ground arith

annotated-fired :
    (d : Detector) (policy : List (Option Bool)) (s : DetectorState) (o : Option (List HashSample))
    → 0 < count_from d (annotated policy s o).1
    → (count_from d (annotated policy s o).1 ≡ 1) × (flag d (annotated policy s o).0 ≡ true)
unfolding annotated
annotated-fired d policy s none h = absurd (omega arith)
annotated-fired d policy s (some recent) h =
    evaluate-fired d policy (record s { recent_hashes = recent }) h

-- A frame that makes a detector fire does so once, and leaves its flag set.
frame_fired :
    (d : Detector) (policy : List (Option Bool)) (s : DetectorState) (f : Frame)
    → 0 < count_from d (on_frame_emit policy s f).1
    → (count_from d (on_frame_emit policy s f).1 ≡ 1) × (flag d (on_frame_emit policy s f).0 ≡ true)
unfolding on_frame_emit
frame_fired d policy s (agent_message consolidated [] at) h = absurd (omega arith)
frame_fired d policy s (agent_message true (c ∷ cs) at) h =
    evaluate-fired d policy (record_calls s (c ∷ cs) at) h
frame_fired d policy s (agent_message false (c ∷ cs) at) h = absurd (omega arith)
frame_fired d policy s (tool_result tool_id is_error code) h =
    annotated-fired d policy s (annotate tool_id (if is_error then code else []) s.recent_hashes) h
frame_fired d policy s other h = absurd (omega arith)

-- From any state, a frame at which a detector fires and any frames after it, at each of which its
-- pattern is there, make it fire exactly once in all.
pub no_second_nudge :
    (d : Detector) (s : DetectorState) (policy : List (Option Bool)) (f : Frame)
    (fs : List (List (Option Bool) × Frame))
    → 0 < count_from d (on_frame_emit policy s f).1
    → Persists d (on_frame_emit policy s f).0 fs
    → count_from d (run s ((policy, f) ∷ fs)).1 ≡ 1
unfolding run
no_second_nudge d s policy f fs h p =
    let (once, a) = frame_fired d policy s f h in
    let (none_later, a') = flagged_quiet d (on_frame_emit policy s f).0 fs a p in
    omega (
      arith,
      count_from-append d (on_frame_emit policy s f).1 (run (on_frame_emit policy s f).0 fs).1,
    )

-- Three calls in a row with one hash within two seconds are three calls in a row with one hash: the
-- density detector never sees a pattern that the repetition detector does not see.
pub repeated_hash-of-tight_density :
    (samples : List HashSample) → tight_density samples ≡ true → repeated_hash samples ≡ true
unfolding tight_density repeated_hash
repeated_hash-of-tight_density samples h = ground arith
