-- ===== src/Stuck/Window.antt =====
-- The trailing window of samples.
use mathlib.Core.List.{append-nil, append_assoc, map-append}
use hugen.Prelude.{
  ℕ, ◌-◌, ◌≤◌, ◌≡◌, refl, sym, ap, ◌∙◌, ◌≢◌, inl, inr, Bool, true, false, Option, none, some, List,
  [], ◌∷◌, ◌++◌, map, arith, length, length-append, length-last_n, last_n-append, last_n-of-le,
  cut-eq-last_n, map-last_n, drop-append, drop-ge, ◌↔◌, Option-cases, take, take-append-drop,
  last_n, ltb, if◌then◌else◌, Bool-cases,
}
use hugen.Prelude.Text.{Text, text_eq_iff}
use hugen.Stuck.Pattern.{HashSample, repeated_hash, same_hash}
use hugen.Stuck.{
  DetectorState, evaluate, record_sample, sample_of, ToolCall, Frame, agent_message, tool_result,
  other, on_frame_emit, run, annotate, record_calls, annotated, max_len, init,
}
use hugen.Stuck.Edges.{evaluate-edge, by_hash}

-- A sample without the error code, which arrives later.
abbrev pub Key : Type 0
Key = Text × Text × Text × ℕ

abbrev pub key : HashSample → Key
key x = (x.hash, x.tool, x.tool_id, x.at)

abbrev pub keys : DetectorState → List Key
keys s = map key s.recent_hashes

-- The calls that a frame samples.
abbrev pub sampled : Frame → List Key
sampled (agent_message true calls at) =
    map (λ (c : ToolCall). (c.hash, c.name, c.tool_id, at)) calls
sampled (agent_message false calls at) = []
sampled (tool_result tool_id is_error code) = []
sampled other = []

abbrev pub all_sampled : List (List (Option Bool) × Frame) → List Key
all_sampled [] = []
all_sampled ((policy, f) ∷ fs) = sampled f ++ all_sampled fs

record_sample-last_n :
    (s : DetectorState) (x : HashSample)
    → keys (record_sample s x) ≡ last_n max_len (keys s ++ key x ∷ [])
unfolding record_sample
record_sample-last_n s x =
    ap (map key) (cut-eq-last_n max_len (s.recent_hashes ++ x ∷ []))
    ∙ map-last_n key max_len (s.recent_hashes ++ x ∷ [])
    ∙ ap (last_n max_len) (map-append key s.recent_hashes (x ∷ []))

keys-record_calls :
    (s : DetectorState) (cs : List ToolCall) (at : ℕ)
    → length (keys s) ≤ max_len
    → keys (record_calls s cs at) ≡ last_n max_len (keys s ++ sampled (agent_message true cs at))
unfolding record_calls
keys-record_calls s [] at h = rw append-nil (sym (last_n-of-le max_len (keys s) h))
keys-record_calls s (c ∷ cs) at h =
    let added : List Key = keys s ++ key (sample_of c at) ∷ [] in
    let rest : List Key = sampled (agent_message true cs at) in
    keys-record_calls (record_sample s (sample_of c at)) cs at
      (rw record_sample-last_n (omega (arith, length-last_n max_len added)))
    ∙ ap (λ (l : List Key). last_n max_len (l ++ rest)) (record_sample-last_n s (sample_of c at))
    ∙ last_n-append max_len added rest
    ∙ ap (last_n max_len) (append_assoc (keys s) (key (sample_of c at) ∷ []) rest)

keys-annotate :
    (tool_id code : Text) (xs ys : List HashSample)
    → annotate tool_id code xs ≡ some ys
    → map key ys ≡ map key xs
unfolding annotate
keys-annotate tool_id code [] ys e = cc
keys-annotate tool_id code (x ∷ xs) ys e = elim (Option-cases (annotate tool_id code xs)) [
  | inl n ↦ ground arith
  | inr (zs, n) ↦ ground (arith, keys-annotate tool_id code xs zs n)
]

keys-evaluate :
    (policy : List (Option Bool)) (s : DetectorState) → keys (evaluate policy s).0 ≡ keys s
keys-evaluate policy s = ap (map key) (evaluate-edge by_hash policy s).2

keys-annotated :
    (policy : List (Option Bool)) (s : DetectorState) (o : Option (List HashSample))
    → ((ys : List HashSample) → o ≡ some ys → map key ys ≡ keys s)
    → keys (annotated policy s o).0 ≡ keys s
unfolding annotated
keys-annotated policy s none h = refl
keys-annotated policy s (some ys) h = keys-evaluate policy _ ∙ h ys refl

keys-frame :
    (policy : List (Option Bool)) (s : DetectorState) (f : Frame)
    → length (keys s) ≤ max_len
    → keys (on_frame_emit policy s f).0 ≡ last_n max_len (keys s ++ sampled f)
unfolding on_frame_emit
keys-frame policy s (agent_message true [] at) h =
    rw append-nil (sym (last_n-of-le max_len (keys s) h))
keys-frame policy s (agent_message false [] at) h =
    rw append-nil (sym (last_n-of-le max_len (keys s) h))
keys-frame policy s (agent_message true (c ∷ cs) at) h =
    keys-evaluate policy (record_calls s (c ∷ cs) at) ∙ keys-record_calls s (c ∷ cs) at h
keys-frame policy s (agent_message false (c ∷ cs) at) h =
    rw append-nil (sym (last_n-of-le max_len (keys s) h))
keys-frame policy s (tool_result tool_id is_error code) h =
    keys-annotated policy s _
      (keys-annotate tool_id (if is_error then code else []) s.recent_hashes)
    ∙ rw append-nil (sym (last_n-of-le max_len (keys s) h))
keys-frame policy s other h = rw append-nil (sym (last_n-of-le max_len (keys s) h))

keys-run :
    (s : DetectorState) (fs : List (List (Option Bool) × Frame))
    → length (keys s) ≤ max_len
    → keys (run s fs).0 ≡ last_n max_len (keys s ++ all_sampled fs)
unfolding run
keys-run s [] h = rw append-nil (sym (last_n-of-le max_len (keys s) h))
keys-run s ((policy, f) ∷ fs) h =
    let seen : List Key = keys s ++ sampled f in
    keys-run (on_frame_emit policy s f).0 fs
      (rw (keys-frame policy s f h) (omega (arith, length-last_n max_len seen)))
    ∙ ap (λ (l : List Key). last_n max_len (l ++ all_sampled fs)) (keys-frame policy s f h)
    ∙ last_n-append max_len seen (all_sampled fs)
    ∙ ap (last_n max_len) (append_assoc (keys s) (sampled f) (all_sampled fs))

-- After any frames the window holds, up to the error codes, exactly the last six of the tool calls
-- that consolidated messages dispatched, oldest first.
pub window_is_last_six :
    (fs : List (List (Option Bool) × Frame)) → keys (run init fs).0 ≡ last_n 6 (all_sampled fs)
window_is_last_six fs = keys-run init fs (omega arith)

-- A list ends in three samples with one hash, which is not empty.
pub record EndsInThree (samples : List HashSample) : Type 0 where
  pub before : List HashSample
  pub a : HashSample
  pub b : HashSample
  pub c : HashSample
  pub split : samples ≡ before ++ (a ∷ b ∷ c ∷ [])
  pub nonempty : a.hash ≢ []
  pub second : b.hash ≡ a.hash
  pub third : c.hash ≡ a.hash

three-of-last :
    (before tail : List HashSample)
    → length tail ≡ 3
    → same_hash tail ≡ true
    → EndsInThree (before ++ tail)
three-of-last before [] l h = absurd (omega arith)
three-of-last before (a ∷ []) l h = absurd (omega arith)
three-of-last before (a ∷ b ∷ []) l h = absurd (omega arith)
three-of-last before (a ∷ b ∷ c ∷ []) l h = record {
  before = before;
  a = a;
  b = b;
  c = c;
  split = refl;
  nonempty = λ e. ground (arith, text_eq_iff a.hash []);
  second = ground (arith, text_eq_iff b.hash a.hash);
  third = ground (arith, text_eq_iff c.hash a.hash);
}
three-of-last before (a ∷ b ∷ c ∷ d ∷ tail) l h = absurd (omega arith)

last-three : (before tail : List HashSample) → length tail ≡ 3 → last_n 3 (before ++ tail) ≡ tail
last-three before tail l =
    let k : length (before ++ tail) - 3 ≡ length before =
      omega (arith, length-append before tail) in
    rw k (
      drop-append (length before) before tail (omega arith)
      ∙ rw (drop-ge (length before) before (omega arith)))

EndsInThree-of_repeated_hash :
    (samples : List HashSample) → repeated_hash samples ≡ true → EndsInThree samples
unfolding repeated_hash
EndsInThree-of_repeated_hash samples h = elim (Bool-cases (ltb (length samples) 3)) [
  | inl e ↦ cc
  | inr e ↦ rw take-append-drop at (
      three-of-last (take (length samples - 3) samples) (last_n 3 samples)
        (ground (arith, length-last_n 3 samples)) (rw e at h))
]

same_hash-of_three :
    (a b c : HashSample)
    → a.hash ≢ []
    → b.hash ≡ a.hash
    → c.hash ≡ a.hash
    → same_hash (a ∷ b ∷ c ∷ []) ≡ true
same_hash-of_three a b c n p q =
    ground (arith, n, text_eq_iff a.hash [], text_eq_iff b.hash a.hash, text_eq_iff c.hash a.hash)

repeated_hash-of_split :
    (before tail : List HashSample)
    → length tail ≡ 3
    → same_hash tail ≡ true
    → repeated_hash (before ++ tail) ≡ true
unfolding repeated_hash
repeated_hash-of_split before tail l h =
    let e : ltb (length (before ++ tail)) 3 ≡ false = ground (arith, length-append before tail) in
    rw e (rw (last-three before tail l) h)

-- The repetition pattern is there exactly when the last three samples have one hash, not empty.
pub repeated_hash_iff :
    (samples : List HashSample) → (repeated_hash samples ≡ true) ↔ EndsInThree samples
repeated_hash_iff samples = (
  EndsInThree-of_repeated_hash samples,
  λ e. rw e.split (
      repeated_hash-of_split e.before (e.a ∷ e.b ∷ e.c ∷ []) refl
        (same_hash-of_three e.a e.b e.c e.nonempty e.second e.third)),
)
