-- ===== src/Compactor/Restart/Run.antt =====
-- Runs of a session: emitted frames, turn boundaries, and the commands compact and reset.
use hugen.Prelude.{
  ℕ, ◌≤◌, ◌<◌, ◌≡◌, refl, sym, subst, inl, inr, Bool, true, length, length-append, some,
  Option-cases, List, [], ◌∷◌, Bool-cases, arith, All,
}
use hugen.Compactor.Digests.{Digest, cutoff_of, new_cutoff}
use hugen.Compactor.Frames.{
  EventRow, Frame, Fate, closed, not_numbered, not_appended, unreported, delivered,
}
use hugen.Compactor.Replay.{IsPlain}
use hugen.Compactor.Recovery.{latest_from, reset, new_session}
use hugen.Compactor.Compaction.{should_compact, Answers, stored, built, compact, on_turn_boundary}
use hugen.Compactor.Emission.{Env, Session, max_seq, emit}
use hugen.Compactor.Restart.Log.{entries, boundaries}
use hugen.Compactor.Restart.{IsForeign, keeps, InSync, foreign-InSync}
use hugen.Compactor.Emitted.{emit-Added}
use hugen.Compactor.Restart.Cuts.{
  new_cutoff-bounds, next-kept, set_frame, clear_frame, cut-InSync, reset-InSync,
}

-- A frame of the model's turn or of another extension; the hook of a turn boundary and the two
-- commands, with what the models answer, whether the store lists its rows to a reset, and the envelope
-- of the compactor's frame.
pub data Event : Type 0 where
  emits : Frame → Event
  turn_ends compacts : Answers → Frame → Event
  resets : Bool → Frame → Event

unfoldable pub step : Env → Event → Session → Session
unfolding emit compact on_turn_boundary reset
step env (emits f) s = (emit env f s).1
step env (turn_ends a f) s = on_turn_boundary env a f s
step env (compacts a f) s = compact env a f s
step env (resets listed f) s = reset env listed f s

-- The events, the newest first.
unfoldable pub run : Env → List Event → Session
unfolding step
run env [] = new_session
run env (e ∷ older) = step env e (run env older)

-- No error after the row is persisted.
abbrev pub IsReported : Fate → Type 0
IsReported unreported = ⊥
IsReported closed = Unit
IsReported not_numbered = Unit
IsReported not_appended = Unit
IsReported delivered = Unit

-- Frames that are not the compactor's have any fate, and no []byte; its own are reported once they are
-- persisted; and the store lists its rows to a reset.
abbrev pub IsModelled : Event → Type 0
IsModelled (emits f) = IsForeign f.payload × IsPlain f.payload
IsModelled (turn_ends a f) = IsReported f.fate
IsModelled (compacts a f) = IsReported f.fate
IsModelled (resets listed f) = IsReported f.fate × (listed ≡ true)

module _ (env : Env) (k : keeps env.strategy ≡ true)
    (read_back : (d : Digest) → env.decode_digest d ≡ some d) where
  stored-InSync :
      (f : Frame) (d : Digest) (a : Answers) (c : ℕ) (s : Session)
      → IsReported f.fate
      → built env a c s ≡ some d
      → (cutoff_of s.state.digest < c) × (c ≤ max_seq s.log)
      → InSync env s
      → InSync env (stored env f (some d) s)
  stored-InSync f d a c s n e (later, behind) i =
      let (v, cut) = next-kept env a c s d e in
      elim (emit-Added env (set_frame env f d) s) [
        | inl (same, unsent) ↦ rw (unsent refl) (subst (InSync env) (sym same) i)
        | inr (row, added, inr u) ↦ absurd (subst IsReported u n)
        | inr (row, added, inl sent) ↦ rw sent (
            cut-InSync env k f s (emit env (set_frame env f d) s).1 row d added i (read_back d) v
              (omega arith, omega arith))
      ]

  compact-InSync :
      (a : Answers) (f : Frame) (s : Session)
      → IsReported f.fate
      → InSync env s
      → InSync env (compact env a f s)
  unfolding compact
  compact-InSync a f s r i =
      elim (Option-cases (new_cutoff env.config s.state.user_message_seqs s.state.digest)) [
        | inl n ↦ rw (n, compact) i
        | inr (c, e) ↦
            (let bounds =
                new_cutoff-bounds env.config s.state.user_message_seqs s.state.digest
                  (max_seq s.log) c i.seq_bound e in
              rw (e, compact)
                (elim (Option-cases (built env a c s)) [
                  | inl n ↦ rw n i
                  | inr (d, b) ↦ rw b (stored-InSync f d a c s r b bounds i)
                ]))
      ]

  emit-grows : (f : Frame) (s : Session) → length s.log ≤ length (emit env f s).1.log
  emit-grows f s = elim (emit-Added env f s) [
    | inl (same, unsent) ↦ rw same (omega arith)
    | inr (row, added, sent) ↦ rw added.log (omega (arith, length-append s.log (row ∷ [])))
  ]

  stored-grows :
      (f : Frame) (d : Digest) (s : Session) → length s.log ≤ length (stored env f (some d) s).log
  stored-grows f d s = elim (Bool-cases (emit env (set_frame env f d) s).0) [
    | inl b ↦ rw b (emit-grows (set_frame env f d) s)
    | inr b ↦ rw b (emit-grows (set_frame env f d) s)
  ]

  compact-grows :
      (a : Answers) (f : Frame) (s : Session) → length s.log ≤ length (compact env a f s).log
  unfolding compact
  compact-grows a f s =
      elim (Option-cases (new_cutoff env.config s.state.user_message_seqs s.state.digest)) [
        | inl n ↦ rw (n, compact) (omega arith)
        | inr (c, e) ↦
            rw (e, compact)
              (elim (Option-cases (built env a c s)) [
                | inl n ↦ rw n (omega arith)
                | inr (d, b) ↦ rw b (stored-grows f d s)
              ])
      ]

  reset-log :
      (listed : Bool) (f : Frame) (s : Session)
      → (reset env listed f s).log ≡ (emit env (clear_frame f) s).1.log
  unfolding reset
  reset-log listed f s = elim (Bool-cases (emit env (clear_frame f) s).0) [
    | inl b ↦ rw b refl
    | inr b ↦ rw b refl
  ]

  step-grows : (e : Event) (s : Session) → length s.log ≤ length (step env e s).log
  unfolding step on_turn_boundary
  step-grows (emits f) s = emit-grows f s
  step-grows (turn_ends a f) s = elim (Bool-cases (should_compact env s.state)) [
    | inl t ↦ rw t (compact-grows a f s)
    | inr t ↦ rw t (omega arith)
  ]
  step-grows (compacts a f) s = compact-grows a f s
  step-grows (resets listed f) s = rw (reset-log listed f s) (emit-grows (clear_frame f) s)

  step-InSync :
      (e : Event) (s : Session)
      → IsModelled e
      → length (step env e s).log ≤ 100000
      → InSync env s
      → InSync env (step env e s)
  unfolding step on_turn_boundary reset
  step-InSync (emits f) s h fits i = elim (emit-Added env f s) [
    | inl (same, unsent) ↦ subst (InSync env) (sym same) i
    | inr (row, added, sent) ↦ foreign-InSync env k f s (emit env f s).1 row added i h.0 h.1
  ]
  step-InSync (turn_ends a f) s h fits i = elim (Bool-cases (should_compact env s.state)) [
    | inl t ↦ rw t (compact-InSync a f s h i)
    | inr t ↦ rw t i
  ]
  step-InSync (compacts a f) s h fits i = compact-InSync a f s h i
  step-InSync (resets listed f) s h fits i =
      let small : length (emit env (clear_frame f) s).1.log ≤ 100000 =
        subst (λ (l : List EventRow). length l ≤ 100000) (reset-log listed f s) fits in
      rw (h.1) (elim (emit-Added env (clear_frame f) s) [
        | inl (same, unsent) ↦ rw (unsent refl) (subst (InSync env) (sym same) i)
        | inr (row, added, inr u) ↦ absurd (subst IsReported u h.0)
        | inr (row, added, inl sent) ↦
            rw sent (reset-InSync env k f s (emit env (clear_frame f) s).1 row added i small)
      ])

  new-InSync : InSync env new_session
  unfolding max_seq entries boundaries latest_from
  new-InSync = record {
    digest = refl;
    seqs = refl;
    history = refl;
    cut_bound = omega arith;
    seq_bound = tt;
  }

  pub run-InSync :
      (events : List Event)
      → All IsModelled events
      → length (run env events).log ≤ 100000
      → InSync env (run env events)
  unfolding run
  run-InSync [] h fits = new-InSync
  run-InSync (e ∷ older) h fits =
      let grown = step-grows e (run env older) in
      step-InSync e (run env older) h.0 fits (run-InSync older h.1 (omega arith))
