-- ===== src/Compactor/Emitted.antt =====
-- What a frame that is persisted adds to the log and to the compactor.
use mathlib.Core.List.{append-nil}
use hugen.Prelude.{
  ℕ, suc, ◌≡◌, refl, sym, ap, subst, ◌∙◌, ◌⊎◌, inl, inr, ltb, true, false, Option, none, some,
  Option-cases, List, [], ◌∷◌, ◌++◌, Bool-cases, arith,
}
use hugen.Compactor.{HistoryEntry, CompactorState}
use hugen.Compactor.Frames.{
  Payload, user_message, agent_message, tool_result, system_message, subagent_result,
  extension_frame, other_frame, Fate, closed, not_numbered, not_appended, unreported, delivered,
  Frame, EventRow, row_of, frame_to_event_row,
}
use hugen.Compactor.Rows.{project_frame_to_entry, project_row_to_entry}
use hugen.Compactor.Replay.{IsPlain, frame_row, project_row-project_frame}
use hugen.Compactor.Emission.{
  Env, Session, append_boundary, add_tokens, tracked, trimmed, with_entry, on_frame_emit,
  is_streaming_chunk, is_closed, is_stored, is_delivered, max_seq, emit,
}
use hugen.Compactor.Restart.Log.{boundary, max_seq-append}

tracked-history :
    (env : Env) (seq : ℕ) (p : Payload) (s : CompactorState)
    → ((tracked env seq p s).history ≡ s.history) × ((tracked env seq p s).digest ≡ s.digest)
unfolding tracked append_boundary add_tokens
tracked-history env seq (user_message t) s = (refl, refl)
tracked-history env seq (agent_message a) s = (ground arith, ground arith)
tracked-history env seq (tool_result id v) s = (refl, refl)
tracked-history env seq (system_message k t) s = (refl, refl)
tracked-history env seq (subagent_result r) s = (refl, refl)
tracked-history env seq (extension_frame e op t d) s = (refl, refl)
tracked-history env seq (other_frame k t) s = (refl, refl)

tracked-boundary :
    (env : Env) (seq : ℕ) (f : Frame) (p : Payload) (s : CompactorState)
    → (tracked env seq p s).user_message_seqs
      ≡ s.user_message_seqs ++ boundary (row_of seq f p).event_type (row_of seq f p)
unfolding tracked append_boundary add_tokens
tracked-boundary env seq f (user_message t) s = elim (Bool-cases (ltb 0 seq)) [
  | inl e ↦ rw e refl
  | inr e ↦ rw (e, append-nil) refl
]
tracked-boundary env seq f (agent_message a) s = rw append-nil (ground arith)
tracked-boundary env seq f (tool_result id v) s = rw append-nil refl
tracked-boundary env seq f (system_message k t) s = rw append-nil refl
tracked-boundary env seq f (subagent_result r) s = rw append-nil refl
tracked-boundary env seq f (extension_frame e op t d) s = rw append-nil refl
tracked-boundary env seq f (other_frame k t) s = rw append-nil refl

-- What a frame that is persisted does: a row at the end, its boundary and its entry.
pub record Added (env : Env) (f : Frame) (s s' : Session) (row : EventRow) : Type 0 where
  pub log : s'.log ≡ s.log ++ row ∷ []
  pub is_row : row ≡ row_of (suc (max_seq s.log)) f f.payload
  pub seqs : s'.state.user_message_seqs ≡ s.state.user_message_seqs ++ boundary row.event_type row
  pub digest : s'.state.digest ≡ s.state.digest
  pub history :
      s'.state.history
      ≡ (with_entry env
          (project_frame_to_entry env.renderer row.seq f.occurred_at f.payload)
          s.state).history
  pub same :
      IsPlain f.payload
      → project_row_to_entry env.renderer row
        ≡ project_frame_to_entry env.renderer row.seq f.occurred_at f.payload

-- The history by the row.
pub Added-history :
    (env : Env) (f : Frame) (s s' : Session) (row : EventRow)
    → Added env f s s' row
    → IsPlain f.payload
    → s'.state.history ≡ (with_entry env (project_row_to_entry env.renderer row) s.state).history
Added-history env f s s' row a n =
    a.history
    ∙ ap (λ (o : Option HistoryEntry). (with_entry env o s.state).history) (sym (a.same n))

reported : (x : Fate) → is_stored x ≡ true → (is_delivered x ≡ true) ⊎ (x ≡ unreported)
reported closed h = cc
reported not_numbered h = cc
reported not_appended h = cc
reported unreported h = inr refl
reported delivered h = inl refl

with-tracked :
    (env : Env) (o : Option HistoryEntry) (t s : CompactorState)
    → (t.history ≡ s.history) × (t.digest ≡ s.digest)
    → ((with_entry env o t).user_message_seqs ≡ t.user_message_seqs)
      × ((with_entry env o t).digest ≡ s.digest)
      × ((with_entry env o t).history ≡ (with_entry env o s).history)
with-tracked env none t s h = (refl, h.1, h.0)
with-tracked env (some e) t s h =
    (refl, h.1, ap (λ (l : List HistoryEntry). trimmed env (l ++ e ∷ [])) h.0)

pub emit-Added :
    (env : Env) (f : Frame) (s : Session)
    → (((emit env f s).1 ≡ s) × (is_streaming_chunk f.payload ≡ false → (emit env f s).0 ≡ false))
      ⊎ ((row : EventRow) × Added env f s (emit env f s).1 row
          × (((emit env f s).0 ≡ true) ⊎ (f.fate ≡ unreported)))
unfolding emit on_frame_emit
emit-Added env f s = elim (Bool-cases (is_closed f.fate)) [
  | inl c ↦ rw c (inl (refl, λ n. refl))
  | inr c ↦ elim (Bool-cases (is_streaming_chunk f.payload)) [
    | inl chunk ↦ rw (c, chunk) (inl (refl, λ n. cc))
    | inr kept ↦ elim (Bool-cases (is_stored f.fate)) [
      | inr lost ↦ rw (c, kept, lost) (inl (refl, λ n. refl))
      | inl kept_row ↦ elim (Option-cases (frame_to_event_row (suc (max_seq s.log)) f)) [
        | inl n ↦ rw (c, kept, kept_row, n) (inl (refl, λ z. refl))
        | inr (row, e) ↦
            rw (c, kept, kept_row, e) (inr (row, added env f s row e, reported f.fate kept_row))
      ]
    ]
  ]
]
  where
    added :
        (env : Env) (f : Frame) (s : Session) (row : EventRow)
        → frame_to_event_row (suc (max_seq s.log)) f ≡ some row
        → Added env f s
            (record { log = s.log ++ row ∷ []; state = on_frame_emit env row.seq f s.state })
            row
    added env f s row e =
        let seq : ℕ = suc (max_seq s.log) in
        let (v, is_row) = frame_row seq f row e in
        let o : Option HistoryEntry =
          project_frame_to_entry env.renderer row.seq f.occurred_at f.payload in
        let (seqs, digest, history) =
          with-tracked env o (tracked env row.seq f.payload s.state) s.state
            (tracked-history env row.seq f.payload s.state) in
        record {
          log = refl;
          is_row = is_row;
          seqs =
              seqs
              ∙ subst
                  (λ (x : EventRow).
                    (tracked env x.seq f.payload s.state).user_message_seqs
                    ≡ s.state.user_message_seqs ++ boundary x.event_type x)
                  (sym is_row) (tracked-boundary env seq f f.payload s.state);
          digest = digest;
          history = history;
          same = λ n.
              project_row-project_frame env.renderer seq f row e n
              ∙ ap
                  (λ (x : EventRow).
                    project_frame_to_entry env.renderer x.seq f.occurred_at f.payload)
                  (sym is_row);
        }

pub Added-seq :
    (env : Env) (f : Frame) (s s' : Session) (row : EventRow)
    → Added env f s s' row
    → row.seq ≡ suc (max_seq s.log)
Added-seq env f s s' row a = ap (λ (x : EventRow). x.seq) a.is_row

pub Added-max :
    (env : Env) (f : Frame) (s s' : Session) (row : EventRow)
    → Added env f s s' row
    → max_seq s'.log ≡ suc (max_seq s.log)
Added-max env f s s' row a =
    let e = Added-seq env f s s' row a in
    ap max_seq a.log ∙ max_seq-append s.log row (omega arith) ∙ e

tracked-marks :
    (env : Env) (seq : ℕ) (p : Payload) (s : CompactorState)
    → ((tracked env seq p s).checkpoints ≡ s.checkpoints)
      × ((tracked env seq p s).last_checkpoint_seq ≡ s.last_checkpoint_seq)
unfolding tracked append_boundary add_tokens
tracked-marks env seq (user_message t) s = (refl, refl)
tracked-marks env seq (agent_message a) s = (ground arith, ground arith)
tracked-marks env seq (tool_result id v) s = (refl, refl)
tracked-marks env seq (system_message k t) s = (refl, refl)
tracked-marks env seq (subagent_result r) s = (refl, refl)
tracked-marks env seq (extension_frame e op t d) s = (refl, refl)
tracked-marks env seq (other_frame k t) s = (refl, refl)

with_entry-marks :
    (env : Env) (o : Option HistoryEntry) (s : CompactorState)
    → ((with_entry env o s).checkpoints ≡ s.checkpoints)
      × ((with_entry env o s).last_checkpoint_seq ≡ s.last_checkpoint_seq)
with_entry-marks env none s = (refl, refl)
with_entry-marks env (some e) s = (refl, refl)

-- A frame does not touch the checkpoints.
pub emit-marks :
    (env : Env) (f : Frame) (s : Session)
    → ((emit env f s).1.state.checkpoints ≡ s.state.checkpoints)
      × ((emit env f s).1.state.last_checkpoint_seq ≡ s.state.last_checkpoint_seq)
unfolding emit on_frame_emit
emit-marks env f s = elim (Bool-cases (is_closed f.fate)) [
  | inl c ↦ rw c (refl, refl)
  | inr c ↦ elim (Bool-cases (is_streaming_chunk f.payload)) [
    | inl chunk ↦ rw (c, chunk) (refl, refl)
    | inr kept ↦ elim (Bool-cases (is_stored f.fate)) [
      | inr lost ↦ rw (c, kept, lost) (refl, refl)
      | inl kept_row ↦ elim (Option-cases (frame_to_event_row (suc (max_seq s.log)) f)) [
        | inl n ↦ rw (c, kept, kept_row, n) (refl, refl)
        | inr (row, e) ↦
            (let t = tracked-marks env row.seq f.payload s.state in
              let w =
                with_entry-marks env
                  (project_frame_to_entry env.renderer row.seq f.occurred_at f.payload)
                  (tracked env row.seq f.payload s.state) in
              rw (c, kept, kept_row, e) (w.0 ∙ t.0, w.1 ∙ t.1))
      ]
    ]
  ]
]
