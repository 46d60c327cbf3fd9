-- ===== src/Compactor/Restart.antt =====
-- The state of the compactor after a restart, against the live session's.
pub mod Log
pub mod Cuts
pub mod Run
pub mod Windowed
use mathlib.Core.List.{append-nil}
use hugen.Prelude.{
  ℕ, suc, ◌≤◌, ◌<◌, ◌≡◌, refl, sym, ap, subst, ◌∙◌, ◌⊎◌, inl, inr, ltb, leb, Bool, true, false, not,
  Option, none, some, Option-cases, List, [], ◌∷◌, ◌++◌, if◌then◌else◌, Bool-cases, arith, All,
  All-append, get_elem?,
}
use hugen.Prelude.Text.{Text, codes, text_eq}
use hugen.Compactor.{HistoryEntry, CompactorState, past, prune_to_cutoff, prune_window}
use hugen.Compactor.Digests.{
  Digest, Config, cutoff_of, new_cutoff, next_digest, capped, current_payload_version,
}
use hugen.Compactor.Frames.{
  Payload, user_message, agent_message, tool_result, system_message, subagent_result,
  extension_frame, other_frame, Frame, EventRow, row_of, frame_to_event_row, metadata_of, Kind,
  kind_user, kind_agent, kind_tool_result, kind_system, kind_subagent_result, kind_extension,
  kind_other,
}
use hugen.Compactor.Rows.{
  Renderer, project_frame_to_entry, project_row_to_entry, metadata_string, metadata_bool,
}
use hugen.Compactor.Replay.{frame_row, project_row-project_frame}
use hugen.Compactor.Recovery.{
  Op, sets, clears, ignored, applied, op_of_kind, latest_from, recover, reset,
}
use hugen.Compactor.Emission.{
  off, window, summarize, Strategy, Env, Session, append_boundary, add_tokens, tracked, trim,
  trimmed, with_entry, on_frame_emit, is_streaming_chunk, max_seq, persisted, emit,
}
use hugen.Compactor.Compaction.{
  should_compact, Answers, provider_name, stored, built, compact, on_turn_boundary,
}
use hugen.Compactor.Restart.Log.{
  listed, entries, boundary, boundaries, entries-append, boundaries-append, latest-append,
  max_seq-append, past-entries, recover-history, recover-boundaries, recover-digest,
}
use hugen.Compactor.Replay.{IsPlain}
use hugen.Compactor.Emitted.{Added, Added-history, Added-seq, Added-max}

-- A frame that is not the compactor's own.
abbrev pub IsForeign : Payload → Type 0
IsForeign (extension_frame e op t d) = text_eq e provider_name ≡ false
IsForeign (user_message t) = Unit
IsForeign (agent_message a) = Unit
IsForeign (tool_result id v) = Unit
IsForeign (system_message k t) = Unit
IsForeign (subagent_result r) = Unit
IsForeign (other_frame k t) = Unit

foreign_op :
    (seq : ℕ) (f : Frame) (p : Payload)
    → IsForeign p
    → op_of_kind (row_of seq f p).event_type (row_of seq f p) ≡ ignored
unfolding metadata_of metadata_string text_eq
foreign_op seq f (user_message t) h = refl
foreign_op seq f (agent_message a) h = refl
foreign_op seq f (tool_result id v) h = refl
foreign_op seq f (system_message k t) h = refl
foreign_op seq f (subagent_result r) h = refl
foreign_op seq f (extension_frame e op t d) h = rw h refl
foreign_op seq f (other_frame k t) h = refl

-- Nothing is trimmed as entries arrive.
abbrev pub keeps : Strategy → Bool
keeps off = true
keeps summarize = true
keeps window = false

pub trim-keeps :
    (st : Strategy) (n : ℕ) (es : List HistoryEntry) → keeps st ≡ true → trim st n es ≡ es
trim-keeps off n es h = refl
trim-keeps summarize n es h = refl
trim-keeps window n es h = cc

-- The live state is what a restart reads from the log.
pub record InSync (env : Env) (s : Session) : Type 0 where
  pub digest : s.state.digest ≡ latest_from none s.log
  pub seqs : s.state.user_message_seqs ≡ boundaries s.log
  pub history : s.state.history ≡ entries env.renderer (cutoff_of s.state.digest) s.log
  pub cut_bound : cutoff_of s.state.digest ≤ max_seq s.log
  pub seq_bound : All (λ (b : ℕ). b ≤ max_seq s.log) s.state.user_message_seqs

entries-one :
    (r : Renderer) (cutoff : ℕ) (row : EventRow)
    → cutoff < row.seq
    → entries r cutoff (row ∷ []) ≡ listed (project_row_to_entry r row)
unfolding entries
entries-one r cutoff row h =
    let e : leb row.seq cutoff ≡ false = ground arith in rw (e, append-nil) refl

boundaries-one : (row : EventRow) → boundaries (row ∷ []) ≡ boundary row.event_type row
unfolding boundaries
boundaries-one row = rw append-nil refl

pub with_entry-listed :
    (env : Env) (o : Option HistoryEntry) (s : CompactorState)
    → keeps env.strategy ≡ true
    → (with_entry env o s).history ≡ s.history ++ listed o
with_entry-listed env none s k = rw append-nil refl
with_entry-listed env (some e) s k = trim-keeps env.strategy env.window_size _ k

boundary-le :
    (k : Kind) (row : EventRow) (n : ℕ) → row.seq ≤ n → All (λ (b : ℕ). b ≤ n) (boundary k row)
boundary-le kind_user row n h = elim (Bool-cases (ltb 0 row.seq)) [
  | inl e ↦ rw e (h, tt)
  | inr e ↦ rw e tt
]
boundary-le kind_agent row n h = tt
boundary-le kind_tool_result row n h = tt
boundary-le kind_system row n h = tt
boundary-le kind_subagent_result row n h = tt
boundary-le kind_extension row n h = tt
boundary-le (kind_other k) row n h = tt

All-weaken : (a b : ℕ) (l : List ℕ) → a ≤ b → All (λ (x : ℕ). x ≤ a) l → All (λ (x : ℕ). x ≤ b) l
All-weaken a b [] h t = tt
All-weaken a b (x ∷ l) h t = (omega arith, All-weaken a b l h t.1)

module _ (env : Env) (k : keeps env.strategy ≡ true) (f : Frame) (s s' : Session) (row : EventRow)
    (a : Added env f s s' row) (i : InSync env s) where
  pub next_seq : row.seq ≡ suc (max_seq s.log)
  next_seq = Added-seq env f s s' row a

  pub next_max : max_seq s'.log ≡ suc (max_seq s.log)
  next_max = Added-max env f s s' row a

  pub next_boundaries : s'.state.user_message_seqs ≡ boundaries s'.log
  next_boundaries =
      a.seqs
      ∙ ap (λ (l : List ℕ). l ++ boundary row.event_type row) i.seqs
      ∙ ap (λ (l : List ℕ). boundaries s.log ++ l) (sym (boundaries-one row))
      ∙ sym (boundaries-append s.log (row ∷ []))
      ∙ ap boundaries (sym a.log)

  pub next_history :
      IsPlain f.payload → s'.state.history ≡ entries env.renderer (cutoff_of s.state.digest) s'.log
  next_history plain =
      let c : ℕ = cutoff_of s.state.digest in
      let later : c < row.seq = (let e = next_seq in let b = i.cut_bound in omega arith) in
      let o : Option HistoryEntry = project_row_to_entry env.renderer row in
      Added-history env f s s' row a plain
      ∙ with_entry-listed env o s.state k
      ∙ ap (λ (l : List HistoryEntry). l ++ listed o) i.history
      ∙ ap (λ (l : List HistoryEntry). entries env.renderer c s.log ++ l)
          (sym (entries-one env.renderer c row later))
      ∙ sym (entries-append env.renderer c s.log (row ∷ []))
      ∙ ap (entries env.renderer c) (sym a.log)

  pub next_seq_bound : All (λ (b : ℕ). b ≤ max_seq s'.log) s'.state.user_message_seqs
  next_seq_bound =
      let e = next_max in
      let n = next_seq in
      subst (All (λ (b : ℕ). b ≤ max_seq s'.log)) (sym a.seqs) (
        All-append (λ (b : ℕ). b ≤ max_seq s'.log) s.state.user_message_seqs
          (boundary row.event_type row)
          (All-weaken (max_seq s.log) (max_seq s'.log) s.state.user_message_seqs (omega arith)
            i.seq_bound)
          (boundary-le row.event_type row (max_seq s'.log) (omega arith)))

  pub next_latest :
      latest_from none s'.log ≡ applied (op_of_kind row.event_type row) (latest_from none s.log)
  next_latest = ap (latest_from none) a.log ∙ latest-append none s.log row

  pub foreign-InSync : IsForeign f.payload → IsPlain f.payload → InSync env s'
  foreign-InSync foreign plain =
      let ours : op_of_kind row.event_type row ≡ ignored =
        subst (λ (x : EventRow). op_of_kind x.event_type x ≡ ignored) (sym a.is_row)
          (foreign_op (suc (max_seq s.log)) f f.payload foreign) in
      let m = next_max in
      let b = i.cut_bound in
      record {
        digest =
            a.digest
            ∙ i.digest
            ∙ sym (next_latest ∙ ap (λ (o : Op). applied o (latest_from none s.log)) ours);
        seqs = next_boundaries;
        history =
            next_history plain
            ∙ ap (λ (d : Option Digest). entries env.renderer (cutoff_of d) s'.log) (sym a.digest);
        cut_bound =
            subst (λ (d : Option Digest). cutoff_of d ≤ max_seq s'.log) (sym a.digest)
              (omega arith);
        seq_bound = next_seq_bound;
      }
