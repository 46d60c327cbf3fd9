-- ===== src/Compactor/Segments/Open.antt =====
-- Runs of a session whose model works with checkpoints.
use hugen.Prelude.{
  ℕ, ◌≤◌, ◌<◌, ◌≡◌, refl, sym, ap, subst, ◌∙◌, inl, inr, true, Option, some, Option-cases, List, [],
  ◌∷◌, ◌++◌, if◌then◌else◌, Bool-cases, arith, All, All-append,
}
use hugen.Prelude.Text.{Text}
use hugen.Compactor.{HistoryEntry, CompactorState, history_max_seq, rollback_to}
use hugen.Compactor.Digests.{Digest, new_cutoff}
use hugen.Compactor.Frames.{AgentMessage, agent_message, Frame, EventRow}
use hugen.Compactor.Rows.{project_frame_to_entry}
use hugen.Compactor.Recovery.{new_session}
use hugen.Compactor.Emission.{Env, Session, max_seq, emit}
use hugen.Compactor.Compaction.{should_compact, Answers, stored, built, compact, on_turn_boundary}
use hugen.Compactor.Checkpoints.{Summarizer, call_checkpoint, call_hide, call_expand, call_rollback}
use hugen.Compactor.History.{Format, provide_history}
use hugen.Compactor.Hiding.{le-max}
use hugen.Compactor.Emitted.{Added, Added-seq, Added-max, emit-Added, emit-marks}
use hugen.Compactor.Restart.Log.{listed, frame_seq}
use hugen.Compactor.Restart.{keeps, with_entry-listed}
use hugen.Compactor.Restart.Cuts.{set_frame}
use hugen.Compactor.Segments.{
  UpTo, IsClosed, UpTo-weaken, prune_to_cutoff-IsClosed, rollback_to-IsClosed,
}
use hugen.Compactor.Segments.Calls.{
  call_checkpoint-IsClosed, call_hide-IsClosed, call_expand-IsClosed, call_rollback-IsClosed,
}
use hugen.Compactor.Segments.Shown.{EndsWith, provide_history-EndsWith}

-- A frame; the end of a turn; the tools, where the assistant's message that asks for a checkpoint has
-- been emitted before it; and a turn that is cancelled.
pub data Action : Type 0 where
  says : Frame → Action
  ends_turn : Answers → Frame → Action
  stamps : Frame → AgentMessage → Text → Action
  sheds : Text → Text → Action
  restores : Text → Action
  rewinds : Text → Text → Action
  cancels : ℕ → Action

abbrev on_state : (CompactorState → CompactorState) → Session → Session
on_state f s = record s { state = f s.state }

abbrev asking : Frame → AgentMessage → Frame
asking f a = record f { payload = agent_message (record a { consolidated = true }) }

unfoldable pub act : Env → Summarizer → Action → Session → Session
unfolding emit on_turn_boundary call_checkpoint call_hide call_expand call_rollback rollback_to
act env brief (says f) s = (emit env f s).1
act env brief (ends_turn a f) s = on_turn_boundary env a f s
act env brief (stamps f a description) s =
    let (sent, s') = emit env (asking f a) s in
    if sent then on_state (λ t. (call_checkpoint description t).1) s' else s'
act env brief (sheds id note) s = on_state (λ t. (call_hide brief id note t).1) s
act env brief (restores id) s = on_state (λ t. (call_expand id t).1) s
act env brief (rewinds id note) s = on_state (λ t. (call_rollback id note t).1) s
act env brief (cancels seq) s = on_state (rollback_to seq) s

-- The actions, the newest first.
unfoldable pub acts : Env → Summarizer → List Action → Session
unfolding act
acts env brief [] = new_session
acts env brief (a ∷ older) = act env brief a (acts env brief older)

abbrev IsGood : Session → Type 0
IsGood s = IsClosed (max_seq s.log) s.state

UpTo-equal : (n : ℕ) (es : List HistoryEntry) → All (λ (e : HistoryEntry). e.seq ≡ n) es → UpTo n es
UpTo-equal n [] h = tt
UpTo-equal n (e ∷ es) h = (omega arith, UpTo-equal n es h.1)

asking-shown :
    (env : Env) (seq : ℕ) (f : Frame) (g : AgentMessage)
    → (e : HistoryEntry) × (project_frame_to_entry env.renderer seq f.occurred_at
          (asking f g).payload
        ≡ some e)
unfolding project_frame_to_entry
asking-shown env seq f g = (_, refl)

listed-seq :
    (env : Env) (seq : ℕ) (f : Frame)
    → All
        (λ (e : HistoryEntry). e.seq ≡ seq)
        (listed (project_frame_to_entry env.renderer seq f.occurred_at f.payload))
listed-seq env seq f =
    elim (Option-cases (project_frame_to_entry env.renderer seq f.occurred_at f.payload)) [
      | inl n ↦ rw n tt
      | inr (e, h) ↦ rw h (frame_seq env.renderer seq f.occurred_at f.payload e h, tt)
    ]

-- The entry that asks for a checkpoint is the head.
head_raised :
    (last seq : ℕ) (old es : List HistoryEntry) (e : HistoryEntry)
    → es ≡ old ++ e ∷ []
    → e.seq ≡ seq
    → last < seq
    → last ≤ history_max_seq es
head_raised last seq old es e h q l =
    let m : e.seq ≤ history_max_seq es =
      subst (λ (x : List HistoryEntry). e.seq ≤ history_max_seq x) (sym h) (le-max old [] e) in
    omega arith

module _ (env : Env) (k : keeps env.strategy ≡ true) where
  Added-history :
      (f : Frame) (s s' : Session) (row : EventRow)
      → Added env f s s' row
      → s'.state.history
        ≡ s.state.history
          ++ listed (project_frame_to_entry env.renderer row.seq f.occurred_at f.payload)
  Added-history f s s' row a = a.history ∙ with_entry-listed env _ s.state k

  added-IsGood :
      (f : Frame) (s : Session) (row : EventRow)
      → Added env f s (emit env f s).1 row
      → IsGood s
      → IsGood (emit env f s).1
  added-IsGood f s row a i =
      let s' : Session = (emit env f s).1 in
      let (cps, last) = emit-marks env f s in
      let m = Added-max env f s s' row a in
      let q = Added-seq env f s s' row a in
      let l = i.last in
      record {
        segments = rw (cps, last) i.segments;
        last = omega arith;
        owned = subst (UpTo (max_seq s'.log)) (sym (Added-history f s s' row a)) (
            All-append (λ (e : HistoryEntry). e.seq ≤ max_seq s'.log) s.state.history _
              (UpTo-weaken (max_seq s.log) (max_seq s'.log) s.state.history (omega arith) i.owned)
              (UpTo-weaken row.seq (max_seq s'.log) _ (omega arith)
                (UpTo-equal row.seq _ (listed-seq env row.seq f))));
      }

  emit-IsGood : (f : Frame) (s : Session) → IsGood s → IsGood (emit env f s).1
  emit-IsGood f s i = elim (emit-Added env f s) [
    | inl (same, unsent) ↦ subst IsGood (sym same) i
    | inr (row, added, sent) ↦ added-IsGood f s row added i
  ]

  stored-IsGood :
      (f : Frame) (d : Digest) (s : Session) → IsGood s → IsGood (stored env f (some d) s)
  stored-IsGood f d s i =
      let j = emit-IsGood (set_frame env f d) s i in
      elim (Bool-cases (emit env (set_frame env f d) s).0) [
        | inr b ↦ rw b j
        | inl b ↦ rw b (
            prune_to_cutoff-IsClosed (max_seq (emit env (set_frame env f d) s).1.log) d.cutoff_seq _
              (record { segments = j.segments; last = j.last; owned = j.owned }))
      ]

  compact-IsGood : (a : Answers) (f : Frame) (s : Session) → IsGood s → IsGood (compact env a f s)
  unfolding compact
  compact-IsGood a f s i =
      elim (Option-cases (new_cutoff env.config s.state.user_message_seqs s.state.digest)) [
        | inl n ↦ rw (n, compact) i
        | inr (c, e) ↦
            rw (e, compact)
              (elim (Option-cases (built env a c s)) [
                | inl n ↦ rw n i
                | inr (d, b) ↦ rw b (stored-IsGood f d s i)
              ])
      ]

  stamps-IsGood :
      (f : Frame) (g : AgentMessage) (description : Text) (s : Session) (row : EventRow)
      → Added env (asking f g) s (emit env (asking f g) s).1 row
      → IsGood s
      → IsGood (on_state (λ t. (call_checkpoint description t).1) (emit env (asking f g) s).1)
  stamps-IsGood f g description s row a i =
      let s' : Session = (emit env (asking f g) s).1 in
      let (e, here) = asking-shown env row.seq f g in
      let old : s'.state.last_checkpoint_seq ≡ s.state.last_checkpoint_seq =
        (emit-marks env (asking f g) s).1 in
      let l = i.last in
      let q = Added-seq env (asking f g) s s' row a in
      call_checkpoint-IsClosed (max_seq s'.log) description s'.state
        (head_raised s'.state.last_checkpoint_seq row.seq s.state.history s'.state.history e
          (Added-history (asking f g) s s' row a
            ∙ ap (λ (o : Option HistoryEntry). s.state.history ++ listed o) here)
          (subst
            (λ (o : Option HistoryEntry). All (λ (x : HistoryEntry). x.seq ≡ row.seq) (listed o))
            here (listed-seq env row.seq (asking f g))).0
          (omega arith))
        (added-IsGood (asking f g) s row a i)

  act-IsGood :
      (brief : Summarizer) (x : Action) (s : Session) → IsGood s → IsGood (act env brief x s)
  unfolding act on_turn_boundary
  act-IsGood brief (says f) s i = emit-IsGood f s i
  act-IsGood brief (ends_turn a f) s i = elim (Bool-cases (should_compact env s.state)) [
    | inl t ↦ rw t (compact-IsGood a f s i)
    | inr t ↦ rw t i
  ]
  act-IsGood brief (stamps f g description) s i = elim (emit-Added env (asking f g) s) [
    | inl (same, unsent) ↦ rw (unsent refl) (subst IsGood (sym same) i)
    | inr (row, added, outcome) ↦ elim (Bool-cases (emit env (asking f g) s).0) [
      | inl sent ↦ rw sent (stamps-IsGood f g description s row added i)
      | inr unsent ↦ rw unsent (added-IsGood (asking f g) s row added i)
    ]
  ]
  act-IsGood brief (sheds id note) s i = call_hide-IsClosed (max_seq s.log) brief id note s.state i
  act-IsGood brief (restores id) s i = call_expand-IsClosed (max_seq s.log) id s.state i
  act-IsGood brief (rewinds id note) s i = call_rollback-IsClosed (max_seq s.log) id note s.state i
  act-IsGood brief (cancels seq) s i = rollback_to-IsClosed (max_seq s.log) seq s.state i

  acts-IsGood : (brief : Summarizer) (actions : List Action) → IsGood (acts env brief actions)
  unfolding acts
  acts-IsGood brief [] = record { segments = tt; last = omega arith; owned = tt }
  acts-IsGood brief (x ∷ older) =
      act-IsGood brief x (acts env brief older) (acts-IsGood brief older)

  -- Where no window is kept, after any frames, turn ends with what they compact, checkpoints, hidings,
  -- expansions, rollbacks and cancelled turns, whatever fails of them: what the model sees ends with
  -- any end of the owned history that is behind the last checkpoint, unchanged.
  pub open_segment-shown :
      (sprintf : Format) (brief : Summarizer) (actions : List Action)
      (before later : List HistoryEntry)
      → (acts env brief actions).state.history ≡ before ++ later
      → All (λ (e : HistoryEntry). (acts env brief actions).state.last_checkpoint_seq < e.seq) later
      → EndsWith later (provide_history sprintf (acts env brief actions).state).0
  open_segment-shown sprintf brief actions before later h behind =
      provide_history-EndsWith sprintf (acts env brief actions).state before later
        (acts-IsGood brief actions).segments h behind
