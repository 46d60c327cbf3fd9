-- ===== src/Compactor/Segments/Calls.antt =====
-- The calls on checkpoints keep every segment closed.
use hugen.Prelude.{
  ℕ, ◌≤◌, ◌≡◌, refl, sym, subst, ap, inl, inr, Bool, true, false, Option, none, some, Option-cases,
  List, [], Bool-cases, arith, All-append,
}
use hugen.Prelude.Text.{Text, text_eq, trim_space}
use hugen.Compactor.{
  HistoryEntry, Checkpoint, CompactorState, history_max_seq, compute_preamble_floor, preamble_floor,
  segment_tokens,
}
use hugen.Compactor.Checkpoints.{
  set_checkpoint_hidden, find_checkpoint, segment_of, segment_entries, add_checkpoint,
  rollback_from, Summarizer, CallReply, marked_reply, rollback_reply, call_checkpoint, call_hide,
  call_expand, call_rollback,
}
use hugen.Compactor.Hiding.{set_checkpoint_hidden-mark, max-le}
use hugen.Compactor.Segments.{
  IsClosed, Behind-weaken, UpTo-restored, Behind-survivors, Behind-find, Behind-mark,
}

preamble_floor-same :
    (es : List HistoryEntry) (s : CompactorState)
    → (o : Option ℕ) × ((preamble_floor es s).1 ≡ record s { preamble_floor = o })
unfolding preamble_floor
preamble_floor-same es s = elim (Option-cases s.preamble_floor) [
  | inr (floor, e) ↦ (some floor, rw (e, preamble_floor) (remembered (some floor) s e))
  | inl n ↦ elim (Option-cases (compute_preamble_floor es)) [
    | inl m ↦ (none, rw (n, preamble_floor, m) (remembered none s n))
    | inr (floor, m) ↦ (some floor, rw (n, preamble_floor, m) refl)
  ]
]
  where
    remembered :
        (o : Option ℕ) (s : CompactorState)
        → s.preamble_floor ≡ o
        → s ≡ record s { preamble_floor = o }
    remembered o s e = ap (λ (p : Option ℕ). record s { preamble_floor = p }) e

floor-IsClosed :
    (n : ℕ) (es : List HistoryEntry) (s : CompactorState)
    → IsClosed n s
    → IsClosed n (preamble_floor es s).1
floor-IsClosed n es s i =
    let (o, e) = preamble_floor-same es s in
    subst (IsClosed n) (sym e) (record { segments = i.segments; last = i.last; owned = i.owned })

entries-IsClosed :
    (n : ℕ) (id : Text) (s : CompactorState) → IsClosed n s → IsClosed n (segment_entries id s).1
unfolding segment_entries
entries-IsClosed n id s i = elim (Option-cases (segment_of id 0 s.checkpoints)) [
  | inl e ↦ rw (e, segment_entries) i
  | inr (w, e) ↦ rw (e, segment_entries) (floor-IsClosed n s.history s i)
]

hidden-IsClosed :
    (n : ℕ) (id : Text) (hidden : Bool) (note : Text) (s : CompactorState)
    → IsClosed n s
    → IsClosed n (set_checkpoint_hidden id hidden note s).1
hidden-IsClosed n id hidden note s i =
    subst (IsClosed n) (sym (set_checkpoint_hidden-mark id hidden note s)) (record {
      segments = Behind-mark s.last_checkpoint_seq id hidden note s.checkpoints i.segments;
      last = i.last;
      owned = i.owned;
    })

marked_reply-state :
    (reply : Text → CallReply) (o : Option Checkpoint) (s : CompactorState)
    → (marked_reply reply (o, s)).1 ≡ s
marked_reply-state reply none s = refl
marked_reply-state reply (some cp) s = refl

rollback_reply-state :
    (id : Text) (o : Option ℕ) (s : CompactorState) → (rollback_reply id (o, s)).1 ≡ s
rollback_reply-state id none s = refl
rollback_reply-state id (some d) s = refl

pub call_hide-IsClosed :
    (n : ℕ) (summarize : Summarizer) (id note : Text) (s : CompactorState)
    → IsClosed n s
    → IsClosed n (call_hide summarize id note s).1
unfolding call_hide
call_hide-IsClosed n summarize id note s i = elim (Bool-cases (text_eq (trim_space id) [])) [
  | inl b ↦ rw b i
  | inr b ↦ rw b (
      subst (IsClosed n) (sym (marked_reply-state _ _ _))
        (hidden-IsClosed n _ true _ _ (entries-IsClosed n (trim_space id) s i)))
]

pub call_expand-IsClosed :
    (n : ℕ) (id : Text) (s : CompactorState) → IsClosed n s → IsClosed n (call_expand id s).1
unfolding call_expand
call_expand-IsClosed n id s i = elim (Bool-cases (text_eq (trim_space id) [])) [
  | inl b ↦ rw b i
  | inr b ↦ rw b (
      subst (IsClosed n) (sym (marked_reply-state _ _ _))
        (hidden-IsClosed n (trim_space id) false [] s i))
]

rollback_from-IsClosed :
    (n : ℕ) (id : Text) (s : CompactorState) → IsClosed n s → IsClosed n (rollback_from id s).1
unfolding rollback_from
rollback_from-IsClosed n id s i = elim (Option-cases (find_checkpoint id s.checkpoints)) [
  | inl e ↦ rw (e, rollback_from) i
  | inr (cp, e) ↦
      (let b = Behind-find s.last_checkpoint_seq id s.checkpoints cp i.segments e in
        let l = i.last in
        rw (e, rollback_from)
          (record {
            segments = Behind-survivors cp.seq s.checkpoints;
            last = omega arith;
            owned = UpTo-restored n cp.seq (history_max_seq s.history) s.history i.owned;
          }))
]

pub call_rollback-IsClosed :
    (n : ℕ) (id note : Text) (s : CompactorState)
    → IsClosed n s
    → IsClosed n (call_rollback id note s).1
unfolding call_rollback
call_rollback-IsClosed n id note s i = elim (Bool-cases (text_eq (trim_space id) [])) [
  | inl b ↦ rw b i
  | inr b ↦ rw b (elim (Bool-cases (text_eq (trim_space note) [])) [
    | inl c ↦ rw c i
    | inr c ↦ rw c (
        subst (IsClosed n) (sym (rollback_reply-state _ _ _))
          (rollback_from-IsClosed n (trim_space id) s i))
  ])
]

-- A checkpoint is stamped at the head, which the entry of its call has raised.
add_checkpoint-IsClosed :
    (n : ℕ) (description : Text) (s : CompactorState)
    → s.last_checkpoint_seq ≤ history_max_seq s.history
    → IsClosed n s
    → IsClosed n (add_checkpoint description s).1
unfolding add_checkpoint segment_tokens
add_checkpoint-IsClosed n description s h i =
    let (o, e) = preamble_floor-same s.history s in
    let head = max-le n s.history i.owned in
    rw e (record {
      segments =
          All-append (λ (cp : Checkpoint). cp.seq ≤ history_max_seq s.history) s.checkpoints _
            (Behind-weaken _ _ s.checkpoints h i.segments) (omega arith, tt);
      last = head;
      owned = i.owned;
    })

pub call_checkpoint-IsClosed :
    (n : ℕ) (description : Text) (s : CompactorState)
    → s.last_checkpoint_seq ≤ history_max_seq s.history
    → IsClosed n s
    → IsClosed n (call_checkpoint description s).1
unfolding call_checkpoint
call_checkpoint-IsClosed n description s h i = add_checkpoint-IsClosed n _ s h i
