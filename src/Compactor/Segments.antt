-- ===== src/Compactor/Segments.antt =====
-- The segments that checkpoints close, and the open one behind the last of them.
pub mod Calls
pub mod Shown
pub mod Open
use hugen.Prelude.{
  ℕ, suc, ◌≤◌, ◌<◌, ◌≡◌, refl, sym, ap, subst, ◌∙◌, inl, inr, ltb, leb, Bool, true, false, ◌||◌,
  Option, none, some, Option-cases, List, [], ◌∷◌, ◌++◌, Bool-cases, arith, All, All-append,
}
use hugen.Prelude.Text.{Text, text_eq, trim_space}
use hugen.Compactor.{
  HistoryEntry, Checkpoint, CompactorState, history_max_seq, up_to, past, rollback_to,
  prune_to_cutoff, compute_preamble_floor, preamble_floor, segment_tokens,
}
use hugen.Compactor.Checkpoints.{
  marked, set_checkpoint_hidden, find_checkpoint, segment_of, segment_entries, add_checkpoint,
  restored, survivors, rollback_from, Summarizer, CallReply, brief_of, marked_reply, rollback_reply,
  call_checkpoint, call_hide, call_expand, call_rollback,
}
use hugen.Compactor.Hiding.{mark, set_checkpoint_hidden-mark, max-le}

abbrev pub UpTo : ℕ → List HistoryEntry → Type 0
UpTo n es = All (λ (e : HistoryEntry). e.seq ≤ n) es

abbrev pub Behind : ℕ → List Checkpoint → Type 0
Behind n cps = All (λ (cp : Checkpoint). cp.seq ≤ n) cps

-- Every checkpoint is at or before the last one, and nothing is beyond the number `n`.
pub record IsClosed (n : ℕ) (s : CompactorState) : Type 0 where
  pub segments : Behind s.last_checkpoint_seq s.checkpoints
  pub last : s.last_checkpoint_seq ≤ n
  pub owned : UpTo n s.history

pub UpTo-weaken : (a b : ℕ) (es : List HistoryEntry) → a ≤ b → UpTo a es → UpTo b es
UpTo-weaken a b [] h t = tt
UpTo-weaken a b (e ∷ es) h t = (omega arith, UpTo-weaken a b es h t.1)

pub Behind-weaken : (a b : ℕ) (cps : List Checkpoint) → a ≤ b → Behind a cps → Behind b cps
Behind-weaken a b [] h t = tt
Behind-weaken a b (c ∷ cs) h t = (omega arith, Behind-weaken a b cs h t.1)

UpTo-past : (n cutoff : ℕ) (es : List HistoryEntry) → UpTo n es → UpTo n (past cutoff es)
unfolding past
UpTo-past n cutoff [] h = tt
UpTo-past n cutoff (e ∷ es) h = elim (Bool-cases (ltb cutoff e.seq)) [
  | inl b ↦ rw b (h.0, UpTo-past n cutoff es h.1)
  | inr b ↦ rw b (UpTo-past n cutoff es h.1)
]

UpTo-up_to : (n seq : ℕ) (es : List HistoryEntry) → UpTo n es → UpTo n (up_to seq es)
unfolding up_to
UpTo-up_to n seq [] h = tt
UpTo-up_to n seq (e ∷ es) h = elim (Bool-cases (leb e.seq seq)) [
  | inl b ↦ rw b (h.0, UpTo-up_to n seq es h.1)
  | inr b ↦ rw b (UpTo-up_to n seq es h.1)
]

pub UpTo-restored :
    (n seq head : ℕ) (es : List HistoryEntry) → UpTo n es → UpTo n (restored seq head es).0
unfolding restored
UpTo-restored n seq head [] h = tt
UpTo-restored n seq head (e ∷ es) h = elim (Bool-cases (leb e.seq seq || leb head e.seq)) [
  | inl b ↦ rw b (h.0, UpTo-restored n seq head es h.1)
  | inr b ↦ rw b (UpTo-restored n seq head es h.1)
]

pub Behind-survivors : (seq : ℕ) (cps : List Checkpoint) → Behind seq (survivors seq cps)
unfolding survivors
Behind-survivors seq [] = tt
Behind-survivors seq (c ∷ cs) = elim (Bool-cases (leb c.seq seq)) [
  | inl b ↦ rw b (ground arith, Behind-survivors seq cs)
  | inr b ↦ rw b (Behind-survivors seq cs)
]

pub Behind-find :
    (n : ℕ) (id : Text) (cps : List Checkpoint) (cp : Checkpoint)
    → Behind n cps
    → find_checkpoint id cps ≡ some cp
    → cp.seq ≤ n
unfolding find_checkpoint
Behind-find n id [] cp h e = cc
Behind-find n id (c ∷ cs) cp h e = elim (Bool-cases (text_eq c.id id)) [
  | inl b ↦ (let e' = rw b at e in ground arith)
  | inr b ↦ Behind-find n id cs cp h.1 (rw b at e)
]

pub Behind-mark :
    (n : ℕ) (id : Text) (hidden : Bool) (note : Text) (cps : List Checkpoint)
    → Behind n cps
    → Behind n (mark id hidden note cps)
unfolding mark
Behind-mark n id hidden note [] h = tt
Behind-mark n id hidden note (c ∷ cs) h = elim (Bool-cases (text_eq c.id id)) [
  | inl b ↦ rw b (h.0, h.1)
  | inr b ↦ rw b (h.0, Behind-mark n id hidden note cs h.1)
]

pub prune_to_cutoff-IsClosed :
    (n cutoff : ℕ) (s : CompactorState) → IsClosed n s → IsClosed n (prune_to_cutoff cutoff s)
unfolding prune_to_cutoff
prune_to_cutoff-IsClosed n cutoff s i = record {
  segments = i.segments;
  last = i.last;
  owned = UpTo-past n cutoff s.history i.owned;
}

pub rollback_to-IsClosed :
    (n seq : ℕ) (s : CompactorState) → IsClosed n s → IsClosed n (rollback_to seq s)
unfolding rollback_to
rollback_to-IsClosed n seq s i = record {
  segments = i.segments;
  last = i.last;
  owned = UpTo-up_to n seq s.history i.owned;
}
