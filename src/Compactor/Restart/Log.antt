-- ===== src/Compactor/Restart/Log.antt =====
-- What a log holds for the compactor, read in one pass, and that Recover finds it.
use mathlib.Core.List.{append_assoc, append-nil}
use hugen.Prelude.{
  ℕ, ◌≤◌, ◌<◌, ◌≡◌, refl, sym, ap, ◌∙◌, inl, inr, ltb, leb, Bool, true, false, Option, none, some,
  Option-cases, List, [], ◌∷◌, ◌++◌, if◌then◌else◌, Bool-cases, arith,
}
use hugen.Prelude.Text.{Text}
use hugen.Compactor.{HistoryEntry, CompactorState, past}
use hugen.Compactor.Digests.{Digest, cutoff_of}
use hugen.Compactor.Frames.{
  Payload, user_message, agent_message, tool_result, system_message, subagent_result,
  extension_frame, other_frame, EventRow, Kind, kind_user, kind_agent, kind_tool_result,
  kind_system, kind_subagent_result, kind_extension, kind_other,
}
use hugen.Compactor.Rows.{
  project_frame_to_entry, Renderer, project_row, project_row_to_entry, entry_of_text,
}
use hugen.Compactor.Recovery.{
  applied, op_of_kind, latest_from, tracked_row, added, replayed, recover,
}
use hugen.Compactor.Emission.{Env, append_boundary, add_tokens, max_seq, trimmed}

abbrev pub listed : Option HistoryEntry → List HistoryEntry
listed none = []
listed (some e) = e ∷ []

-- The entries past a cutoff.
unfoldable pub entries : Renderer → ℕ → List EventRow → List HistoryEntry
entries r cutoff [] = []
entries r cutoff (row ∷ rows) =
    (if leb row.seq cutoff then [] else listed (project_row_to_entry r row))
    ++ entries r cutoff rows

abbrev pub boundary : Kind → EventRow → List ℕ
boundary kind_user row = if ltb 0 row.seq then row.seq ∷ [] else []
boundary kind_agent row = []
boundary kind_tool_result row = []
boundary kind_system row = []
boundary kind_subagent_result row = []
boundary kind_extension row = []
boundary (kind_other k) row = []

unfoldable pub boundaries : List EventRow → List ℕ
boundaries [] = []
boundaries (row ∷ rows) = boundary row.event_type row ++ boundaries rows

pub entries-append :
    (r : Renderer) (cutoff : ℕ) (rows rows' : List EventRow)
    → entries r cutoff (rows ++ rows') ≡ entries r cutoff rows ++ entries r cutoff rows'
unfolding entries
entries-append r cutoff [] rows' = refl
entries-append r cutoff (row ∷ rows) rows' =
    let now : List HistoryEntry =
      if leb row.seq cutoff then [] else listed (project_row_to_entry r row) in
    ap (λ (l : List HistoryEntry). now ++ l) (entries-append r cutoff rows rows')
    ∙ sym (append_assoc now (entries r cutoff rows) (entries r cutoff rows'))

pub boundaries-append :
    (rows rows' : List EventRow) → boundaries (rows ++ rows') ≡ boundaries rows ++ boundaries rows'
unfolding boundaries
boundaries-append [] rows' = refl
boundaries-append (row ∷ rows) rows' =
    let now : List ℕ = boundary row.event_type row in
    ap (λ (l : List ℕ). now ++ l) (boundaries-append rows rows')
    ∙ sym (append_assoc now (boundaries rows) (boundaries rows'))

pub latest-append :
    (latest : Option Digest) (rows : List EventRow) (row : EventRow)
    → latest_from latest (rows ++ row ∷ [])
      ≡ applied (op_of_kind row.event_type row) (latest_from latest rows)
unfolding latest_from
latest-append latest [] row = refl
latest-append latest (x ∷ rows) row =
    latest-append (applied (op_of_kind x.event_type x) latest) rows row

pub max_seq-append :
    (rows : List EventRow) (row : EventRow)
    → max_seq rows < row.seq
    → max_seq (rows ++ row ∷ []) ≡ row.seq
unfolding max_seq
max_seq-append [] row h = ground arith
max_seq-append (x ∷ rows) row h = ground (arith, max_seq-append rows row)

text_seq :
    (seq at : ℕ) (o : Option Text) (e : HistoryEntry)
    → entry_of_text seq at o ≡ some e
    → e.seq ≡ seq
text_seq seq at none e h = cc
text_seq seq at (some t) e h = cc

entry_seq :
    (r : Renderer) (k : Kind) (row : EventRow) (e : HistoryEntry)
    → project_row r k row ≡ some e
    → e.seq ≡ row.seq
unfolding project_row
entry_seq r kind_user row e h = cc
entry_seq r kind_agent row e h = ground arith
entry_seq r kind_tool_result row e h = cc
entry_seq r kind_system row e h = cc
entry_seq r kind_subagent_result row e h = text_seq row.seq row.created_at _ e h
entry_seq r kind_extension row e h = cc
entry_seq r (kind_other k) row e h = cc

past-append :
    (cutoff : ℕ) (es es' : List HistoryEntry)
    → past cutoff (es ++ es') ≡ past cutoff es ++ past cutoff es'
unfolding past
past-append cutoff [] es' = refl
past-append cutoff (e ∷ es) es' = ground (arith, past-append cutoff es es')

same_nil : (b : Bool) → [] ≡ (if b then [] else listed none)
same_nil true = refl
same_nil false = refl

past-nil : (cutoff : ℕ) → past cutoff [] ≡ []
unfolding past
past-nil cutoff = refl

project_row_to_entry-at :
    (r : Renderer) (row : EventRow) → project_row r row.event_type row ≡ project_row_to_entry r row
unfolding project_row_to_entry
project_row_to_entry-at r row = refl

past-listed :
    (r : Renderer) (old new : ℕ) (row : EventRow)
    → old ≤ new
    → past new (if leb row.seq old then [] else listed (project_row_to_entry r row))
      ≡ (if leb row.seq new then [] else listed (project_row_to_entry r row))
unfolding past
past-listed r old new row h = elim (Bool-cases (leb row.seq old)) [
  | inl a ↦ (let b : leb row.seq new ≡ true = ground arith in rw (a, b) refl)
  | inr a ↦ rw a (elim (Option-cases (project_row_to_entry r row)) [
    | inl n ↦ rw n (same_nil (leb row.seq new))
    | inr (e, f) ↦
        (let g : e.seq ≡ row.seq =
            entry_seq r row.event_type row e (project_row_to_entry-at r row ∙ f) in
          rw f (ground arith))
  ])
]

pub past-entries :
    (r : Renderer) (old new : ℕ) (rows : List EventRow)
    → old ≤ new
    → past new (entries r old rows) ≡ entries r new rows
unfolding entries
past-entries r old new [] h = past-nil new
past-entries r old new (row ∷ rows) h =
    past-append new _ (entries r old rows)
    ∙ (rw (past-listed r old new row h, past-entries r old new rows h) refl)

pub frame_seq :
    (r : Renderer) (seq at : ℕ) (p : Payload) (e : HistoryEntry)
    → project_frame_to_entry r seq at p ≡ some e
    → e.seq ≡ seq
unfolding project_frame_to_entry
frame_seq r seq at (user_message t) e h = cc
frame_seq r seq at (agent_message a) e h = ground arith
frame_seq r seq at (tool_result id v) e h = cc
frame_seq r seq at (system_message k t) e h = cc
frame_seq r seq at (subagent_result s) e h = text_seq seq at _ e h
frame_seq r seq at (extension_frame x op t d) e h = cc
frame_seq r seq at (other_frame k t) e h = cc

tracked_row-history :
    (k : Kind) (row : EventRow) (s : CompactorState) → (tracked_row k row s).history ≡ s.history
unfolding append_boundary add_tokens
tracked_row-history kind_user row s = refl
tracked_row-history kind_agent row s = ground arith
tracked_row-history kind_tool_result row s = refl
tracked_row-history kind_system row s = refl
tracked_row-history kind_subagent_result row s = refl
tracked_row-history kind_extension row s = refl
tracked_row-history (kind_other k) row s = refl

tracked_row-boundary :
    (k : Kind) (row : EventRow) (s : CompactorState)
    → (tracked_row k row s).user_message_seqs ≡ s.user_message_seqs ++ boundary k row
unfolding append_boundary add_tokens
tracked_row-boundary kind_user row s = elim (Bool-cases (ltb 0 row.seq)) [
  | inl e ↦ rw e refl
  | inr e ↦ rw (e, append-nil) refl
]
tracked_row-boundary kind_agent row s = rw append-nil (ground arith)
tracked_row-boundary kind_tool_result row s = rw append-nil refl
tracked_row-boundary kind_system row s = rw append-nil refl
tracked_row-boundary kind_subagent_result row s = rw append-nil refl
tracked_row-boundary kind_extension row s = rw append-nil refl
tracked_row-boundary (kind_other k) row s = rw append-nil refl

added-listed : (o : Option HistoryEntry) (es : List HistoryEntry) → added o es ≡ es ++ listed o
added-listed none es = rw append-nil refl
added-listed (some e) es = refl

replayed-history :
    (env : Env) (cutoff : ℕ) (rows : List EventRow) (s : CompactorState)
    → (replayed env cutoff rows s).history ≡ s.history ++ entries env.renderer cutoff rows
unfolding replayed entries
replayed-history env cutoff [] s = rw append-nil refl
replayed-history env cutoff (row ∷ rows) s =
    let s' : CompactorState = tracked_row row.event_type row s in
    let now : List HistoryEntry =
      if leb row.seq cutoff
      then s'.history
      else added (project_row_to_entry env.renderer row) s'.history in
    let old : s'.history ≡ s.history = tracked_row-history row.event_type row s in
    let step : now
        ≡ s.history
          ++ (if leb row.seq cutoff then [] else listed (project_row_to_entry env.renderer row)) =
      elim (Bool-cases (leb row.seq cutoff)) [
        | inl e ↦ rw (e, append-nil) old
        | inr e ↦ rw e (
            added-listed (project_row_to_entry env.renderer row) s'.history
            ∙ ap (λ (l : List HistoryEntry). l ++ listed (project_row_to_entry env.renderer row))
                old)
      ] in
    replayed-history env cutoff rows (record s' { history = now })
    ∙ ap (λ (l : List HistoryEntry). l ++ entries env.renderer cutoff rows) step
    ∙ append_assoc s.history _ (entries env.renderer cutoff rows)

replayed-boundaries :
    (env : Env) (cutoff : ℕ) (rows : List EventRow) (s : CompactorState)
    → (replayed env cutoff rows s).user_message_seqs ≡ s.user_message_seqs ++ boundaries rows
unfolding replayed boundaries
replayed-boundaries env cutoff [] s = rw append-nil refl
replayed-boundaries env cutoff (row ∷ rows) s =
    let s' : CompactorState = tracked_row row.event_type row s in
    replayed-boundaries env cutoff rows _
    ∙ ap (λ (l : List ℕ). l ++ boundaries rows) (tracked_row-boundary row.event_type row s)
    ∙ append_assoc s.user_message_seqs (boundary row.event_type row) (boundaries rows)

-- What Recover leaves, whatever the state was.
pub recover-history :
    (env : Env) (rows : List EventRow) (s : CompactorState)
    → (recover env rows s).history
      ≡ trimmed env (entries env.renderer (cutoff_of (latest_from none rows)) rows)
unfolding recover
recover-history env rows s = ap (trimmed env) (replayed-history env _ rows _)

pub recover-boundaries :
    (env : Env) (rows : List EventRow) (s : CompactorState)
    → (recover env rows s).user_message_seqs ≡ boundaries rows
unfolding recover
recover-boundaries env rows s = replayed-boundaries env _ rows _

pub recover-digest :
    (env : Env) (rows : List EventRow) (s : CompactorState)
    → (recover env rows s).digest ≡ latest_from none rows
unfolding recover
recover-digest env rows s = refl
