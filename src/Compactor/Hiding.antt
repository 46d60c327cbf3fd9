-- ===== src/Compactor/Hiding.antt =====
-- Hiding is reversible, rolling back is not: what the checkpoint tools do to the history.
use mathlib.Core.List.{append_assoc}
use hugen.Prelude.{
  ℕ, ◌≤◌, ◌<◌, ◌≡◌, refl, sym, ap, subst, ◌∙◌, ◌⊎◌, inl, inr, leb, Bool, true, false, not, none,
  some, Option-cases, List, [], ◌∷◌, ◌++◌, if◌then◌else◌, Bool-cases, arith, All, All-append,
}
use hugen.Prelude.Text.{Text, text_eq}
use hugen.Compactor.{
  assistant, ToolCall, HistoryEntry, Checkpoint, CompactorState, history_max_seq, preamble_floor,
}
use hugen.Compactor.Checkpoints.{
  marked, set_hidden, set_checkpoint_hidden, find_checkpoint, restored, rollback_from,
}
use hugen.Compactor.Pairs.{after, well_paired}
use hugen.Compactor.History.{
  messages, HiddenRange, Format, sort_ranges, collapse, hidden_ranges, project, provide_history,
  ranges_from,
}

-- The checkpoint of the id is there and not hidden.
unfoldable pub is_visible : Text → List Checkpoint → Bool
is_visible id [] = false
is_visible id (cp ∷ cps) = if text_eq cp.id id then not cp.hidden else is_visible id cps

unfoldable pub mark : Text → Bool → Text → List Checkpoint → List Checkpoint
mark id hidden note [] = []
mark id hidden note (cp ∷ cps) =
    if text_eq cp.id id then marked hidden note cp ∷ cps else cp ∷ mark id hidden note cps

set_hidden-mark :
    (id : Text) (hidden : Bool) (note : Text) (cps : List Checkpoint)
    → ((set_hidden id hidden note cps ≡ none) × (mark id hidden note cps ≡ cps))
      ⊎ ((cp : Checkpoint) × (set_hidden id hidden note cps ≡ some (cp, mark id hidden note cps)))
unfolding set_hidden mark
set_hidden-mark id hidden note [] = inl (refl, refl)
set_hidden-mark id hidden note (c ∷ cs) = elim (Bool-cases (text_eq c.id id)) [
  | inl e ↦ rw e (inr (marked hidden note c, refl))
  | inr e ↦ rw e (elim (set_hidden-mark id hidden note cs) [
    | inl (n, m) ↦ rw n (inl (refl, ap (λ (l : List Checkpoint). c ∷ l) m))
    | inr (cp, h) ↦ rw h (inr (cp, refl))
  ])
]

pub set_checkpoint_hidden-mark :
    (id : Text) (hidden : Bool) (note : Text) (s : CompactorState)
    → (set_checkpoint_hidden id hidden note s).1
      ≡ record s { checkpoints = mark id hidden note s.checkpoints }
unfolding set_checkpoint_hidden
set_checkpoint_hidden-mark id hidden note s = elim (set_hidden-mark id hidden note s.checkpoints) [
  | inl (n, m) ↦
      rw (n, set_checkpoint_hidden)
        (ap (λ (l : List Checkpoint). record s { checkpoints = l }) (sym m))
  | inr (cp, h) ↦ rw (h, set_checkpoint_hidden) refl
]

ranges_expanded :
    (id note : Text) (prev : ℕ) (cps : List Checkpoint)
    → is_visible id cps ≡ true
    → ranges_from prev (mark id false [] (mark id true note cps)) ≡ ranges_from prev cps
unfolding is_visible mark ranges_from
ranges_expanded id note prev [] v = cc
ranges_expanded id note prev (c ∷ cs) v = elim (Bool-cases (text_eq c.id id)) [
  | inl e ↦
      (let v' = rw e at v in
        let shown : c.hidden ≡ false = ground arith in rw (e, mark, e, shown) refl)
  | inr e ↦
      (let v' = rw e at v in
        let rest = ranges_expanded id note c.seq cs v' in rw (e, mark, e, rest) refl)
]

floor-checkpoints :
    (es : List HistoryEntry) (s : CompactorState) (l : List Checkpoint)
    → (preamble_floor es (record s { checkpoints = l })).0 ≡ (preamble_floor es s).0
unfolding preamble_floor
floor-checkpoints es s l = ground arith

project-checkpoints :
    (sprintf : Format) (s : CompactorState) (l : List Checkpoint) (ranges : List HiddenRange)
    (es : List HistoryEntry)
    → (project sprintf (record s { checkpoints = l }) ranges es).0 ≡ (project sprintf s ranges es).0
unfolding project
project-checkpoints sprintf s l ranges [] = refl
project-checkpoints sprintf s l [] (e ∷ es) = refl
project-checkpoints sprintf s l (r ∷ rs) (e ∷ es) =
    ap (λ (floor : ℕ). collapse sprintf (r ∷ rs) floor [] (e ∷ es)) (floor-checkpoints (e ∷ es) s l)

-- A hidden segment that is expanded shows the model the history as before it was hidden.
pub provide_history-expand :
    (sprintf : Format) (id note : Text) (s : CompactorState)
    → is_visible id s.checkpoints ≡ true
    → (provide_history sprintf
        (set_checkpoint_hidden id false [] (set_checkpoint_hidden id true note s).1).1).0
      ≡ (provide_history sprintf s).0
unfolding provide_history hidden_ranges
provide_history-expand sprintf id note s v =
    rw
      (
        set_checkpoint_hidden-mark id true note s,
        set_checkpoint_hidden-mark id false []
            (record s { checkpoints = mark id true note s.checkpoints }),
      )
      (project-checkpoints sprintf s _ _ s.history
        ∙ ap (λ (r : List HiddenRange). (project sprintf s (sort_ranges r) s.history).0)
            (ranges_expanded id note 0 s.checkpoints v))

restored-drops :
    (seq head : ℕ) (es later : List HistoryEntry)
    → All (λ (e : HistoryEntry). (seq < e.seq) × (e.seq < head)) es
    → (restored seq head (es ++ later)).0 ≡ (restored seq head later).0
unfolding restored
restored-drops seq head [] later h = refl
restored-drops seq head (e ∷ es) later h =
    let a : leb e.seq seq ≡ false = ground arith in
    let b : leb head e.seq ≡ false = ground arith in
    rw (a, b) (restored-drops seq head es later h.1)

restored-keeps :
    (seq head : ℕ) (es later : List HistoryEntry)
    → All (λ (e : HistoryEntry). e.seq ≤ seq) es
    → (restored seq head (es ++ later)).0 ≡ es ++ (restored seq head later).0
unfolding restored
restored-keeps seq head [] later h = refl
restored-keeps seq head (e ∷ es) later h =
    let a : leb e.seq seq ≡ true = ground arith in
    rw a (ap (λ (l : List HistoryEntry). e ∷ l) (restored-keeps seq head es later h.1))

-- A call that is still asked for when an assistant's message comes.
asked_again :
    (asked : List Text) (es : List HistoryEntry) (x y : HistoryEntry) (c : ToolCall)
    (cs : List ToolCall)
    → x.message.role ≡ assistant
    → x.message.tool_calls ≡ c ∷ cs
    → y.message.role ≡ assistant
    → well_paired asked (messages (es ++ x ∷ y ∷ [])) ≡ false
unfolding well_paired
asked_again [] [] x y c cs rx cx ry = rw (rx, well_paired, cx, ry) refl
asked_again (a ∷ as') [] x y c cs rx cx ry = rw (rx, well_paired) refl
asked_again asked (e ∷ es) x y c cs rx cx ry =
    elim (Option-cases (after e.message.role e.message asked)) [
      | inl n ↦ rw (n, well_paired) refl
      | inr (asked', n) ↦ rw (n, well_paired) (asked_again asked' es x y c cs rx cx ry)
    ]

pub max-le :
    (n : ℕ) (es : List HistoryEntry)
    → All (λ (e : HistoryEntry). e.seq ≤ n) es
    → history_max_seq es ≤ n
unfolding history_max_seq
max-le n [] h = omega arith
max-le n (e ∷ es) h = ground (arith, max-le n es h.1)

pub le-max :
    (es later : List HistoryEntry) (y : HistoryEntry) → y.seq ≤ history_max_seq (es ++ y ∷ later)
unfolding history_max_seq
le-max [] later y = ground arith
le-max (e ∷ es) later y = ground (arith, le-max es later y)

below-all :
    (p n : ℕ) (es : List HistoryEntry)
    → p ≤ n
    → All (λ (e : HistoryEntry). e.seq ≤ p) es
    → All (λ (e : HistoryEntry). e.seq ≤ n) es
below-all p n [] le h = tt
below-all p n (e ∷ es) le h = (omega arith, below-all p n es le h.1)

within-all :
    (p n : ℕ) (es : List HistoryEntry)
    → All (λ (e : HistoryEntry). (p < e.seq) × (e.seq < n)) es
    → All (λ (e : HistoryEntry). e.seq ≤ n) es
within-all p n [] h = tt
within-all p n (e ∷ es) h = (omega arith, within-all p n es h.1)

rollback-history :
    (id : Text) (cp : Checkpoint) (s : CompactorState)
    → find_checkpoint id s.checkpoints ≡ some cp
    → (rollback_from id s).1.history ≡ (restored cp.seq (history_max_seq s.history) s.history).0
unfolding rollback_from
rollback-history id cp s f = rw (f, rollback_from) refl

restored-head : (seq : ℕ) (y : HistoryEntry) → (restored seq y.seq (y ∷ [])).0 ≡ y ∷ []
unfolding restored
restored-head seq y =
    let e : leb y.seq y.seq ≡ true = ground arith in
    elim (Bool-cases (leb y.seq seq)) [ inl a ↦ rw a refl | inr a ↦ rw (a, e) refl ]

-- Work that a checkpoint's call `x` and the call `y` to roll back to it enclose, both by messages of
-- the assistant, is dropped with the result of `x`: what is before it, `x` and `y` are left, and the
-- calls and results are not paired, whatever comes of `y`.
pub rollback_from-unpaired :
    (id : Text) (cp : Checkpoint) (s : CompactorState) (before work : List HistoryEntry)
    (x y : HistoryEntry) (c : ToolCall) (cs : List ToolCall)
    → find_checkpoint id s.checkpoints ≡ some cp
    → s.history ≡ before ++ x ∷ (work ++ y ∷ [])
    → All (λ (e : HistoryEntry). e.seq ≤ cp.seq) before
    → x.seq ≡ cp.seq
    → All (λ (e : HistoryEntry). (cp.seq < e.seq) × (e.seq < y.seq)) work
    → cp.seq < y.seq
    → x.message.role ≡ assistant
    → x.message.tool_calls ≡ c ∷ cs
    → y.message.role ≡ assistant
    → ((rollback_from id s).1.history ≡ before ++ x ∷ y ∷ [])
      × (well_paired [] (messages (rollback_from id s).1.history) ≡ false)
rollback_from-unpaired id cp s before work x y c cs f h b xs w ys rx cx ry =
    let le : (e : HistoryEntry) → Type 0 = λ e. e.seq ≤ y.seq in
    let all : All le (before ++ x ∷ (work ++ y ∷ [])) =
      All-append le before _ (below-all cp.seq y.seq before (omega arith) b)
        (omega arith, All-append le work _ (within-all cp.seq y.seq work w) (omega arith, tt)) in
    let inner : (before ++ x ∷ work) ++ y ∷ [] ≡ before ++ x ∷ (work ++ y ∷ []) =
      append_assoc before (x ∷ work) (y ∷ []) in
    let above : y.seq ≤ history_max_seq (before ++ x ∷ (work ++ y ∷ [])) =
      subst (λ (l : List HistoryEntry). y.seq ≤ history_max_seq l) inner
        (le-max (before ++ x ∷ work) [] y) in
    let below = max-le y.seq _ all in
    let head : history_max_seq s.history ≡ y.seq = ap history_max_seq h ∙ omega arith in
    let left : (rollback_from id s).1.history ≡ before ++ x ∷ y ∷ [] =
      rollback-history id cp s f
      ∙ ap (λ (n : ℕ). (restored cp.seq n s.history).0) head
      ∙ ap (λ (l : List HistoryEntry). (restored cp.seq y.seq l).0) h
      ∙ restored-keeps cp.seq y.seq before _ b
      ∙ ap (λ (l : List HistoryEntry). before ++ l)
          (restored-keeps cp.seq y.seq (x ∷ []) (work ++ y ∷ []) (omega arith, tt)
            ∙ ap (λ (l : List HistoryEntry). x ∷ l)
                (restored-drops cp.seq y.seq work (y ∷ []) w ∙ restored-head cp.seq y)) in
    (
      left,
      ap (λ (l : List HistoryEntry). well_paired [] (messages l)) left
          ∙ asked_again [] before x y c cs rx cx ry,
    )
