-- ===== src/Compactor/Segments/Shown.antt =====
-- The open segment, behind the last checkpoint, is never collapsed.
use mathlib.Core.List.{append_assoc}
use hugen.Prelude.{
  ℕ, ◌≤◌, ◌<◌, ◌≡◌, refl, sym, ap, subst, ◌∙◌, inl, inr, leb, not, ◌&&◌, none, Option-cases, List,
  [], ◌∷◌, ◌++◌, any, Bool-cases, arith, All,
}
use hugen.Prelude.Text.{Text, text_eq}
use hugen.Compactor.{is_tool, Message, HistoryEntry, Checkpoint, CompactorState, preamble_floor}
use hugen.Compactor.History.{
  messages, HiddenRange, Format, ranges_from, insert_range, sort_ranges, hidden_ranges,
  match_hidden_range, shown_range, note_message, stub, collapse, project, provide_history,
}
use hugen.Compactor.Segments.{Behind}

abbrev Below : ℕ → List HiddenRange → Type 0
Below n ranges = All (λ (r : HiddenRange). r.high ≤ n) ranges

ranges_from-Below :
    (n prev : ℕ) (cps : List Checkpoint) → Behind n cps → Below n (ranges_from prev cps)
unfolding ranges_from
ranges_from-Below n prev [] h = tt
ranges_from-Below n prev (c ∷ cs) h = elim (Bool-cases c.hidden) [
  | inl b ↦ rw b (h.0, ranges_from-Below n c.seq cs h.1)
  | inr b ↦ rw b (ranges_from-Below n c.seq cs h.1)
]

insert_range-Below :
    (n : ℕ) (r : HiddenRange) (rs : List HiddenRange)
    → r.high ≤ n
    → Below n rs
    → Below n (insert_range r rs)
unfolding insert_range
insert_range-Below n r [] h t = (h, tt)
insert_range-Below n r (x ∷ xs) h t = elim (Bool-cases (leb r.low x.low)) [
  | inl b ↦ rw b (h, t)
  | inr b ↦ rw b (t.0, insert_range-Below n r xs h t.1)
]

sort_ranges-Below : (n : ℕ) (rs : List HiddenRange) → Below n rs → Below n (sort_ranges rs)
unfolding sort_ranges
sort_ranges-Below n [] h = tt
sort_ranges-Below n (r ∷ rs) h = insert_range-Below n r _ h.0 (sort_ranges-Below n rs h.1)

match-none :
    (n seq : ℕ) (rs : List HiddenRange) → Below n rs → n < seq → match_hidden_range rs seq ≡ none
unfolding match_hidden_range
match-none n seq [] h b = refl
match-none n seq (r ∷ rs) h b = ground (arith, match-none n seq rs h.1 b)

-- What is shown in full.
abbrev IsOpen : List HiddenRange → ℕ → List HistoryEntry → Type 0
IsOpen ranges floor es = All (λ (e : HistoryEntry). shown_range ranges floor e ≡ none) es

IsOpen-all :
    (n floor : ℕ) (rs : List HiddenRange) (es : List HistoryEntry)
    → Below n rs
    → All (λ (e : HistoryEntry). n < e.seq) es
    → IsOpen rs floor es
IsOpen-all n floor rs [] h b = tt
IsOpen-all n floor rs (e ∷ es) h b = (
  (let m = match-none n e.seq rs h b.0 in
      elim (Bool-cases (leb e.seq floor)) [ inl f ↦ rw f refl | inr f ↦ rw f m ]),
  IsOpen-all n floor rs es h b.1,
)

collapse-IsOpen :
    (sprintf : Format) (rs : List HiddenRange) (floor : ℕ) (noted : List Text)
    (es : List HistoryEntry)
    → IsOpen rs floor es
    → collapse sprintf rs floor noted es ≡ messages es
unfolding collapse
collapse-IsOpen sprintf rs floor noted [] h = refl
collapse-IsOpen sprintf rs floor noted (e ∷ es) h =
    rw (h.0, collapse)
      (ap (λ (l : List Message). e.message ∷ l) (collapse-IsOpen sprintf rs floor noted es h.1))

-- The messages end with those of the entries.
abbrev pub EndsWith : List HistoryEntry → List Message → Type 0
EndsWith es ms = (seen : List Message) × (ms ≡ seen ++ messages es)

EndsWith-append :
    (es : List HistoryEntry) (front ms : List Message) → EndsWith es ms → EndsWith es (front ++ ms)
EndsWith-append es front ms (seen, e) =
    (front ++ seen, ap (λ (l : List Message). front ++ l) e ∙ sym (append_assoc front seen _))

collapse-EndsWith :
    (sprintf : Format) (rs : List HiddenRange) (floor : ℕ) (noted : List Text)
    (before es : List HistoryEntry)
    → IsOpen rs floor es
    → EndsWith es (collapse sprintf rs floor noted (before ++ es))
unfolding collapse
collapse-EndsWith sprintf rs floor noted [] es h = ([], collapse-IsOpen sprintf rs floor noted es h)
collapse-EndsWith sprintf rs floor noted (b ∷ before) es h =
    elim (Option-cases (shown_range rs floor b)) [
      | inl n ↦
          rw (n, collapse)
            (EndsWith-append es (b.message ∷ []) _
              (collapse-EndsWith sprintf rs floor noted before es h))
      | inr (r, n) ↦
          rw (n, collapse)
            (elim (Bool-cases (not (any (text_eq r.cp.id) noted) && not (is_tool b.message.role))) [
              | inl new ↦
                  rw (new, collapse)
                    (EndsWith-append es (note_message sprintf r.cp ∷ stub b.message) _
                      (collapse-EndsWith sprintf rs floor (r.cp.id ∷ noted) before es h))
              | inr old ↦
                  rw (old, collapse)
                    (EndsWith-append es (stub b.message) _
                      (collapse-EndsWith sprintf rs floor noted before es h))
            ])
    ]

none-IsOpen : (floor : ℕ) (es : List HistoryEntry) → IsOpen [] floor es
unfolding match_hidden_range
none-IsOpen floor [] = tt
none-IsOpen floor (e ∷ es) = (
  elim (Bool-cases (leb e.seq floor)) [ inl f ↦ rw f refl | inr f ↦ rw f refl ],
  none-IsOpen floor es,
)

project-collapse :
    (sprintf : Format) (s : CompactorState) (rs : List HiddenRange) (es : List HistoryEntry)
    → (floor : ℕ) × ((project sprintf s rs es).0 ≡ collapse sprintf rs floor [] es)
unfolding project
project-collapse sprintf s rs [] = (0, sym (collapse-IsOpen sprintf rs 0 [] [] tt))
project-collapse sprintf s [] (e ∷ es) =
    (0, sym (collapse-IsOpen sprintf [] 0 [] (e ∷ es) (none-IsOpen 0 (e ∷ es))))
project-collapse sprintf s (r ∷ rs) (e ∷ es) = ((preamble_floor (e ∷ es) s).0, refl)

pub provide_history-EndsWith :
    (sprintf : Format) (s : CompactorState) (before es : List HistoryEntry)
    → Behind s.last_checkpoint_seq s.checkpoints
    → s.history ≡ before ++ es
    → All (λ (e : HistoryEntry). s.last_checkpoint_seq < e.seq) es
    → EndsWith es (provide_history sprintf s).0
unfolding provide_history hidden_ranges
provide_history-EndsWith sprintf s before es b h later =
    let n : ℕ = s.last_checkpoint_seq in
    let rs : List HiddenRange = sort_ranges (ranges_from 0 s.checkpoints) in
    let below = sort_ranges-Below n _ (ranges_from-Below n 0 s.checkpoints b) in
    let (floor, e) = project-collapse sprintf s rs s.history in
    subst (EndsWith es) (sym (e ∙ ap (collapse sprintf rs floor []) h))
      (collapse-EndsWith sprintf rs floor [] before es (IsOpen-all n floor rs es below later))
