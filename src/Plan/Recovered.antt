-- ===== src/Plan/Recovered.antt =====
-- The plan in memory against the one that a restart decodes from the rows of the log.
use mathlib.Core.List.{append-nil}
use hugen.Prelude.{take-whole}
use hugen.Prelude.{
  ℕ, ◌≡◌, ◌≤◌, refl, ◌∙◌, sym, ap, Bool, true, false, ◌&&◌, some, List, [], ◌∷◌, ◌++◌,
  if◌then◌else◌, All, Bool-cases, inl, inr, length,
}
use hugen.Prelude.Text.{Text, text_eq}
use hugen.Plan.{
  Plan, ProjectEvent, Op, set, clear, comment, other, apply, apply_comment, set_plan, project,
}
use hugen.Plan.Replay.{project-snoc, project_nil}
use hugen.Plan.Handle.{
  Codec, IsCodec, Row, Session, Outcome, lost, unreported, landed, Call, call_set, call_comment,
  system_set, call_clear, no_active_plan, op_of, data_of, row_of, event_of, kept_step,
  persist_and_apply, handle, Action, calls, appends, run, is_plan_row, filled, events_from_rows,
  recover, restart,
}

rows-append :
    (codec : Codec) (rows : List Row) (r : Row)
    → events_from_rows codec (rows ++ r ∷ [])
      ≡ events_from_rows codec rows ++ events_from_rows codec (r ∷ [])
unfolding events_from_rows
rows-append codec [] r = refl
rows-append codec (x ∷ rows) r = elim (Bool-cases (is_plan_row x)) [
  | inl e ↦ rw e (
      ap (λ (l : List ProjectEvent). filled x (data_of codec x.payload) ∷ l)
        (rows-append codec rows r))
  | inr e ↦ rw e (rows-append codec rows r)
]

abbrev IsKnown : Op → Type 0
IsKnown set = Unit
IsKnown comment = Unit
IsKnown clear = Unit
IsKnown (other s) = ⊥

data_of-marshal :
    (codec : Codec) (text step : Text)
    → codec.unmarshal (codec.marshal text step) ≡ some (text, step)
    → (data_of codec (some (codec.marshal text step))).0 ≡ text
data_of-marshal codec text step e = rw (data_of, e) refl

-- The row of a frame is decoded as the event that was applied.
row-event :
    (codec : Codec) (at : ℕ) (op : Op) (text step : Text)
    → codec.unmarshal (codec.marshal text step) ≡ some (text, step)
    → IsKnown op
    → events_from_rows codec (row_of codec at op text step ∷ []) ≡ event_of at op text step ∷ []
unfolding events_from_rows op_of text_eq
row-event codec at set [] step e k =
    rw e (ap (λ (t : Text). event_of at set t step ∷ []) (data_of-marshal codec [] step e))
row-event codec at set (b ∷ text) step e k = rw e refl
row-event codec at comment [] step e k =
    rw e (ap (λ (t : Text). event_of at comment t step ∷ []) (data_of-marshal codec [] step e))
row-event codec at comment (b ∷ text) step e k = rw e refl
row-event codec at clear [] step e k =
    rw e (ap (λ (t : Text). event_of at clear t step ∷ []) (data_of-marshal codec [] step e))
row-event codec at clear (b ∷ text) step e k = rw e refl
row-event codec at (other s) text step e k = absurd k

-- The plan in memory is what the log decodes to, and its pointer is valid UTF-8.
record InSync (codec : Codec) (s : Session) : Type 0 where
  same : s.plan ≡ project (events_from_rows codec s.log)
  pointer : codec.is_utf8 s.plan.current_step ≡ true

-- The texts of a call are valid UTF-8.
abbrev pub IsValid : Codec → Call → Type 0
IsValid codec (call_set text step) = (codec.is_utf8 text ≡ true) × (codec.is_utf8 step ≡ true)
IsValid codec (call_comment text step) = (codec.is_utf8 text ≡ true) × (codec.is_utf8 step ≡ true)
IsValid codec (system_set text step) = (codec.is_utf8 text ≡ true) × (codec.is_utf8 step ≡ true)
IsValid codec call_clear = Unit

abbrev pub IsReported : Outcome → Type 0
IsReported lost = Unit
IsReported (unreported at) = ⊥
IsReported (landed at) = Unit

-- Calls on valid texts whose emit gives no error once the row is persisted, and rows of others.
abbrev pub IsModelled : Codec → Action → Type 0
IsModelled codec (calls outcome c) = IsReported outcome × IsValid codec c
IsModelled codec (appends r) = is_plan_row r ≡ false

module _ (codec : Codec) (laws : IsCodec codec) where
  kept-valid :
      (step : Text) (preserve : Bool) (p : Plan)
      → codec.is_utf8 step ≡ true
      → codec.is_utf8 p.current_step ≡ true
      → codec.is_utf8 (kept_step step preserve p) ≡ true
  kept-valid step preserve p h k = elim (Bool-cases (preserve && text_eq step [])) [
    | inl e ↦ rw e k
    | inr e ↦ rw e h
  ]

  apply-pointer :
      (p : Plan) (op : Op) (at : ℕ) (text step : Text)
      → IsKnown op
      → codec.is_utf8 step ≡ true
      → codec.is_utf8 p.current_step ≡ true
      → codec.is_utf8 (apply p (event_of at op text step)).current_step ≡ true
  unfolding apply apply_comment set_plan
  apply-pointer p set at text step n h k = h
  apply-pointer p clear at text step n h k = laws.empty
  apply-pointer p (other s) at text step n h k = absurd n
  apply-pointer p comment at text step n h k = elim (Bool-cases p.active) [
    | inr e ↦ rw e k
    | inl e ↦ rw e (elim (Bool-cases (text_eq step [])) [ inl f ↦ rw f k | inr f ↦ rw f h ])
  ]

  appended :
      (s : Session) (p : Plan) (r : Row) (es : List ProjectEvent)
      → events_from_rows codec (r ∷ []) ≡ es
      → p ≡ project (events_from_rows codec s.log ++ es)
      → p ≡ project (events_from_rows codec (s.log ++ r ∷ []))
  appended s p r es e h =
      h
      ∙ ap (λ (l : List ProjectEvent). project (events_from_rows codec s.log ++ l)) (sym e)
      ∙ ap project (sym (rows-append codec s.log r))

  persist_and_apply-InSync :
      (outcome : Outcome) (op : Op) (text step : Text) (preserve : Bool) (s : Session)
      → IsReported outcome
      → IsKnown op
      → codec.is_utf8 text ≡ true
      → codec.is_utf8 step ≡ true
      → InSync codec s
      → InSync codec (persist_and_apply codec outcome op text step preserve s).0
  unfolding persist_and_apply
  persist_and_apply-InSync lost op text step preserve s r n t h i = i
  persist_and_apply-InSync (unreported at) op text step preserve s r n t h i = absurd r
  persist_and_apply-InSync (landed at) op text step preserve s r n t h i =
      let kept : Text = kept_step step preserve s.plan in
      let valid = kept-valid step preserve s.plan h i.pointer in
      let ev : ProjectEvent = event_of at op text kept in
      record {
        same =
            appended s (apply s.plan ev) (row_of codec at op text kept) (ev ∷ [])
              (row-event codec at op text kept (laws.read_back text kept t valid) n)
              (ap (λ (p : Plan). apply p ev) i.same
                ∙ sym (project-snoc (events_from_rows codec s.log) ev));
        pointer = apply-pointer s.plan op at text kept n valid i.pointer;
      }

  handle-InSync :
      (outcome : Outcome) (c : Call) (s : Session)
      → IsReported outcome
      → IsValid codec c
      → InSync codec s
      → InSync codec (handle codec outcome c s).0
  unfolding handle
  handle-InSync outcome (call_set text step) s r v i = elim (Bool-cases (text_eq text [])) [
    | inl e ↦ rw e i
    | inr e ↦ rw e (persist_and_apply-InSync outcome set text step true s r tt v.0 v.1 i)
  ]
  handle-InSync outcome (call_comment text step) s r v i = elim (Bool-cases (text_eq text [])) [
    | inl e ↦ rw e i
    | inr e ↦
        rw e
          (elim s.plan.active
            as (λ b.
              InSync codec
                (if b
                  then persist_and_apply codec outcome comment text step true s
                  else (s, no_active_plan)).0) [
                    | true ↦
                        persist_and_apply-InSync outcome comment text step true s r tt v.0 v.1 i
                    | false ↦ i
                  ])
  ]
  handle-InSync outcome (system_set text step) s r v i =
      persist_and_apply-InSync outcome set text step false s r tt v.0 v.1 i
  handle-InSync outcome call_clear s r v i =
      persist_and_apply-InSync outcome clear [] [] false s r tt laws.empty laws.empty i

  foreign : (r : Row) → is_plan_row r ≡ false → events_from_rows codec (r ∷ []) ≡ []
  unfolding events_from_rows
  foreign r e = rw e refl

  run-InSync :
      (actions : List Action) → All (IsModelled codec) actions → InSync codec (run codec actions)
  unfolding run events_from_rows
  run-InSync [] h = record { same = sym project_nil; pointer = laws.empty }
  run-InSync (calls outcome c ∷ older) h =
      handle-InSync outcome c (run codec older) h.0.0 h.0.1 (run-InSync older h.1)
  run-InSync (appends r ∷ older) h =
      let s : Session = run codec older in
      let i = run-InSync older h.1 in
      record {
        same =
            appended s s.plan r [] (foreign r h.0)
              (i.same ∙ ap project (sym (append-nil (events_from_rows codec s.log))));
        pointer = i.pointer;
      }

  -- Where a log has at most 1000 rows: after any tool calls on texts in valid UTF-8 and any rows of
  -- others, whatever emits fail before their row is persisted, a restart decodes from the rows the
  -- plan that is in memory.
  pub recover-run :
      (actions : List Action)
      → All (IsModelled codec) actions
      → length (run codec actions).log ≤ 1000
      → restart codec (run codec actions).log ≡ (run codec actions).plan
  unfolding restart recover
  recover-run actions h fits =
      ap (λ (rows : List Row). project (events_from_rows codec rows))
        (take-whole 1000 (run codec actions).log fits)
      ∙ sym ((run-InSync actions h).same)
