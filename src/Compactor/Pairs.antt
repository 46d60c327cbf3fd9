-- ===== src/Compactor/Pairs.antt =====
-- Tool calls and their results stay paired in what the model sees.
use hugen.Prelude.{
  ℕ, ◌≡◌, refl, ap, subst, ◌∙◌, inl, inr, Bool, true, false, not, ◌&&◌, Option, none, some,
  Option-cases, List-cases, List, [], ◌∷◌, ◌++◌, map, any, if◌then◌else◌, Bool-cases, arith,
}
use hugen.Prelude.Text.{Text, text_eq}
use hugen.Compactor.{
  Role, user, assistant, system, tool, is_tool, ToolCall, Message, HistoryEntry, Checkpoint,
  CompactorState, preamble_floor,
}
use hugen.Compactor.History.{
  HiddenRange, Format, stub_call, shrink, note_message, shown_range, collapse, messages,
  hidden_ranges, project, provide_history,
}

-- What remains to be answered when a result answers one of the calls; `none` if it answers none.
pub answer : Text → List Text → Option (List Text)
answer id [] = none
answer id (c ∷ cs) =
    if text_eq c id
    then some cs
    else elim (answer id cs) [ none ↦ none | some rest ↦ some (c ∷ rest) ]

abbrev pub call_ids : List ToolCall → List Text
call_ids calls = map (λ (c : ToolCall). c.id) calls

-- A result answers a call of the assistant's message just before; nothing else comes between.
abbrev pub after : Role → Message → List Text → Option (List Text)
after tool m asked = answer m.tool_call_id asked
after assistant m [] = some (call_ids m.tool_calls)
after assistant m (c ∷ cs) = none
after user m [] = some []
after user m (c ∷ cs) = none
after system m [] = some []
after system m (c ∷ cs) = none

-- The messages, while the calls `asked` await their results. The last message's may be in flight.
unfoldable pub well_paired : List Text → List Message → Bool
unfolding answer
well_paired asked [] = true
well_paired asked (m ∷ ms) = elim (after m.role m asked) [
  | none ↦ false
  | some asked' ↦ well_paired asked' ms
]

ids-stub : (cs : List ToolCall) → call_ids (map stub_call cs) ≡ call_ids cs
ids-stub [] = refl
ids-stub (c ∷ cs) = ap (λ (l : List Text). c.id ∷ l) (ids-stub cs)

-- A stub answers and asks what its message does, and so does leaving a message without calls out.
stub_step :
    (r : Role) (m : Message) (asked asked' : List Text) (rest : List Message)
    → after r m asked ≡ some asked'
    → well_paired asked' rest ≡ true
    → well_paired asked (elim (shrink r m) [ none ↦ [] | some s ↦ s ∷ [] ] ++ rest) ≡ true
unfolding well_paired shrink
stub_step tool m asked asked' rest e h = rw (e, well_paired) h
stub_step assistant m (a ∷ as') asked' rest e h = cc
stub_step assistant m [] asked' rest e h = elim (List-cases m.tool_calls) [
  | inl none_asked ↦ rw none_asked (ground arith)
  | inr (c, cs, some_asked) ↦
      (let f : some (call_ids (c ∷ cs)) ≡ some asked' = rw some_asked at e in
        let q : asked' ≡ call_ids (c ∷ cs) = cc in
        rw (some_asked, ids-stub cs) (subst (λ (l : List Text). well_paired l rest ≡ true) q h))
]
stub_step user m (a ∷ as') asked' rest e h = cc
stub_step user m [] asked' rest e h = ground arith
stub_step system m (a ∷ as') asked' rest e h = cc
stub_step system m [] asked' rest e h = ground arith

-- A note goes before a message that answers no call.
note_step :
    (r : Role) (m : Message) (sprintf : Format) (cp : Checkpoint) (asked asked' : List Text)
    (rest : List Message)
    → is_tool r ≡ false
    → after r m asked ≡ some asked'
    → well_paired asked rest ≡ true
    → well_paired asked (note_message sprintf cp ∷ rest) ≡ true
unfolding well_paired
note_step tool m sprintf cp asked asked' rest n e h = cc
note_step assistant m sprintf cp [] asked' rest n e h = h
note_step assistant m sprintf cp (a ∷ as') asked' rest n e h = cc
note_step user m sprintf cp [] asked' rest n e h = h
note_step user m sprintf cp (a ∷ as') asked' rest n e h = cc
note_step system m sprintf cp [] asked' rest n e h = h
note_step system m sprintf cp (a ∷ as') asked' rest n e h = cc

-- The first message takes its place among the calls.
pub well_paired-head :
    (asked : List Text) (m : Message) (ms : List Message)
    → well_paired asked (m ∷ ms) ≡ true
    → (asked' : List Text) × (after m.role m asked ≡ some asked') × (well_paired asked' ms ≡ true)
unfolding well_paired
well_paired-head asked m ms h = elim (Option-cases (after m.role m asked)) [
  | inl e ↦ absurd (let f = rw (e, well_paired) at h in cc)
  | inr (asked', e) ↦ (asked', e, rw (e, well_paired) at h)
]

well_paired-cons :
    (asked asked' : List Text) (m : Message) (ms : List Message)
    → after m.role m asked ≡ some asked'
    → well_paired asked' ms ≡ true
    → well_paired asked (m ∷ ms) ≡ true
unfolding well_paired
well_paired-cons asked asked' m ms e h = rw (e, well_paired) h

not-false : (a b : Bool) → (a && not b) ≡ true → b ≡ false
not-false true true h = cc
not-false true false h = refl
not-false false b h = cc

well_paired-collapse :
    (sprintf : Format) (ranges : List HiddenRange) (floor : ℕ) (noted asked : List Text)
    (es : List HistoryEntry)
    → well_paired asked (messages es) ≡ true
    → well_paired asked (collapse sprintf ranges floor noted es) ≡ true
unfolding collapse
well_paired-collapse sprintf ranges floor noted asked [] h = h
well_paired-collapse sprintf ranges floor noted asked (e ∷ es) h =
    let (asked', step, tail) = well_paired-head asked e.message (messages es) h in
    elim (Option-cases (shown_range ranges floor e)) [
      | inl shown ↦
          rw (shown, collapse)
            (well_paired-cons asked asked' e.message _ step
              (well_paired-collapse sprintf ranges floor noted asked' es tail))
      | inr (r, hid) ↦
          rw (hid, collapse)
            (elim (Bool-cases (not (any (text_eq r.cp.id) noted) && not (is_tool e.message.role))) [
              | inr old ↦
                  rw (old, collapse)
                    (stub_step e.message.role e.message asked asked' _ step
                      (well_paired-collapse sprintf ranges floor noted asked' es tail))
              | inl new ↦
                  rw (new, collapse)
                    (note_step e.message.role e.message sprintf r.cp asked asked' _
                      (not-false (not (any (text_eq r.cp.id) noted)) _ new) step
                      (stub_step e.message.role e.message asked asked' _ step (
                        well_paired-collapse sprintf ranges floor (r.cp.id ∷ noted) asked' es
                          tail)))
            ])
    ]

-- The calls and the results of a message, with their ids.
abbrev pub exchange : Role → Message → List (Bool × Text)
exchange tool m = (true, m.tool_call_id) ∷ []
exchange assistant m = map (λ (id : Text). (false, id)) (call_ids m.tool_calls)
exchange user m = []
exchange system m = []

unfoldable pub exchanges : List Message → List (Bool × Text)
exchanges [] = []
exchanges (m ∷ ms) = exchange m.role m ++ exchanges ms

exchanges-stub :
    (r : Role) (m : Message) (rest : List Message)
    → exchanges (elim (shrink r m) [ none ↦ [] | some s ↦ s ∷ [] ] ++ rest)
      ≡ exchange r m ++ exchanges rest
unfolding exchanges shrink
exchanges-stub tool m rest = refl
exchanges-stub assistant m rest = elim (List-cases m.tool_calls) [
  | inl none_asked ↦ rw none_asked refl
  | inr (c, cs, some_asked) ↦ rw (some_asked, ids-stub cs) refl
]
exchanges-stub user m rest = refl
exchanges-stub system m rest = refl

exchanges-collapse :
    (sprintf : Format) (ranges : List HiddenRange) (floor : ℕ) (noted : List Text)
    (es : List HistoryEntry)
    → exchanges (collapse sprintf ranges floor noted es) ≡ exchanges (messages es)
unfolding exchanges collapse
exchanges-collapse sprintf ranges floor noted [] = refl
exchanges-collapse sprintf ranges floor noted (e ∷ es) =
    let here : List (Bool × Text) = exchange e.message.role e.message in
    elim (Option-cases (shown_range ranges floor e)) [
      | inl shown ↦
          rw (shown, collapse)
            (ap (λ (l : List (Bool × Text)). here ++ l)
              (exchanges-collapse sprintf ranges floor noted es))
      | inr (r, hid) ↦
          rw (hid, collapse)
            (elim (Bool-cases (not (any (text_eq r.cp.id) noted) && not (is_tool e.message.role))) [
              | inr old ↦
                  rw (old, collapse)
                    (exchanges-stub e.message.role e.message _
                      ∙ ap (λ (l : List (Bool × Text)). here ++ l)
                          (exchanges-collapse sprintf ranges floor noted es))
              | inl new ↦
                  rw (new, collapse)
                    (exchanges-stub e.message.role e.message _
                      ∙ ap (λ (l : List (Bool × Text)). here ++ l)
                          (exchanges-collapse sprintf ranges floor (r.cp.id ∷ noted) es))
            ])
    ]

project-paired :
    (sprintf : Format) (s : CompactorState) (ranges : List HiddenRange) (es : List HistoryEntry)
    → well_paired [] (messages es) ≡ true
    → (well_paired [] (project sprintf s ranges es).0 ≡ true)
      × (exchanges (project sprintf s ranges es).0 ≡ exchanges (messages es))
unfolding project
project-paired sprintf s ranges [] h = (h, refl)
project-paired sprintf s [] (e ∷ es) h = (h, refl)
project-paired sprintf s (r ∷ rs) (e ∷ es) h =
    let floor : ℕ = (preamble_floor (e ∷ es) s).0 in
    (
      well_paired-collapse sprintf (r ∷ rs) floor [] [] (e ∷ es) h,
      exchanges-collapse sprintf (r ∷ rs) floor [] (e ∷ es),
    )

-- Whatever is hidden: if in the owned history each tool result answers a call of the assistant's
-- message before it, with nothing but results of that message between, so it is in what the model
-- sees; and there the same calls and results stand, with the same ids, in the same order.
pub provide_history-paired :
    (sprintf : Format) (s : CompactorState)
    → well_paired [] (messages s.history) ≡ true
    → (well_paired [] (provide_history sprintf s).0 ≡ true)
      × (exchanges (provide_history sprintf s).0 ≡ exchanges (messages s.history))
unfolding provide_history
provide_history-paired sprintf s h =
    project-paired sprintf s (hidden_ranges s.checkpoints) s.history h
