-- ===== src/Compactor/History.antt =====
-- The history that the model sees: ProvideHistory of pkg/extension/compactor/history.go. The wording of
-- a placeholder, `fmt.Sprintf` of the id, the body and the tokens, is an argument.
use hugen.Prelude.{
  ℕ, ltb, leb, true, false, not, ◌&&◌, Option, none, some, List, [], ◌∷◌, ◌++◌, map, any,
  if◌then◌else◌,
}
use hugen.Prelude.Text.{Text, codes, text_eq, trim_space}
use hugen.Compactor.{
  Role, user, assistant, system, tool, is_tool, ToolCall, Message, HistoryEntry, Checkpoint,
  CompactorState, preamble_floor,
}

pub record HiddenRange : Type 0 where
  pub low : ℕ
  pub high : ℕ
  pub cp : Checkpoint

unfoldable pub ranges_from : ℕ → List Checkpoint → List HiddenRange
ranges_from prev [] = []
ranges_from prev (cp ∷ cps) =
    let rest = ranges_from cp.seq cps in
    if cp.hidden then record { low = prev; high = cp.seq; cp = cp } ∷ rest else rest

-- `sort.Slice` by `low`; short slices are sorted by insertion.
unfoldable pub insert_range : HiddenRange → List HiddenRange → List HiddenRange
insert_range r [] = r ∷ []
insert_range r (x ∷ xs) = if leb r.low x.low then r ∷ x ∷ xs else x ∷ insert_range r xs

unfoldable pub sort_ranges : List HiddenRange → List HiddenRange
unfolding insert_range
sort_ranges [] = []
sort_ranges (r ∷ rs) = insert_range r (sort_ranges rs)

unfoldable pub hidden_ranges : List Checkpoint → List HiddenRange
unfolding ranges_from sort_ranges
hidden_ranges cps = sort_ranges (ranges_from 0 cps)

unfoldable pub match_hidden_range : List HiddenRange → ℕ → Option HiddenRange
match_hidden_range [] seq = none
match_hidden_range (r ∷ rs) seq =
    if ltb r.low seq && leb seq r.high then some r else match_hidden_range rs seq

-- What the model's text says in place of a segment.
abbrev pub Format : Type 0
Format = Text → Text → ℕ → Text

unfoldable pub hidden_segment_note : Format → Checkpoint → Text
hidden_segment_note sprintf cp =
    let note = trim_space cp.note in
    let description = trim_space cp.description in
    let body =
      if text_eq note []
      then (if text_eq description [] then codes "(no description)" else description)
      else note in
    sprintf cp.id body cp.tokens

abbrev pub stub_call : ToolCall → ToolCall
stub_call c = record { id = c.id; name = c.name; args = some (codes "{}") }

abbrev pub blank : Role → Message
blank role = record {
  role = role;
  content = [];
  tool_call_id = [];
  tool_calls = [];
  thinking = [];
  thought_signature = [];
}

-- With U+2014 in UTF-8.
abbrev pub hidden_body : Text
hidden_body = codes "(hidden " ++ (0xe2 ∷ 0x80 ∷ 0x94 ∷ codes " context:expand to restore)")

unfoldable pub shrink : Role → Message → Option Message
shrink assistant m = elim m.tool_calls [
  | [] ↦ none
  | c ∷ cs ↦ some (record (blank assistant) { tool_calls = map stub_call (c ∷ cs) })
]
shrink tool m = some (record (blank tool) { tool_call_id = m.tool_call_id; content = hidden_body })
shrink user m = none
shrink system m = none

unfoldable pub shrink_hidden_entry : Message → Option Message
unfolding shrink
shrink_hidden_entry m = shrink m.role m

abbrev pub note_message : Format → Checkpoint → Message
note_message sprintf cp = record (blank user) { content = hidden_segment_note sprintf cp }

abbrev pub stub : Message → List Message
stub m = elim (shrink_hidden_entry m) [ none ↦ [] | some s ↦ s ∷ [] ]

abbrev pub shown_range : List HiddenRange → ℕ → HistoryEntry → Option HiddenRange
shown_range ranges floor e = if leb e.seq floor then none else match_hidden_range ranges e.seq

-- The loop over the entries; `noted` has the ids whose note is out.
unfoldable pub collapse :
    Format → List HiddenRange → ℕ → List Text → List HistoryEntry → List Message
unfolding shrink_hidden_entry match_hidden_range
collapse sprintf ranges floor noted [] = []
collapse sprintf ranges floor noted (e ∷ es) = elim (shown_range ranges floor e) [
  | none ↦ e.message ∷ collapse sprintf ranges floor noted es
  | some r ↦ elim (not (any (text_eq r.cp.id) noted) && not (is_tool e.message.role)) [
    | true ↦
        note_message sprintf r.cp
        ∷ (stub e.message ++ collapse sprintf ranges floor (r.cp.id ∷ noted) es)
    | false ↦ stub e.message ++ collapse sprintf ranges floor noted es
  ]
]

abbrev pub messages : List HistoryEntry → List Message
messages es = map (λ (e : HistoryEntry). e.message) es

unfoldable pub project :
    Format → CompactorState → List HiddenRange → List HistoryEntry → List Message × CompactorState
unfolding collapse preamble_floor
project sprintf s ranges [] = ([], s)
project sprintf s [] (e ∷ es) = (messages (e ∷ es), s)
project sprintf s (r ∷ rs) (e ∷ es) =
    let (floor, s') = preamble_floor (e ∷ es) s in (collapse sprintf (r ∷ rs) floor [] (e ∷ es), s')

-- `ProvideHistory`, with the state that remembers the preamble's end.
unfoldable pub provide_history : Format → CompactorState → List Message × CompactorState
unfolding hidden_ranges project
provide_history sprintf s = project sprintf s (hidden_ranges s.checkpoints) s.history
