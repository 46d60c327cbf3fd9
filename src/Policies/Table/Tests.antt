-- ===== src/Policies/Table/Tests.antt =====
-- The theorems on the policies over a table that is a list of rows.
use hugen.Prelude.{
  ◌≡◌, refl, sym, ◌⊎◌, inl, inr, true, ◌&&◌, Option, none, some, List, [], ◌∷◌, map, arith,
  if◌then◌else◌, ok, Bool-cases,
}
use hugen.Prelude.Text.{
  Text, codes, text_eq, text_eq_refl, trim_space, ends_with_byte, drop_last, has_prefix,
}
use hugen.Policies.{
  Outcome, allow, deny, to_string, Decision, Row, Input, global, policy_id, parse_policy_id,
  decision_of, is_exact, match_row, scope_chain, decide_rows,
}
use hugen.Policies.Ids.{parse-policy_id}
use hugen.Policies.Matching.{In, IsBest, match_row-IsBest, listed_first}
use hugen.Policies.Table.{Querier, or_empty, update, after_update, save, decide}
use hugen.Policies.Table.Saving.{decide-save}
use hugen.Policies.Table.Upsert.{IsTable, advance, count}

abbrev of_agent : Text → List Row → List Row
of_agent a [] = []
of_agent a (r ∷ rows) = if text_eq r.agent_id a then r ∷ of_agent a rows else of_agent a rows

abbrev advance_all : Text → Text → Text → Text → Text → List Row → List Row
advance_all a t s p n [] = []
advance_all a t s p n (r ∷ rows) =
    (if text_eq r.agent_id a then advance t s p n r else r) ∷ advance_all a t s p n rows

abbrev note_or : Option Text → Text
note_or none = []
note_or (some n) = n

abbrev new_row : Text → Text → Text → Text → Option Text → Row
new_row a t s p n = record { agent_id = a; tool_name = t; scope = s; policy = p; note = note_or n }

abbrev rows_table : Querier (List Row)
rows_table = record {
  list_rows = λ d a. ok (of_agent a d);
  update_rows = λ d a t s p n. (ok (count (is_exact t s) (of_agent a d)), advance_all a t s p n d);
  insert_row = λ d a t s p c n. (ok tt, new_row a t s p n ∷ d);
  delete_rows = λ d a t s. (ok tt, d);
}

agent-advance : (t s p n : Text) (r : Row) → (advance t s p n r).agent_id ≡ r.agent_id
agent-advance t s p n r = ground arith

of_agent-advance_all :
    (a t s p n : Text) (d : List Row)
    → of_agent a (advance_all a t s p n d) ≡ map (advance t s p n) (of_agent a d)
of_agent-advance_all a t s p n [] = refl
of_agent-advance_all a t s p n (r ∷ d) = elim (Bool-cases (text_eq r.agent_id a)) [
  | inl e ↦ rw (e, agent-advance t s p n r, e, of_agent-advance_all a t s p n d) refl
  | inr e ↦ rw (e, e, of_agent-advance_all a t s p n d) refl
]

-- The listed table does what the code relies on.
rows_table-IsTable : IsTable rows_table
unfolding or_empty
rows_table-IsTable = record {
  view = λ d a. of_agent a d;
  listed = λ d a. refl;
  updated = λ d a t s p n k e. (of_agent-advance_all a t s p n d, cc);
  inserted = λ d a t s p c n e. (
    new_row a t s p n,
    key t s (text_eq_refl s) (text_eq_refl t),
    refl,
    newest a t s p n d,
    only a t s p n d,
  );
}
  where
    key :
        (t s : Text) → text_eq s s ≡ true → text_eq t t ≡ true → (text_eq s s && text_eq t t) ≡ true
    key t s e e' = rw (e, e') refl

    newest :
        (a t s p : Text) (n : Option Text) (d : List Row)
        → In (new_row a t s p n) (of_agent a (new_row a t s p n ∷ d))
    newest a t s p n d = rw (text_eq_refl a) (inl refl)

    only :
        (a t s p : Text) (n : Option Text) (d : List Row) (r : Row)
        → In r (of_agent a (new_row a t s p n ∷ d))
        → (r ≡ new_row a t s p n) ⊎ In r (of_agent a d)
    only a t s p n d r m = elim (rw (text_eq_refl a) at m) [ inl e ↦ inl (sym e) | inr h ↦ inr h ]

abbrev wish : Input
wish = record {
  agent_id = codes "agent";
  tool_name = codes "hugr-main:data-*";
  scope = codes "role:analyst:sql";
  decision = deny;
  note = [];
  created_by = [];
}

abbrev wish_id : Text
wish_id = codes "agent|hugr-main:data-*|role:analyst:sql"

decide-save_example :
    (dec : Decision) × (decide
        (some rows_table)
        (save (some rows_table) [] wish).1
        wish.agent_id
        wish.tool_name
        wish.scope
      ≡ ok dec)
    × (dec.outcome ≡ wish.decision)
unfolding save update after_update policy_id trim_space text_eq
decide-save_example = decide-save rows_table rows_table-IsTable [] wish wish_id refl refl

parse-policy_id_example :
    parse_policy_id (policy_id (codes "a") (codes "p:t") []) ≡ ok (codes "a", codes "p:t", global)
unfolding text_eq
parse-policy_id_example =
    parse-policy_id (codes "a") (codes "p:t") [] (omega arith, tt)
      (omega arith, (omega arith, (omega arith, tt))) refl refl

abbrev row_of : Text → Outcome → Row
row_of t o = record {
  agent_id = codes "agent";
  tool_name = t;
  scope = global;
  policy = to_string o;
  note = [];
}

listed_first_test :
    (decide_rows
        (row_of (codes "hugr:*") allow ∷ row_of (codes "hugr:data-*") deny ∷ [])
        (codes "hugr:data-x")
        global
      ≡ decision_of (row_of (codes "hugr:*") allow))
    × (decide_rows
          (row_of (codes "hugr:data-*") deny ∷ row_of (codes "hugr:*") allow ∷ [])
          (codes "hugr:data-x")
          global
        ≡ decision_of (row_of (codes "hugr:data-*") deny))
unfolding text_eq ends_with_byte drop_last has_prefix
listed_first_test =
    listed_first (codes "hugr:data-x") (row_of (codes "hugr:*") allow)
      (row_of (codes "hugr:data-*") deny) refl refl refl refl

abbrev some_rows : List Row
some_rows = row_of (codes "hugr:*") allow ∷ row_of (codes "hugr:data-x") deny ∷ []

match_row-IsBest_example :
    IsBest some_rows
      (codes "hugr:data-x")
      (scope_chain global)
      (match_row some_rows (codes "hugr:data-x") (scope_chain global))
match_row-IsBest_example = match_row-IsBest some_rows (codes "hugr:data-x") (scope_chain global)
