-- ===== src/Policies/Table.antt =====
-- The operations on the stored policies: policies.go's Save, Revoke and Decide, and the tools
-- policy:save and policy:revoke of tools.go, over a querier that is a parameter.
pub mod Saving
pub mod Upsert
mod Tests
use hugen.Prelude.{
  ℕ, ltb, Bool, true, false, not, ◌||◌, Option, none, some, List, [], ◌∷◌, if◌then◌else◌, Result,
  ok, fail, ◌>>=◌,
}
use hugen.Prelude.Text.{Text, codes, text_eq}
use hugen.Policies.{
  Outcome, to_string, Decision, no_decision, Row, Input, QueryError, wrong_data_path, no_data,
  broken, PolicyError, unavailable, agent_required, tool_required, id_required, permission_denied,
  query_failed, or_global, policy_id, parse_policy_id, decide_rows, decode_decision,
}

-- The requests of the code on a table in the state `D`: the rows of an agent, the update of a key's
-- policy and note with the number of rows that it reached, an insertion, a deletion.
pub record Querier (D : Type 0) : Type 0 where
  pub list_rows : D → Text → Result QueryError (List Row)
  pub update_rows : D → Text → Text → Text → Text → Text → Result QueryError ℕ × D
  pub insert_row :
      D → Text → Text → Text → Text → Text → Option Text → Result QueryError (Unit {0}) × D
  pub delete_rows : D → Text → Text → Text → Result QueryError (Unit {0}) × D

-- An empty answer stands for a value of its own.
unfoldable pub or_empty : {A : Type 0} → A → Result QueryError A → Result PolicyError A
or_empty a (ok x) = ok x
or_empty a (fail wrong_data_path) = ok a
or_empty a (fail no_data) = ok a
or_empty a (fail broken) = fail (query_failed broken)

abbrev pub or_failed : {A : Type 0} → Result QueryError A → Result PolicyError A
or_failed (ok x) = ok x
or_failed (fail e) = fail (query_failed e)

abbrev pub optional : Text → Option Text
optional note = if text_eq note [] then none else some note

abbrev pub defaults : Input → Input
defaults i = record i {
  scope = or_global i.scope;
  created_by = if text_eq i.created_by [] then codes "user" else i.created_by;
}

-- `perms.Resolve` on `hugen:policy:persist`, which says whether the tool is disabled.
pub gate_persist : Option (Text → Result PolicyError Bool) → Text → Result PolicyError (Unit {0})
gate_persist none tool_name = ok tt
gate_persist (some resolve) tool_name =
    resolve tool_name >>= λ disabled. if disabled then fail permission_denied else ok tt

abbrev llm_input : Text → Text → Text → Text → Outcome → Input
llm_input agent_id tool_name scope note out = record {
  agent_id = agent_id;
  tool_name = tool_name;
  scope = scope;
  decision = out;
  note = note;
  created_by = codes "llm";
}

module _ {D : Type 0} where
  pub list : Querier D → D → Text → Result PolicyError (List Row)
  unfolding or_empty
  list q d agent_id = or_empty [] (q.list_rows d agent_id)

  pub update : Querier D → D → Input → Result PolicyError ℕ × D
  unfolding or_empty
  update q d i =
      let r = q.update_rows d i.agent_id i.tool_name i.scope (to_string i.decision) i.note in
      (or_empty 0 r.0, r.1)

  pub insert : Querier D → D → Input → Result PolicyError (Unit {0}) × D
  insert q d i =
      let r =
        q.insert_row d i.agent_id i.tool_name i.scope (to_string i.decision) i.created_by
          (optional i.note) in
      (or_failed r.0, r.1)

  pub with_id : Text → Result PolicyError (Unit {0}) × D → Result PolicyError Text × D
  with_id id (ok _, d) = (ok id, d)
  with_id id (fail e, d) = (fail e, d)

  pub after_update : Querier D → Input → Result PolicyError ℕ × D → Result PolicyError Text × D
  unfolding insert with_id
  after_update q i (fail e, d) = (fail e, d)
  after_update q i (ok n, d) =
      let id = policy_id i.agent_id i.tool_name i.scope in
      if ltb 0 n then (ok id, d) else with_id id (insert q d i)

  pub save : Option (Querier D) → D → Input → Result PolicyError Text × D
  unfolding update after_update
  save none d i = (fail unavailable, d)
  save (some q) d i =
      if text_eq i.agent_id []
      then (fail agent_required, d)
      else if text_eq i.tool_name []
      then (fail tool_required, d)
      else after_update q (defaults i) (update q d (defaults i))

  pub revoke : Option (Querier D) → D → Text → Result PolicyError (Unit {0}) × D
  revoke none d id = (fail unavailable, d)
  revoke (some q) d id = elim (parse_policy_id id) [
    | fail e ↦ (fail e, d)
    | ok (agent_id, tool_name, scope) ↦
        let r = q.delete_rows d agent_id tool_name scope in (or_failed r.0, r.1)
  ]

  pub decide : Option (Querier D) → D → Text → Text → Text → Result PolicyError Decision
  unfolding list
  decide none d agent_id tool_name scope = ok no_decision
  decide (some q) d agent_id tool_name scope =
      if text_eq agent_id [] || text_eq tool_name []
      then ok no_decision
      else list q d agent_id >>= λ rows. decide_rows rows tool_name scope

  saved_reply :
      Text → Outcome → Result PolicyError Text × D → Result PolicyError (Text × Text × Text) × D
  saved_reply tool_name out (fail e, d) = (fail e, d)
  saved_reply tool_name out (ok id, d) = (ok (id, tool_name, to_string out), d)

  -- `callSave` behind the decoding of its arguments; the agent's id is `p.agentID(ctx)`.
  pub call_save :
      Option (Querier D)
      → Option (Text → Result PolicyError Bool)
      → Text
      → D
      → Text
      → Text
      → Text
      → Text
      → Result PolicyError (Text × Text × Text) × D
  unfolding saved_reply
  call_save none resolve agent_id d tool_name decision scope note = (fail unavailable, d)
  call_save (some q) resolve agent_id d tool_name decision scope note =
      if text_eq tool_name [] then (fail tool_required, d) else elim (decode_decision decision) [
        | fail e ↦ (fail e, d)
        | ok out ↦ elim (gate_persist resolve tool_name) [
          | fail e ↦ (fail e, d)
          | ok _ ↦
              saved_reply tool_name out
                (save (some q) d (llm_input agent_id tool_name scope note out))
        ]
      ]

  pub call_revoke :
      Option (Querier D)
      → Option (Text → Result PolicyError Bool)
      → D
      → Text
      → Result PolicyError (Unit {0}) × D
  call_revoke none resolve d id = (fail unavailable, d)
  call_revoke (some q) resolve d id =
      if text_eq id [] then (fail id_required, d) else elim (parse_policy_id id) [
        | fail e ↦ (fail e, d)
        | ok (agent_id, tool_name, scope) ↦ elim (gate_persist resolve tool_name) [
          | fail e ↦ (fail e, d)
          | ok _ ↦ revoke (some q) d id
        ]
      ]
