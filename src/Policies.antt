-- ===== src/Policies.antt =====
-- The stored tool policies of a user: pkg/tool/providers/policies (store.go, policies.go, tools.go)
-- and pkg/tool/policy.go. The table behind the GraphQL querier is a parameter: four operations on
-- its state.
pub mod Ids
pub mod Matching
pub mod Table
use hugen.Prelude.{
  ℕ, zero, suc, ◌==◌, ltb, Bool, true, false, not, ◌&&◌, ◌||◌, Option, none, some, List, [], ◌∷◌,
  ◌++◌, if◌then◌else◌, Result, ok, fail, ◌>>=◌,
}
use hugen.Prelude.Text.{
  Text, codes, text_eq, trim_space, has_prefix, cut_prefix, split_first, ends_with_byte, drop_last,
}

pub data Outcome : Type 0 where
  ask allow deny : Outcome

-- `PolicyOutcome.String`
pub to_string : Outcome → Text
to_string allow = codes "always_allowed"
to_string deny = codes "denied"
to_string ask = codes "manual_required"

pub record Decision : Type 0 where
  pub outcome : Outcome
  pub tool_name : Text
  pub scope : Text
  pub reason : Text

abbrev pub no_decision : Decision
no_decision = record { outcome = ask; tool_name = []; scope = []; reason = [] }

pub record Row : Type 0 where
  pub agent_id : Text
  pub tool_name : Text
  pub scope : Text
  pub policy : Text
  pub note : Text

pub record Input : Type 0 where
  pub agent_id : Text
  pub tool_name : Text
  pub scope : Text
  pub decision : Outcome
  pub note : Text
  pub created_by : Text

-- What the querier answers when it fails: an empty answer, which the code takes for no row, or an error.
pub data QueryError : Type 0 where
  wrong_data_path no_data broken : QueryError

pub data PolicyError : Type 0 where
  unavailable agent_required tool_required malformed_id : PolicyError
  unknown_policy : Text → PolicyError
  unknown_decision id_required permission_denied unresolved : PolicyError
  query_failed : QueryError → PolicyError

abbrev pub global : Text
global = codes "global"

abbrev pub or_global : Text → Text
or_global scope = if text_eq scope [] then global else scope

pub policy_id : Text → Text → Text → Text
policy_id agent_id tool_name scope = agent_id ++ b'|' ∷ (tool_name ++ b'|' ∷ or_global scope)

abbrev pub non_empty : Text → Bool
non_empty s = not (text_eq s [])

-- The three parts are there and none is empty.
pub checked_parts : Text → Text → Text → Result PolicyError (Text × Text × Text)
checked_parts a t s =
    if non_empty a && (non_empty t && non_empty s) then ok (a, t, s) else fail malformed_id

pub parse_rest : Text → Option (Text × Text) → Result PolicyError (Text × Text × Text)
unfolding checked_parts
parse_rest a none = fail malformed_id
parse_rest a (some (t, s)) = checked_parts a t s

pub parse_parts : Option (Text × Text) → Result PolicyError (Text × Text × Text)
unfolding parse_rest
parse_parts none = fail malformed_id
parse_parts (some (a, rest)) = parse_rest a (split_first b'|' rest)

-- `strings.SplitN(id, "|", 3)` cuts at the first two bars.
pub parse_policy_id : Text → Result PolicyError (Text × Text × Text)
unfolding parse_parts
parse_policy_id id = parse_parts (split_first b'|' id)

-- The scope of the skill, where a role's scope names one.
pub skill_of : Text → List Text
skill_of scope = elim (cut_prefix (codes "role:") scope) [
  | none ↦ []
  | some rest ↦ elim (split_first b':' rest) [
    | none ↦ []
    | some (skill, role) ↦ if non_empty skill then (codes "skill:" ++ skill) ∷ [] else []
  ]
]

pub scope_chain : Text → List Text
unfolding skill_of
scope_chain raw =
    let scope = trim_space raw in
    if text_eq scope [] || text_eq scope global
    then global ∷ []
    else scope ∷ skill_of scope ++ global ∷ []

pub parse_policy_outcome : Text → Result PolicyError Outcome
parse_policy_outcome s =
    if text_eq s (codes "always_allowed")
    then ok allow
    else if text_eq s (codes "denied")
    then ok deny
    else if text_eq s (codes "manual_required") || text_eq s []
    then ok ask
    else fail (unknown_policy s)

pub reason_of : Row → Text
reason_of r =
    if non_empty r.note then r.note else codes "policy " ++ r.policy ++ codes " @ " ++ r.scope

pub decision_of : Row → Result PolicyError Decision
unfolding parse_policy_outcome reason_of
decision_of r = parse_policy_outcome r.policy >>= λ out.
    ok (record { outcome = out; tool_name = r.tool_name; scope = r.scope; reason = reason_of r })

abbrev pub is_exact : Text → Text → Row → Bool
is_exact tool_name sc r = text_eq r.scope sc && text_eq r.tool_name tool_name

-- The row's tool name is a prefix of the asked one and a star.
abbrev pub is_glob : Text → Text → Row → Bool
is_glob tool_name sc r =
    text_eq r.scope sc
    && (ends_with_byte b'*' r.tool_name && has_prefix tool_name (drop_last r.tool_name))

pub find_row : (Row → Bool) → List Row → Option Row
find_row p [] = none
find_row p (r ∷ rows) = if p r then some r else find_row p rows

abbrev pub or_else : Option Row → Option Row → Option Row
or_else (some r) next = some r
or_else none next = next

-- The row that the loop over the scopes returns with.
pub match_row : List Row → Text → List Text → Option Row
match_row rows tool_name [] = none
match_row rows tool_name (sc ∷ scopes) =
    or_else (find_row (is_exact tool_name sc) rows)
      (or_else (find_row (is_glob tool_name sc) rows) (match_row rows tool_name scopes))

pub decide_rows : List Row → Text → Text → Result PolicyError Decision
unfolding match_row
decide_rows rows tool_name scope = elim (match_row rows tool_name (scope_chain scope)) [
  | none ↦ ok no_decision
  | some r ↦ decision_of r
]

-- `decodeDecision` of the tool's argument.
pub decode_decision : Text → Result PolicyError Outcome
decode_decision s =
    if text_eq s (codes "allow") || text_eq s (codes "always_allowed")
    then ok allow
    else if text_eq s (codes "deny") || text_eq s (codes "denied")
    then ok deny
    else if text_eq s (codes "ask") || (text_eq s (codes "manual_required") || text_eq s [])
    then ok ask
    else fail unknown_decision
