-- ===== src/Tools/Resolve.antt =====
-- The gate of a tool call: `Resolve` of pkg/tool/manager.go, over the merged rules of pkg/auth/perm and
-- the user's policy.
use hugen.Prelude.{true, Option, none, some, List, [], if◌then◌else◌, Result, ok, fail, ◌>>=◌}
use hugen.Prelude.Text.{Text, codes, text_eq}
use hugen.Policies.{Outcome, allow, deny, ask, PolicyError, global, Decision}
use hugen.Perm.{
  Permission, PermError, Coding, entries, set_into, or_error, previous_not_object, rule_not_object,
  not_encoded,
}
use hugen.Tools.{Tool, Manager, PolicyService, policies_snapshot, tool_field}

-- The deciding tier of a refusal.
pub data Tier : Type 0 where
  user_tier remote_tier config_tier unknown_tier : Tier

pub data ResolveError : Type 0 where
  perm_failed : PermError → ResolveError
  policy_failed : PolicyError → ResolveError
  denied : Tier → ResolveError
  args_failed : PermError → ResolveError

unfoldable pub denied_tier : Permission → Tier
denied_tier p =
    if p.from_user
    then user_tier
    else if p.from_remote
    then remote_tier
    else if p.from_config
    then config_tier
    else unknown_tier

abbrev text_or_empty : Option Text → Text
text_or_empty none = []
text_or_empty (some a) = a

-- `tier3LookupKey`: the agent's id of the permission service, where it gives one, else the session's.
unfoldable pub tier3_lookup_key : Option Text → Option Text → Text × Text
tier3_lookup_key agent_id meta =
    let own = text_or_empty agent_id in
    ((if text_eq own [] then text_or_empty meta else own), global)

abbrev pub as_args : {A : Type 0} → Result PermError A → Result ResolveError A
as_args (ok a) = ok a
as_args (fail e) = fail (args_failed e)

-- What the user's outcome does to the permission.
unfoldable pub apply_outcome : Outcome → Permission → Result ResolveError Permission
apply_outcome deny p = fail (denied user_tier)
apply_outcome allow p = ok (record p { from_user = true })
apply_outcome ask p = ok p

abbrev pub on_decision : Result PolicyError Decision → Permission → Result ResolveError Permission
on_decision (fail e) p = fail (policy_failed e)
on_decision (ok dec) p = apply_outcome dec.outcome p

-- Tier 3, where a store is wired and configured.
unfoldable pub consult :
    Option PolicyService → Text → Text → Text → Permission → Result ResolveError Permission
unfolding apply_outcome
consult none agent_id name scope p = ok p
consult (some pol) agent_id name scope p =
    if pol.is_configured then on_decision (pol.decide agent_id name scope) p else ok p

-- The floor of tiers 1 and 2.
unfoldable pub floor : Result PermError Permission → Result ResolveError Permission
unfolding denied_tier
floor (fail e) = fail (perm_failed e)
floor (ok p) = if p.disabled then fail (denied (denied_tier p)) else ok p

module _ {V : Type 0} (coding : Coding V) where
  -- The object of the call's arguments: the empty one where there are none.
  unfoldable pub raw_object : Text → Result PermError (Option (List (Text × V)))
  raw_object raw =
      if text_eq raw []
      then ok (some [])
      else if text_eq raw (codes "null")
      then ok (some [])
      else or_error previous_not_object (coding.unmarshal raw)

  unfoldable pub merge_effective_args : Text → Text → Result PermError Text
  unfolding raw_object
  merge_effective_args raw rule_data =
      if text_eq rule_data []
      then (if text_eq raw [] then ok (codes "{}") else ok raw)
      else or_error rule_not_object (coding.unmarshal rule_data) >>= λ rule_obj.
          (raw_object raw >>= λ raw_obj.
          (set_into raw_obj (entries rule_obj) >>= λ merged.
          or_error not_encoded (coding.marshal merged)))

  -- The permission and the arguments to call with, over `perms.Resolve`.
  unfoldable pub resolve :
      (Text → Text → Result PermError Permission)
      → List Manager
      → Option Text
      → Option Text
      → Tool
      → Text
      → Result ResolveError (Permission × Text)
  unfolding floor consult tier3_lookup_key merge_effective_args policies_snapshot tool_field
  resolve perms chain agent_id meta t raw =
      let (agent, scope) = tier3_lookup_key agent_id meta in
      floor (perms t.permission_object (tool_field t.name)) >>= λ p.
      (consult (policies_snapshot chain) agent t.name scope p >>= λ q.
      (as_args (merge_effective_args raw q.args) >>= λ effective. ok (q, effective)))
