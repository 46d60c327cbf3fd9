-- ===== src/Tools.antt =====
-- The tool manager: pkg/tool/manager.go, with the types of tool.go and policy.go. A manager is the
-- chain of itself and its parents, the root last. What a provider answers, the permission service and
-- the builder of providers are parameters. A generation is a counter that is only ever raised by one.
pub mod Cached
pub mod Gate
pub mod Lookup
pub mod Resolve
pub mod Snapshot
pub mod Steps
mod Tests
use hugen.Prelude.{
  ℕ, suc, ◌+◌, Bool, true, false, Option, none, some, List, [], ◌∷◌, ◌++◌, if◌then◌else◌, Result,
  ok, fail,
}
use hugen.Prelude.Text.{Text, codes, text_eq, split_first}
use hugen.Prelude.Maps.{set, set_all, lookup, remove}
use hugen.Policies.{Decision, PolicyError}

pub record Tool : Type 0 where
  pub name : Text
  pub provider : Text
  pub permission_object : Text
  pub arg_schema : Text

pub data Lifetime : Type 0 where
  per_agent per_session external : Lifetime

pub data ToolError : Type 0 where
  nil_provider empty_name already_registered unknown_provider builder_not_configured : ToolError
  build_failed close_failed list_failed call_failed : ToolError

-- A `ToolProvider`: what its methods answer.
pub record Provider : Type 0 where
  pub name : Text
  pub lifetime : Lifetime
  pub list : Result ToolError (List Tool)
  pub call : Text → Text → Result ToolError Text
  pub close : Result ToolError Unit

pub record PolicyService : Type 0 where
  pub is_configured : Bool
  pub decide : Text → Text → Text → Result PolicyError Decision

pub record Manager : Type 0 where
  pub providers : List (Text × Provider)
  pub tool_gen : ℕ
  pub policy_gen : ℕ
  pub policies : Option PolicyService

abbrev pub new_manager : Manager
new_manager = record { providers = []; tool_gen = 0; policy_gen = 0; policies = none }

-- `NewChild`: a manager of its own in front of the parent's chain.
abbrev pub new_child : List Manager → List Manager
new_child parent = new_manager ∷ parent

-- An operation gives the error, if any, and the state it leaves.
unfoldable pub add_provider : Option Provider → Manager → Result ToolError Unit × Manager
unfolding lookup set
add_provider none m = (fail nil_provider, m)
add_provider (some p) m =
    if text_eq p.name [] then (fail empty_name, m) else elim (lookup p.name m.providers) [
      | some q ↦ (fail already_registered, m)
      | none ↦ (ok tt, record m { providers = set p.name p m.providers; tool_gen = suc m.tool_gen })
    ]

-- The provider is gone and the generation raised also where its `Close` fails.
unfoldable pub remove_provider : Text → Manager → Result ToolError Unit × Manager
unfolding lookup remove
remove_provider name m = elim (lookup name m.providers) [
  | none ↦ (fail unknown_provider, m)
  | some p ↦ (p.close, record m { providers = remove name m.providers; tool_gen = suc m.tool_gen })
]

-- `AddBySpec`, from what the builder's `Build` returned, where a builder is wired: the error, the
-- provider that it closes because it was not added, and the state.
unfoldable pub add_by_spec :
    Option (Result ToolError Provider) → Manager → Result ToolError Unit × Option Provider × Manager
unfolding add_provider
add_by_spec none m = (fail builder_not_configured, none, m)
add_by_spec (some (fail e)) m = (fail e, none, m)
add_by_spec (some (ok p)) m =
    let (r, m') = add_provider (some p) m in (r, elim r [ ok u ↦ none | fail e ↦ some p ], m')

unfoldable pub bump_policy_gen : Manager → Manager
bump_policy_gen m = record m { policy_gen = suc m.policy_gen }

unfoldable pub set_policies : Option PolicyService → Manager → Manager
unfolding bump_policy_gen
set_policies p m = bump_policy_gen (record m { policies = p })

abbrev pub close_errors : List (Text × Provider) → List ToolError
close_errors [] = []
close_errors ((name, p) ∷ ps) = elim p.close [
  | ok u ↦ close_errors ps
  | fail e ↦ e ∷ close_errors ps
]

-- `Close` leaves the generations as they are.
unfoldable pub close : Manager → List ToolError × Manager
close m = (close_errors m.providers, record m { providers = [] })

-- `policiesSnapshot`
unfoldable pub policies_snapshot : List Manager → Option PolicyService
policies_snapshot [] = none
policies_snapshot (m ∷ parents) = elim m.policies [
  | some p ↦ some p
  | none ↦ policies_snapshot parents
]

-- `ToolGen` and `PolicyGen`, the parents' added.
unfoldable pub tool_gen : List Manager → ℕ
tool_gen [] = 0
tool_gen (m ∷ parents) = m.tool_gen + tool_gen parents

unfoldable pub policy_gen : List Manager → ℕ
policy_gen [] = 0
policy_gen (m ∷ parents) = m.policy_gen + policy_gen parents

-- `collectMergedProviders`
unfoldable pub collect_merged_providers : List Manager → List (Text × Provider)
unfolding set_all
collect_merged_providers [] = []
collect_merged_providers (m ∷ parents) = set_all (collect_merged_providers parents) m.providers

unfoldable pub provider_lifetime : Text → List Manager → Option Lifetime
unfolding lookup
provider_lifetime name [] = none
provider_lifetime name (m ∷ parents) = elim (lookup name m.providers) [
  | some p ↦ some p.lifetime
  | none ↦ provider_lifetime name parents
]

-- The part behind the first colon, the whole name where there is none.
unfoldable pub tool_field : Text → Text
unfolding split_first
tool_field full = elim (split_first b':' full) [ none ↦ full | some (before, after) ↦ after ]

unfoldable pub dispatch : Tool → Text → List Manager → Result ToolError Text
unfolding lookup tool_field
dispatch t args [] = fail unknown_provider
dispatch t args (m ∷ parents) = elim (lookup t.provider m.providers) [
  | some p ↦ p.call (tool_field t.name) args
  | none ↦ dispatch t args parents
]
