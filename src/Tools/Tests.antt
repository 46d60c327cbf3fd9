-- ===== src/Tools/Tests.antt =====
-- The theorems on the tool manager at a session of two managers.
use hugen.Prelude.{◌≡◌, refl, true, false, ◌||◌, Option, none, some, List, [], ◌∷◌, ok}
use hugen.Prelude.Text.{Text, codes, text_eq, split_first}
use hugen.Prelude.Maps.{lookup, set, set_all}
use hugen.Policies.{allow}
use hugen.Perm.{
  Permission, merge, merge_rules, apply_rules, add_rule, merge_data, merge_raw, merge_objects,
  set_into,
}
use hugen.Perm.Floor.{disabled_flag, hidden_flag, flagged}
use hugen.Perm.Tests.{one_key, one_key-IsCoding, config_rules}
use hugen.Tools.{
  Tool, Lifetime, per_agent, per_session, Provider, PolicyService, Manager, new_manager,
  add_provider, policies_snapshot, collect_merged_providers, provider_lifetime, dispatch,
  tool_field,
}
use hugen.Tools.Lookup.{AreMaps, call_of, lifetime_of, dispatch-collect_merged}
use hugen.Tools.Snapshot.{World, read_key, build_snapshot, store}
use hugen.Tools.Steps.{at, Steps, new_session}
use hugen.Tools.Resolve.{
  resolve, floor, denied_tier, consult, apply_outcome, tier3_lookup_key, raw_object,
  merge_effective_args,
}
use hugen.Tools.Gate.{user_denies, IsPinned, resolve-merge, resolve-IsPinned}

abbrev run : Tool
run = record {
  name = codes "p:run";
  provider = codes "p";
  permission_object = codes "tool";
  arg_schema = [];
}

abbrev provider : Lifetime → Text → Provider
provider lifetime answer = record {
  name = codes "p";
  lifetime = lifetime;
  list = ok (run ∷ []);
  call = λ name args. ok answer;
  close = ok tt;
}

abbrev with_provider : Lifetime → Text → Manager
with_provider lifetime answer = record new_manager {
  providers = (codes "p", provider lifetime answer) ∷ [];
}

abbrev two_managers : List Manager
two_managers = with_provider per_session (codes "own") ∷ with_provider per_agent (codes "root") ∷ []

two_managers-AreMaps : AreMaps two_managers
unfolding lookup
two_managers-AreMaps = ((refl, tt), ((refl, tt), tt))

shadowed_test : dispatch run [] two_managers ≡ ok (codes "own")
unfolding dispatch lookup text_eq
shadowed_test = refl

dispatch-collect_merged_example :
    (dispatch run [] two_managers
      ≡ call_of run [] (lookup run.provider (collect_merged_providers two_managers)))
    × (provider_lifetime (codes "p") two_managers
        ≡ lifetime_of (lookup (codes "p") (collect_merged_providers two_managers)))
dispatch-collect_merged_example =
    dispatch-collect_merged run [] (codes "p") two_managers two_managers-AreMaps

abbrev no_change : Text → Option Text
no_change t = some t

abbrev same_order : List Tool → List Tool
same_order ts = ts

abbrev parents : List Manager
parents = with_provider per_agent (codes "root") ∷ []

abbrev other : Provider
other = record (provider per_agent (codes "other")) { name = codes "q" }

abbrev w0 : World
w0 = new_session parents []

abbrev w1 : World
w1 = read_key w0

abbrev w2 : World
w2 = record w1 { chain = at 1 (λ m. (add_provider (some other) m).1) w1.chain }

abbrev w3 : World
w3 = build_snapshot same_order no_change w2

abbrev w4 : World
w4 = store w3

abbrev allowing : PolicyService
allowing = record {
  is_configured = true;
  decide = λ a t s.
      ok (record {
        outcome = allow;
        tool_name = codes "p:run";
        scope = codes "global";
        reason = [];
      });
}

abbrev gated : List Manager
gated = new_manager ∷ record new_manager { policies = some allowing } ∷ []

abbrev let_through : Permission
let_through = record {
  disabled = false;
  hidden = false;
  args = codes "a2";
  filter = [];
  from_config = true;
  from_remote = false;
  from_user = true;
}

resolve-merge_example :
    ((flagged disabled_flag (codes "tool") (tool_field (codes "p:run")) config_rules
        || flagged disabled_flag (codes "tool") (tool_field (codes "p:run")) [])
      ≡ false)
    × (user_denies
          (policies_snapshot gated)
          ((tier3_lookup_key none none).0)
          (codes "p:run")
          ((tier3_lookup_key none none).1)
        ≡ false)
    × (false ≡ (
        flagged hidden_flag (codes "tool") (tool_field (codes "p:run")) config_rules
        || flagged hidden_flag (codes "tool") (tool_field (codes "p:run")) []))
unfolding resolve merge merge_rules apply_rules add_rule merge_data merge_raw merge_objects set_into
    set_all set text_eq floor denied_tier consult apply_outcome tier3_lookup_key raw_object
    merge_effective_args policies_snapshot tool_field split_first
resolve-merge_example =
    resolve-merge one_key config_rules [] gated none none run (codes "a1") let_through (codes "a2")
      refl

resolve-IsPinned_test : IsPinned one_key (codes "a1") (codes "a2") (codes "a2")
unfolding resolve merge merge_rules apply_rules add_rule merge_data merge_raw merge_objects set_into
    set_all set text_eq floor denied_tier consult apply_outcome tier3_lookup_key raw_object
    merge_effective_args policies_snapshot tool_field split_first
resolve-IsPinned_test =
    resolve-IsPinned one_key one_key-IsCoding (merge one_key config_rules []) gated none none run
      (codes "a1") let_through (codes "a2") refl refl
