-- ===== src/Tools/Lookup.antt =====
-- What a call reaches: the chain of managers is searched as the merged map of its providers is read.
use hugen.Prelude.{
  ◌≡◌, refl, sym, ap, ◌∙◌, Option, none, some, List, [], ◌∷◌, Result, fail, All, Bool-cases, inl,
  inr, Option-cases,
}
use hugen.Prelude.Text.{Text, text_eq}
use hugen.Prelude.Maps.{or_else, lookup, IsMap, lookup-set_all, set-IsMap, remove-IsMap}
use hugen.Tools.{
  Tool, Lifetime, ToolError, unknown_provider, Provider, Manager, add_provider, remove_provider,
  collect_merged_providers, provider_lifetime, dispatch, tool_field,
}

-- No manager of the chain has two providers under one name.
abbrev pub AreMaps : List Manager → Type 0
AreMaps chain = All (λ m. IsMap m.providers) chain

abbrev pub call_of : Tool → Text → Option Provider → Result ToolError Text
call_of t args none = fail unknown_provider
call_of t args (some p) = p.call (tool_field t.name) args

abbrev pub lifetime_of : Option Provider → Option Lifetime
lifetime_of none = none
lifetime_of (some p) = some p.lifetime

-- The first provider of the name along the chain.
abbrev pub first_of : Text → List Manager → Option Provider
first_of name [] = none
first_of name (m ∷ parents) = or_else (lookup name m.providers) (first_of name parents)

pub lookup-collect :
    (name : Text) (chain : List Manager)
    → AreMaps chain
    → lookup name (collect_merged_providers chain) ≡ first_of name chain
unfolding collect_merged_providers lookup
lookup-collect name [] h = refl
lookup-collect name (m ∷ parents) h =
    lookup-set_all name (collect_merged_providers parents) m.providers h.0
    ∙ ap (or_else (lookup name m.providers)) (lookup-collect name parents h.1)

dispatch-first :
    (t : Tool) (args : Text) (chain : List Manager)
    → dispatch t args chain ≡ call_of t args (first_of t.provider chain)
unfolding dispatch
dispatch-first t args [] = refl
dispatch-first t args (m ∷ parents) = elim (Option-cases (lookup t.provider m.providers)) [
  | inl e ↦ simp (e, dispatch) (dispatch-first t args parents)
  | inr (p, e) ↦ simp (e, dispatch) refl
]

lifetime-first :
    (name : Text) (chain : List Manager)
    → provider_lifetime name chain ≡ lifetime_of (first_of name chain)
unfolding provider_lifetime
lifetime-first name [] = refl
lifetime-first name (m ∷ parents) = elim (Option-cases (lookup name m.providers)) [
  | inl e ↦ simp (e, provider_lifetime) (lifetime-first name parents)
  | inr (p, e) ↦ simp (e, provider_lifetime) refl
]

-- Where no manager has a name twice, a tool is dispatched to the provider that the merged map has
-- under the tool's provider name, with the tool's field as the name of the call, and fails as unknown
-- where the map has none; and the lifetime found under a name is that of the merged map's provider.
pub dispatch-collect_merged :
    (t : Tool) (args name : Text) (chain : List Manager)
    → AreMaps chain
    → (dispatch t args chain ≡ call_of t args (lookup t.provider (collect_merged_providers chain)))
      × (provider_lifetime name chain ≡ lifetime_of (lookup name (collect_merged_providers chain)))
dispatch-collect_merged t args name chain h = (
  dispatch-first t args chain ∙ ap (call_of t args) (sym (lookup-collect t.provider chain h)),
  lifetime-first name chain ∙ ap lifetime_of (sym (lookup-collect name chain h)),
)

-- Registering and removing keep one provider a name.
pub add_provider-IsMap :
    (p : Option Provider) (m : Manager) → IsMap m.providers → IsMap ((add_provider p m).1).providers
unfolding add_provider
add_provider-IsMap none m h = h
add_provider-IsMap (some p) m h = elim (Bool-cases (text_eq p.name [])) [
  | inl e ↦ rw e h
  | inr e ↦ rw e (elim (Option-cases (lookup p.name m.providers)) [
    | inl f ↦ rw f (set-IsMap p.name p m.providers h)
    | inr (q, f) ↦ rw f h
  ])
]

pub remove_provider-IsMap :
    (name : Text) (m : Manager) → IsMap m.providers → IsMap ((remove_provider name m).1).providers
unfolding remove_provider
remove_provider-IsMap name m h = elim (Option-cases (lookup name m.providers)) [
  | inl f ↦ rw (f, remove_provider) h
  | inr (q, f) ↦ rw (f, remove_provider) (remove-IsMap name m.providers h)
]
