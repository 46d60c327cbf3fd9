-- ===== src/Template.antt =====
-- The placeholders of rules: pkg/auth/template/apply.go. The decoding and the encoding of JSON are
-- parameters; a decoded value is a `Json`.
pub mod Pieces
mod Tests
use hugen.Prelude.{
  ℕ, zero, suc, ◌==◌, Bool, true, false, not, ◌&&◌, Option, none, some, List, [], ◌∷◌, ◌++◌,
  if◌then◌else◌, Result, ok, fail, length,
}
use hugen.Prelude.Text.{Text, codes, text_eq, split_first, cut_prefix}
use hugen.Prelude.Maps.{lookup}

pub record Context : Type 0 where
  pub user_id : Text
  pub role : Text
  pub agent_id : Text
  pub session_id : Text
  pub session_metadata : List (Text × Text)

abbrev pub text_or_empty : Option Text → Text
text_or_empty none = []
text_or_empty (some t) = t

-- `lookup` of a token; a nil map of metadata is the empty one.
unfoldable pub lookup_metadata : Context → Option Text → Option Text
unfolding lookup
lookup_metadata ctx none = none
lookup_metadata ctx (some []) = none
lookup_metadata ctx (some (c ∷ rest)) =
    some (text_or_empty (lookup (c ∷ rest) ctx.session_metadata))

unfoldable pub lookup_token : Text → Context → Option Text
unfolding lookup_metadata
lookup_token token ctx =
    if text_eq token (codes "auth.user_id")
    then some ctx.user_id
    else if text_eq token (codes "auth.role")
    then some ctx.role
    else if text_eq token (codes "agent.id")
    then some ctx.agent_id
    else if text_eq token (codes "session.id")
    then some ctx.session_id
    else lookup_metadata ctx (cut_prefix (codes "session.metadata.") token)

-- What is before and behind the first `[$`.
unfoldable pub split_open : Text → Option (Text × Text)
split_open [] = none
split_open (a ∷ []) = none
split_open (a ∷ b ∷ s) =
    let rest = split_open (b ∷ s) in
    if a == b'[' && b == b'$'
    then some ([], s)
    else elim rest [ none ↦ none | some (before, after) ↦ some (a ∷ before, after) ]

-- What a token in brackets becomes: itself, brackets and all, where it is not known.
unfoldable pub replacement : Context → Text → Text
unfolding lookup_token
replacement ctx token = elim (lookup_token token ctx) [
  | some value ↦ value
  | none ↦ b'[' ∷ b'$' ∷ (token ++ b']' ∷ [])
]

-- The loop of `substitute`, on fuel: `none` where it runs out.
unfoldable pub substitute_loop : ℕ → Context → Text → Option Text
unfolding split_open replacement
substitute_loop zero ctx s = none
substitute_loop (suc fuel) ctx s = elim (split_open s) [
  | none ↦ some s
  | some (before, after) ↦ elim (split_first b']' after) [
    | none ↦ some s
    | some (token, rest) ↦ elim (substitute_loop fuel ctx rest) [
      | none ↦ none
      | some out ↦ some (before ++ (replacement ctx token ++ out))
    ]
  ]
]

-- `substitute`; each round takes at least three bytes.
unfoldable pub substitute : Context → Text → Text
unfolding substitute_loop
substitute ctx s = text_or_empty (substitute_loop (suc (length s)) ctx s)

-- The values that encoding/json decodes to.
mutual
  pub data Json : Type 0 where
    string : Text → Json
    object : Members → Json
    array : Elements → Json
    scalar : Text → Json

  pub data Members : Type 0 where
    no_members : Members
    member : Text → Json → Members → Members

  pub data Elements : Type 0 where
    no_elements : Elements
    element : Json → Elements → Elements

unfoldable mutual
  pub walk : Context → Json → Json
  walk ctx (string t) = string (substitute ctx t)
  walk ctx (object m) = object (walk_members ctx m)
  walk ctx (array e) = array (walk_elements ctx e)
  walk ctx (scalar t) = scalar t

  pub walk_members : Context → Members → Members
  walk_members ctx no_members = no_members
  walk_members ctx (member k v m) = member k (walk ctx v) (walk_members ctx m)

  pub walk_elements : Context → Elements → Elements
  walk_elements ctx no_elements = no_elements
  walk_elements ctx (element v e) = element (walk ctx v) (walk_elements ctx e)

pub data TemplateError : Type 0 where
  not_json not_encoded : TemplateError

unfoldable pub apply :
    (Text → Option Json) → (Json → Option Text) → Context → Text → Result TemplateError Text
unfolding walk
apply unmarshal marshal ctx raw = if text_eq raw [] then ok raw else elim (unmarshal raw) [
  | none ↦ fail not_json
  | some v ↦ elim (marshal (walk ctx v)) [ none ↦ fail not_encoded | some t ↦ ok t ]
]

abbrev pub apply_string : Context → Text → Text
apply_string ctx s = substitute ctx s
