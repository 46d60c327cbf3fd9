-- ===== src/Perm.antt =====
-- The merge of the configured and the remote permission rules: pkg/auth/perm/merge.go, and
-- mergeDataConfigWins of local.go. `args` is the field `Data`. The JSON coding is a parameter, as are the template substitutions
-- in data and filters, over which the theorems range.
pub mod Data
pub mod Floor
pub mod Tests
use hugen.Prelude.{
  Bool, true, false, not, ◌&&◌, ◌||◌, Option, none, some, List, [], ◌∷◌, ◌++◌, if◌then◌else◌,
  Result, ok, fail, ◌>>=◌,
}
use hugen.Prelude.Text.{Text, codes, text_eq}
use hugen.Prelude.Maps.{set_all}

pub record Rule : Type 0 where
  pub type : Text
  pub field : Text
  pub disabled : Bool
  pub hidden : Bool
  pub args : Text
  pub filter : Text

pub record Permission : Type 0 where
  pub disabled : Bool
  pub hidden : Bool
  pub args : Text
  pub filter : Text
  pub from_config : Bool
  pub from_remote : Bool
  pub from_user : Bool

abbrev pub no_permission : Permission
no_permission = record {
  disabled = false;
  hidden = false;
  args = [];
  filter = [];
  from_config = false;
  from_remote = false;
  from_user = false;
}

pub data PermError : Type 0 where
  data_template previous_not_object rule_not_object not_encoded nil_map : PermError

-- Maps as `json.Unmarshal` fills and `json.Marshal` reads them, the values of the type `V`; `none` in
-- a `some` is the nil map, which is what `null` leaves. And the two
-- substitutions of pkg/auth/template.
pub record Coding (V : Type 0) : Type 0 where
  pub unmarshal : Text → Option (Option (List (Text × V)))
  pub marshal : Option (List (Text × V)) → Option Text
  pub apply : Text → Option Text
  pub apply_string : Text → Text

module _ {V : Type 0} where
  abbrev pub entries : Option (List (Text × V)) → List (Text × V)
  entries none = []
  entries (some m) = m

  -- The loop on maps: a write to the nil map panics.
  unfoldable pub set_into :
      Option (List (Text × V)) → List (Text × V) → Result PermError (Option (List (Text × V)))
  unfolding set_all
  set_into (some pm) wm = ok (some (set_all pm wm))
  set_into none [] = ok none
  set_into none (x ∷ wm) = fail nil_map

abbrev pub or_error : {A : Type 0} → PermError → Option A → Result PermError A
or_error e none = fail e
or_error e (some a) = ok a

abbrev pub both : Text → Text → Text
both a b = codes "(" ++ (a ++ (codes ") AND (" ++ (b ++ codes ")")))

abbrev pub matches : Text → Text → Rule → Bool
matches object field r =
    text_eq r.type object && (text_eq r.field (codes "*") || text_eq r.field field)

module _ {V : Type 0} (coding : Coding V) where
  unfoldable pub merge_objects : Text → Text → Result PermError Text
  unfolding set_into
  merge_objects prev winner = or_error previous_not_object (coding.unmarshal prev) >>= λ pm.
      (or_error rule_not_object (coding.unmarshal winner) >>= λ wm.
      (set_into pm (entries wm) >>= λ m. or_error not_encoded (coding.marshal m)))

  -- `mergeDataConfigWinsRaw`
  unfoldable pub merge_raw : Text → Text → Result PermError Text
  unfolding merge_objects
  merge_raw prev winner =
      if text_eq winner []
      then ok prev
      else if text_eq prev []
      then ok winner
      else merge_objects prev winner

  -- `mergeDataConfigWins`
  unfoldable pub merge_data : Text → Text → Result PermError Text
  unfolding merge_objects
  merge_data prev next = or_error data_template (coding.apply next) >>= λ subst.
      if text_eq prev [] then ok subst else merge_objects prev subst

  abbrev pub merged_filter : Text → Text → Text
  merged_filter old filter =
      if text_eq filter []
      then old
      else let f = coding.apply_string filter in if text_eq old [] then f else both old f

  -- What a matching rule adds. The result's `from_config` is the flag `matched`.
  unfoldable pub add_rule : Rule → Permission → Result PermError Permission
  unfolding merge_data
  add_rule r out =
      (if text_eq r.args [] then ok out.args else merge_data out.args r.args) >>= λ args.
      ok (record out {
        disabled = out.disabled || r.disabled;
        hidden = out.hidden || r.hidden;
        args = args;
        filter = merged_filter out.filter r.filter;
        from_config = true;
      })

  -- One of the two loops, over the rules that `pick` lets through.
  unfoldable pub apply_rules :
      (Rule → Bool) → Text → Text → List Rule → Permission → Result PermError Permission
  unfolding add_rule
  apply_rules pick object field [] out = ok out
  apply_rules pick object field (r ∷ rules) out =
      (if pick r && matches object field r then add_rule r out else ok out)
      >>= apply_rules pick object field rules

  abbrev pub is_wildcard : Rule → Bool
  is_wildcard r = text_eq r.field (codes "*")

  unfoldable pub merge_rules : List Rule → Text → Text → Result PermError Permission
  unfolding apply_rules
  merge_rules rules object field =
      apply_rules (λ r. text_eq r.field (codes "*")) object field rules no_permission >>= λ out.
      apply_rules (λ r. not (text_eq r.field (codes "*"))) object field rules out

  abbrev pub tiers_filter : Text → Text → Text
  tiers_filter c r = if text_eq c [] then r else if text_eq r [] then c else both c r

  unfoldable pub merge : List Rule → List Rule → Text → Text → Result PermError Permission
  unfolding merge_rules merge_raw
  merge config remote object field = merge_rules config object field >>= λ c.
      (merge_rules remote object field >>= λ r.
      (merge_raw r.args c.args >>= λ args. ok (record {
        disabled = c.disabled || r.disabled;
        hidden = c.hidden || r.hidden;
        args = args;
        filter = tiers_filter c.filter r.filter;
        from_config = c.from_config;
        from_remote = r.from_config;
        from_user = false;
      })))
