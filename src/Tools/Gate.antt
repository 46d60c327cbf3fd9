-- ===== src/Tools/Gate.antt =====
-- What a call that the gate lets through has passed, and the arguments it is made with.
use hugen.Prelude.{
  ◌≡◌, refl, sym, ap, ◌∙◌, Bool, true, false, ◌||◌, ◌&&◌, Option, none, some, List, [],
  if◌then◌else◌, Result, ok, fail, ◌>>=◌,
}
use hugen.Prelude.Text.{Text, text_eq}
use hugen.Prelude.Maps.{or_else, lookup}
use hugen.Policies.{Outcome, allow, deny, ask, PolicyError, Decision}
use hugen.Perm.{
  Rule, Permission, PermError, Coding, entries, set_into, or_error, rule_not_object, merge,
}
use hugen.Perm.Floor.{disabled_flag, hidden_flag, flagged, flag-merge}
use hugen.Perm.Data.{IsCoding, set_into-lookup, or_error-ok}
use hugen.Tools.{Tool, Manager, PolicyService, policies_snapshot, tool_field}
use hugen.Tools.Resolve.{
  denied, denied_tier, floor, consult, on_decision, apply_outcome, tier3_lookup_key, raw_object,
  merge_effective_args, as_args, resolve,
}

bind-ok :
    {E A B : Type 0} (m : Result E A) (k : A → Result E B) (b : B)
    → (m >>= k) ≡ ok b
    → (a : A) × (m ≡ ok a) × (k a ≡ ok b)
bind-ok (ok a) k b e = (a, refl, e)
bind-ok (fail x) k b e = cc

abbrev is_deny : Outcome → Bool
is_deny deny = true
is_deny allow = false
is_deny ask = false

abbrev denies : Result PolicyError Decision → Bool
denies (ok dec) = is_deny dec.outcome
denies (fail e) = true

-- A configured store whose answer is a refusal or an error.
abbrev pub user_denies : Option PolicyService → Text → Text → Text → Bool
user_denies none agent name scope = false
user_denies (some pol) agent name scope = pol.is_configured && denies (pol.decide agent name scope)

floor-ok :
    (r : Result PermError Permission) (p : Permission)
    → floor r ≡ ok p
    → (r ≡ ok p) × (p.disabled ≡ false)
unfolding floor
floor-ok (fail e) p h = cc
floor-ok (ok q) p h = go q.disabled refl h
  where
    go :
        (b : Bool)
        → q.disabled ≡ b
        → (if b then fail (denied (denied_tier q)) else ok q) ≡ ok p
        → (◌≡◌ {A = Result PermError Permission} (ok q) (ok p)) × (p.disabled ≡ false)
    go true e k = cc
    go false e k = (let j : q ≡ p = cc in (ap ok j, rw⁻¹ j e))

-- The user's tier changes only the mark.
outcome-ok :
    (o : Outcome) (p q : Permission)
    → apply_outcome o p ≡ ok q
    → (is_deny o ≡ false) × (q.args ≡ p.args) × (q.disabled ≡ p.disabled) × (q.hidden ≡ p.hidden)
unfolding apply_outcome
outcome-ok deny p q h = cc
outcome-ok allow p q h = (refl, cc, cc, cc)
outcome-ok ask p q h = (refl, cc, cc, cc)

consult-ok :
    (pol : Option PolicyService) (agent name scope : Text) (p q : Permission)
    → consult pol agent name scope p ≡ ok q
    → (user_denies pol agent name scope ≡ false)
      × (q.args ≡ p.args)
      × (q.disabled ≡ p.disabled)
      × (q.hidden ≡ p.hidden)
unfolding consult
consult-ok none agent name scope p q h = (refl, cc, cc, cc)
consult-ok (some pol) agent name scope p q h = go pol.is_configured (pol.decide agent name scope) h
  where
    go :
        (b : Bool) (d : Result PolicyError Decision)
        → (if b then on_decision d p else ok p) ≡ ok q
        → ((b && denies d) ≡ false)
          × (q.args ≡ p.args)
          × (q.disabled ≡ p.disabled)
          × (q.hidden ≡ p.hidden)
    go false d h = (refl, cc, cc, cc)
    go true (fail e) h = cc
    go true (ok dec) h = outcome-ok dec.outcome p q h

module _ {V : Type 0} (coding : Coding V) where
  -- The arguments read as an object, as does the rule's data; the effective ones have each key of the
  -- rule with its value there, and each other key as the call has it.
  pub record IsPinned (raw rule_data effective : Text) : Type 0 where
    pub raw_map : Option (List (Text × V))
    pub rule_map : Option (List (Text × V))
    pub effective_map : Option (List (Text × V))
    pub raw_read : raw_object coding raw ≡ ok raw_map
    pub rule_read : coding.unmarshal rule_data ≡ some rule_map
    pub effective_read : coding.unmarshal effective ≡ some effective_map
    pub each_key :
        (k : Text)
        → lookup k (entries effective_map)
          ≡ or_else (lookup k (entries rule_map)) (lookup k (entries raw_map))

  or_error-some :
      (e : PermError) (o : Option (Option (List (Text × V)))) (m : Option (List (Text × V)))
      → or_error e o ≡ ok m
      → o ≡ some m
  or_error-some e none m h = cc
  or_error-some e (some x) m h = cc

  merge_effective_args-IsPinned :
      IsCoding coding
      → (raw rule_data effective : Text) → text_eq rule_data [] ≡ false
      → merge_effective_args coding raw rule_data ≡ ok effective
      → IsPinned raw rule_data effective
  unfolding merge_effective_args
  merge_effective_args-IsPinned laws raw rule_data effective n h =
      let (rule_map, a, h1) =
        bind-ok (or_error rule_not_object (coding.unmarshal rule_data)) _ effective (rw n at h) in
      let (raw_map, b, h2) = bind-ok (raw_object coding raw) _ effective h1 in
      let (merged, c, h3) = bind-ok (set_into raw_map (entries rule_map)) _ effective h2 in
      let q : coding.unmarshal rule_data ≡ some rule_map =
        or_error-some rule_not_object (coding.unmarshal rule_data) rule_map a in
      let (effective_map, again, same) =
        laws.read_back merged effective (or_error-ok (coding.marshal merged) effective h3) in
      record {
        raw_map = raw_map;
        rule_map = rule_map;
        effective_map = effective_map;
        raw_read = b;
        rule_read = q;
        effective_read = again;
        each_key = λ k.
            same k
            ∙ set_into-lookup coding raw_map merged (entries rule_map) k
                (laws.distinct rule_data rule_map q) c;
      }

  as_args-ok : (r : Result PermError Text) (t : Text) → as_args r ≡ ok t → r ≡ ok t
  as_args-ok (ok x) t h = cc
  as_args-ok (fail e) t h = cc

  record IsAllowed (r : Result PermError Permission) (denied_by_user : Bool) (raw : Text)
      (p : Permission) (effective : Text) : Type 0 where
    merged : Permission
    rules_gave : r ≡ ok merged
    not_disabled : merged.disabled ≡ false
    not_denied : denied_by_user ≡ false
    same_args : p.args ≡ merged.args
    same_disabled : p.disabled ≡ merged.disabled
    same_hidden : p.hidden ≡ merged.hidden
    args_made : merge_effective_args coding raw p.args ≡ ok effective

  resolve-IsAllowed :
      (perms : Text → Text → Result PermError Permission) (chain : List Manager)
      (agent_id meta : Option Text) (t : Tool) (raw : Text) (p : Permission) (effective : Text)
      → resolve coding perms chain agent_id meta t raw ≡ ok (p, effective)
      → IsAllowed
          (perms t.permission_object (tool_field t.name))
          (user_denies
            (policies_snapshot chain)
            ((tier3_lookup_key agent_id meta).0)
            t.name
            ((tier3_lookup_key agent_id meta).1))
          raw
          p
          effective
  unfolding resolve
  resolve-IsAllowed perms chain agent_id meta t raw p effective h =
      let (m, a, h1) =
        bind-ok (floor (perms t.permission_object (tool_field t.name))) _ (p, effective) h in
      let (q, b, h2) =
        bind-ok
          (consult (policies_snapshot chain) ((tier3_lookup_key agent_id meta).0) t.name
            ((tier3_lookup_key agent_id meta).1) m)
          _ (p, effective) h1 in
      let (eff, c, h3) =
        bind-ok (as_args (merge_effective_args coding raw q.args)) _ (p, effective) h2 in
      let f = floor-ok (perms t.permission_object (tool_field t.name)) m a in
      let u =
        consult-ok (policies_snapshot chain) ((tier3_lookup_key agent_id meta).0) t.name
          ((tier3_lookup_key agent_id meta).1) m q b in
      let e : q ≡ p = cc in
      let e' : eff ≡ effective = cc in
      record {
        merged = m;
        rules_gave = f.0;
        not_disabled = f.1;
        not_denied = u.0;
        same_args = ap (λ (x : Permission). x.args) (sym e) ∙ u.1;
        same_disabled = ap (λ (x : Permission). x.disabled) (sym e) ∙ u.2;
        same_hidden = ap (λ (x : Permission). x.hidden) (sym e) ∙ u.3;
        args_made = as_args-ok (merge_effective_args coding raw p.args) effective (rw (e, e') at c);
      }

  -- A call that the gate lets through has passed all three tiers: over the merge of the configured and
  -- the remote rules, no rule of either on the tool's object and field disables it, the configured user
  -- store does not refuse it, nor fails; and the permission returned is hidden exactly if some rule says so.
  pub resolve-merge :
      (config remote : List Rule) (chain : List Manager) (agent_id meta : Option Text) (t : Tool)
      (raw : Text) (p : Permission) (effective : Text)
      → resolve coding (merge coding config remote) chain agent_id meta t raw ≡ ok (p, effective)
      → ((flagged disabled_flag t.permission_object (tool_field t.name) config
            || flagged disabled_flag t.permission_object (tool_field t.name) remote)
          ≡ false)
        × (user_denies
              (policies_snapshot chain)
              ((tier3_lookup_key agent_id meta).0)
              t.name
              ((tier3_lookup_key agent_id meta).1)
            ≡ false)
        × (p.hidden ≡ (
            flagged hidden_flag t.permission_object (tool_field t.name) config
            || flagged hidden_flag t.permission_object (tool_field t.name) remote))
  resolve-merge config remote chain agent_id meta t raw p effective h =
      let a =
        resolve-IsAllowed (merge coding config remote) chain agent_id meta t raw p effective h in
      let field = tool_field t.name in
      (
        sym (
              flag-merge coding disabled_flag config remote t.permission_object field a.merged
                a.rules_gave)
            ∙ a.not_disabled,
        a.not_denied,
        a.same_hidden
            ∙ flag-merge coding hidden_flag config remote t.permission_object field a.merged
                a.rules_gave,
      )

  -- Whatever the permission service: where the call is let through and the rules have data, the call's
  -- arguments have each key of the data with its value there, and each other key as the call gave it.
  pub resolve-IsPinned :
      IsCoding coding
      → (perms : Text → Text → Result PermError Permission) (chain : List Manager)
        (agent_id meta : Option Text) (t : Tool) (raw : Text) (p : Permission) (effective : Text)
      → text_eq p.args [] ≡ false
      → resolve coding perms chain agent_id meta t raw ≡ ok (p, effective)
      → IsPinned raw p.args effective
  resolve-IsPinned laws perms chain agent_id meta t raw p effective n h =
      merge_effective_args-IsPinned laws raw p.args effective n
        (resolve-IsAllowed perms chain agent_id meta t raw p effective h).args_made
