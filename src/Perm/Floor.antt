-- ===== src/Perm/Floor.antt =====
-- Neither tier of rules can lift what the other forbids, and the configured data win.
use hugen.Prelude.{
  ◌≡◌, refl, sym, ap, ap₂, ◌∙◌, Bool, true, false, not, ◌&&◌, ◌||◌, List, [], ◌∷◌, arith,
  if◌then◌else◌, Result, ok, fail, ◌>>=◌, any,
}
use hugen.Prelude.Text.{Text, codes, text_eq}
use hugen.Perm.{
  Rule, Permission, no_permission, PermError, Coding, matches, merge_raw, merge_data, add_rule,
  apply_rules, merge_rules, merge,
}

-- A flag of the rules and of the permissions, which `add_rule` joins by "or".
pub data Flag : Type 0 where
  disabled_flag hidden_flag : Flag

abbrev pub of_rule : Flag → Rule → Bool
of_rule disabled_flag r = r.disabled
of_rule hidden_flag r = r.hidden

abbrev pub of_permission : Flag → Permission → Bool
of_permission disabled_flag p = p.disabled
of_permission hidden_flag p = p.hidden

-- Some rule on the object and the field has the flag.
abbrev pub flagged : Flag → Text → Text → List Rule → Bool
flagged flag object field rules = any (λ r. matches object field r && of_rule flag r) rules

ok-bind :
    {A B : Type 0} (m : Result PermError A) (k : A → Result PermError B) (b : B)
    → (m >>= k) ≡ ok b
    → (a : A) × (m ≡ ok a) × (k a ≡ ok b)
ok-bind (ok a) k b e = (a, refl, e)
ok-bind (fail x) k b e = cc

or_false : (b : Bool) → b ≡ (b || false)
or_false true = refl
or_false false = refl

or_assoc : (a b c d : Bool) (x : Bool) → d ≡ (a || b) → x ≡ (d || c) → x ≡ (a || (b || c))
or_assoc a b c d x e f = ground arith

module _ {V : Type 0} (coding : Coding V) where
  flag-add_rule :
      (flag : Flag) (r : Rule) (out out' : Permission)
      → add_rule coding r out ≡ ok out'
      → of_permission flag out' ≡ (of_permission flag out || of_rule flag r)
  unfolding add_rule
  flag-add_rule disabled_flag r out out' e =
      (let (args, p, q) =
          ok-bind (if text_eq r.args [] then ok out.args else merge_data coding out.args r.args) _
            out' e in
        cc)
  flag-add_rule hidden_flag r out out' e =
      (let (args, p, q) =
          ok-bind (if text_eq r.args [] then ok out.args else merge_data coding out.args r.args) _
            out' e in
        cc)

  flag-apply_rules :
      (flag : Flag) (pick : Rule → Bool) (object field : Text) (rules : List Rule)
      (out out' : Permission)
      → apply_rules coding pick object field rules out ≡ ok out'
      → of_permission flag out' ≡ (
          of_permission flag out
          || any (λ r. pick r && (matches object field r && of_rule flag r)) rules)
  unfolding apply_rules
  flag-apply_rules flag pick object field [] out out' e =
      (let p : out ≡ out' = cc in
        ap (of_permission flag) (sym p) ∙ or_false (of_permission flag out))
  flag-apply_rules flag pick object field (r ∷ rules) out out' e =
      let rest = any (λ r'. pick r' && (matches object field r' && of_rule flag r')) rules in
      let (mid, p, q) =
        ok-bind (if pick r && matches object field r then add_rule coding r out else ok out)
          (apply_rules coding pick object field rules) out' e in
      or_assoc (of_permission flag out) (pick r && (matches object field r && of_rule flag r)) rest
        (of_permission flag mid) (of_permission flag out')
        (one (pick r) (matches object field r) mid p)
        (flag-apply_rules flag pick object field rules mid out' q)
    where
      one :
          (x y : Bool) (mid : Permission)
          → (if x && y then add_rule coding r out else ok out) ≡ ok mid
          → of_permission flag mid ≡ (of_permission flag out || (x && (y && of_rule flag r)))
      one true true mid p = flag-add_rule flag r out mid p
      one true false mid p =
          (let h : out ≡ mid = cc in
            ap (of_permission flag) (sym h) ∙ or_false (of_permission flag out))
      one false y mid p =
          (let h : out ≡ mid = cc in
            ap (of_permission flag) (sym h) ∙ or_false (of_permission flag out))

any-split :
    (p q : Rule → Bool) (rules : List Rule)
    → (any (λ r. p r && q r) rules || any (λ r. not (p r) && q r) rules) ≡ any q rules
any-split p q [] = refl
any-split p q (r ∷ rules) = ground (arith, any-split p q rules)

no_flag : (flag : Flag) (b : Bool) → (of_permission flag no_permission || b) ≡ b
no_flag disabled_flag b = refl
no_flag hidden_flag b = refl

joined :
    (flag : Flag) (c r p : Permission)
    → p.disabled ≡ (c.disabled || r.disabled)
    → p.hidden ≡ (c.hidden || r.hidden)
    → of_permission flag p ≡ (of_permission flag c || of_permission flag r)
joined disabled_flag c r p d h = d
joined hidden_flag c r p d h = h

flag-merge_rules :
    {V : Type 0} (coding : Coding V) (flag : Flag) (rules : List Rule) (object field : Text)
    (p : Permission)
    → merge_rules coding rules object field ≡ ok p
    → of_permission flag p ≡ flagged flag object field rules
unfolding merge_rules
flag-merge_rules coding flag rules object field p e =
    let star : Rule → Bool = λ r. text_eq r.field (codes "*") in
    let wanted : Rule → Bool = λ r. matches object field r && of_rule flag r in
    let (mid, first, second) =
      ok-bind (apply_rules coding star object field rules no_permission)
        (apply_rules coding (λ r. not (star r)) object field rules) p e in
    or_assoc (of_permission flag no_permission) (any (λ r. star r && wanted r) rules)
      (any (λ r. not (star r) && wanted r) rules) (of_permission flag mid) (of_permission flag p)
      (flag-apply_rules coding flag star object field rules no_permission mid first)
      (flag-apply_rules coding flag (λ r. not (star r)) object field rules mid p second)
    ∙ no_flag flag _
    ∙ any-split star wanted rules

-- If the merge of the two tiers succeeds, the permission is disabled, and likewise hidden, exactly if
-- some rule of either tier on the object and on the field, or on all its fields, says so.
pub flag-merge :
    {V : Type 0} (coding : Coding V) (flag : Flag) (config remote : List Rule) (object field : Text)
    (p : Permission)
    → merge coding config remote object field ≡ ok p
    → of_permission flag p ≡ (flagged flag object field config || flagged flag object field remote)
unfolding merge
flag-merge coding flag config remote object field p e =
    let (c, ce, rest) = ok-bind (merge_rules coding config object field) _ p e in
    let (r, re, rest') = ok-bind (merge_rules coding remote object field) _ p rest in
    let (args, ae, done) = ok-bind (merge_raw coding r.args c.args) _ p rest' in
    joined flag c r p (cc done) (cc done)
    ∙ ap₂ (λ x y. x || y) (flag-merge_rules coding flag config object field c ce)
        (flag-merge_rules coding flag remote object field r re)
