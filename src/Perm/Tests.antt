-- ===== src/Perm/Tests.antt =====
-- The theorems on the merge of rules at concrete rules, with a coding of objects that have one key of
-- one byte.
use hugen.Prelude.{
  if◌then◌else◌, ltb, ◌==◌, arith, sym, ap, subst, ◌∙◌, ℕ, ◌≡◌, refl, Bool, true, false, ◌||◌,
  Option, none, some, List, [], ◌∷◌,
}
use hugen.Prelude.Text.{Text, codes, text_eq}
use hugen.Prelude.Maps.{lookup, IsMap, set, set_all, lookup-set, set-IsMap}
use hugen.Perm.{
  set_into, entries, Rule, Permission, Coding, merge, merge_rules, apply_rules, add_rule, merge_raw,
  merge_objects, merge_data,
}
use hugen.Perm.Floor.{disabled_flag, of_permission, flagged, flag-merge}
use hugen.Perm.Data.{IsCoding, IsMerged, merge_raw-IsMerged}

abbrev read_one : Text → Option (Option (List (Text × ℕ)))
read_one [] = none
read_one (k ∷ []) = some none
read_one (k ∷ v ∷ []) = some (some ((k ∷ [], v) ∷ []))
read_one (k ∷ v ∷ x ∷ t) = none

abbrev write_one : Option (List (Text × ℕ)) → Option Text
write_one none = none
write_one (some []) = none
write_one (some (([], v) ∷ m)) = none
write_one (some ((k ∷ [], v) ∷ [])) = some (k ∷ v ∷ [])
write_one (some ((k ∷ [], v) ∷ x ∷ m)) = none
write_one (some ((k ∷ k' ∷ ks, v) ∷ m)) = none

abbrev pub one_key : Coding ℕ
one_key = record {
  unmarshal = read_one;
  marshal = write_one;
  apply = λ t. some t;
  apply_string = λ t. t;
}

read_back :
    (m : Option (List (Text × ℕ))) (t : Text)
    → write_one m ≡ some t
    → (m' : Option (List (Text × ℕ))) × (read_one t ≡ some m')
      × ((k : Text) → lookup k (entries m') ≡ lookup k (entries m))
read_back none t e = cc
read_back (some []) t e = cc
read_back (some (([], v) ∷ m)) t e = cc
read_back (some ((k ∷ [], v) ∷ [])) t e =
    (let p : k ∷ v ∷ [] ≡ t = cc in rw⁻¹ p (some ((k ∷ [], v) ∷ []), refl, λ x. refl))
read_back (some ((k ∷ [], v) ∷ x ∷ m)) t e = cc
read_back (some ((k ∷ k' ∷ ks, v) ∷ m)) t e = cc

distinct : (t : Text) (m : Option (List (Text × ℕ))) → read_one t ≡ some m → IsMap (entries m)
unfolding lookup
distinct [] m e = cc
distinct (k ∷ []) m e = (let p : none ≡ m = cc in rw⁻¹ p tt)
distinct (k ∷ v ∷ []) m e = (let p : some ((k ∷ [], v) ∷ []) ≡ m = cc in rw⁻¹ p (refl, tt))
distinct (k ∷ v ∷ x ∷ t) m e = cc

pub one_key-IsCoding : IsCoding one_key
one_key-IsCoding = record { read_back = read_back; distinct = distinct }

-- Objects whose keys are single bytes and whose values are numbers; their text has the keys sorted.
unfoldable pub insert_key : ℕ → ℕ → List (ℕ × ℕ) → List (ℕ × ℕ)
insert_key k v [] = (k, v) ∷ []
insert_key k v ((k', v') ∷ m) =
    if k' == k
    then (k, v) ∷ m
    else if ltb k k'
    then (k, v) ∷ (k', v') ∷ m
    else (k', v') ∷ insert_key k v m

abbrev insert_into : ℕ → ℕ → Option (List (ℕ × ℕ)) → Option (List (ℕ × ℕ))
insert_into k v none = none
insert_into k v (some m) = some (insert_key k v m)

-- None where a key is not one byte.
unfoldable pub sort_keys : List (Text × ℕ) → Option (List (ℕ × ℕ))
unfolding insert_key
sort_keys [] = some []
sort_keys (([], v) ∷ m) = none
sort_keys ((k ∷ [], v) ∷ m) = insert_into k v (sort_keys m)
sort_keys ((k ∷ k' ∷ ks, v) ∷ m) = none

abbrev bytes : List (ℕ × ℕ) → Text
bytes [] = []
bytes ((k, v) ∷ m) = k ∷ v ∷ bytes m

abbrev set_in : ℕ → ℕ → Option (List (Text × ℕ)) → Option (List (Text × ℕ))
set_in k v none = none
set_in k v (some m) = some (set (k ∷ []) v m)

unfoldable pub read_pairs : Text → Option (List (Text × ℕ))
unfolding set
read_pairs [] = some []
read_pairs (k ∷ []) = none
read_pairs (k ∷ v ∷ t) = set_in k v (read_pairs t)

abbrev an_object : Option (List (Text × ℕ)) → Option (Option (List (Text × ℕ)))
an_object none = none
an_object (some m) = some (some m)

abbrev written : Option (List (ℕ × ℕ)) → Option Text
written none = none
written (some m) = some (bytes m)

abbrev write_sorted : Option (List (Text × ℕ)) → Option Text
write_sorted none = none
write_sorted (some m) = written (sort_keys m)

abbrev sorted_keys : Coding ℕ
sorted_keys = record {
  unmarshal = λ t. an_object (read_pairs t);
  marshal = write_sorted;
  apply = λ t. some t;
  apply_string = λ t. t;
}

abbrev as_texts : List (ℕ × ℕ) → List (Text × ℕ)
as_texts [] = []
as_texts ((k, v) ∷ m) = (k ∷ [], v) ∷ as_texts m

lookup-insert_key :
    (x : Text) (k v : ℕ) (m : List (ℕ × ℕ))
    → lookup x (as_texts (insert_key k v m))
      ≡ (if text_eq (k ∷ []) x then some v else lookup x (as_texts m))
unfolding lookup insert_key text_eq
lookup-insert_key x k v [] = refl
lookup-insert_key [] k v ((k', v') ∷ m) = ground (arith, lookup-insert_key [] k v m)
lookup-insert_key (b ∷ x) k v ((k', v') ∷ m) = ground (arith, lookup-insert_key (b ∷ x) k v m)

sort_keys-same :
    (m : List (Text × ℕ)) (l : List (ℕ × ℕ)) (x : Text)
    → sort_keys m ≡ some l
    → lookup x (as_texts l) ≡ lookup x m
unfolding sort_keys lookup
sort_keys-same [] l x e = (let p : [] ≡ l = cc in rw⁻¹ p refl)
sort_keys-same (([], v) ∷ m) l x e = cc
sort_keys-same ((k ∷ [], v) ∷ m) l x e = go (λ l'. sort_keys-same m l' x) (sort_keys m) refl e
  where
    go :
        ((l' : List (ℕ × ℕ)) → sort_keys m ≡ some l' → lookup x (as_texts l') ≡ lookup x m)
        → (o : Option (List (ℕ × ℕ))) → sort_keys m ≡ o
        → insert_into k v o ≡ some l
        → lookup x (as_texts l) ≡ lookup x ((k ∷ [], v) ∷ m)
    go ih none f g = cc
    go ih (some l') f g =
        let p : insert_key k v l' ≡ l = cc in
        rw⁻¹ p (lookup-insert_key x k v l' ∙ (rw (ih l' f) refl))
sort_keys-same ((k ∷ k' ∷ ks, v) ∷ m) l x e = cc

read_bytes :
    (l : List (ℕ × ℕ))
    → (m : List (Text × ℕ)) × (read_pairs (bytes l) ≡ some m)
      × ((x : Text) → lookup x m ≡ lookup x (as_texts l))
unfolding read_pairs lookup
read_bytes [] = ([], refl, λ x. refl)
read_bytes ((k, v) ∷ l) =
    let (m, e, same) = read_bytes l in
    (set (k ∷ []) v m, ap (set_in k v) e, λ x. lookup-set x (k ∷ []) v m ∙ (rw (same x) refl))

sorted-read_back :
    (m : Option (List (Text × ℕ))) (t : Text)
    → write_sorted m ≡ some t
    → (m' : Option (List (Text × ℕ))) × (an_object (read_pairs t) ≡ some m')
      × ((k : Text) → lookup k (entries m') ≡ lookup k (entries m))
sorted-read_back none t e = cc
sorted-read_back (some m) t e = go (sort_keys m) refl e
  where
    go :
        (o : Option (List (ℕ × ℕ)))
        → sort_keys m ≡ o
        → written o ≡ some t
        → (m' : Option (List (Text × ℕ))) × (an_object (read_pairs t) ≡ some m')
          × ((k : Text) → lookup k (entries m') ≡ lookup k m)
    go none f g = cc
    go (some l) f g =
        let p : bytes l ≡ t = cc in
        let (m', r, same) = read_bytes l in
        (
          some m',
          ap (λ (x : Text). an_object (read_pairs x)) (sym p) ∙ ap an_object r,
          λ k. same k ∙ sort_keys-same m l k f,
        )

pairs-IsMap : (t : Text) (m : List (Text × ℕ)) → read_pairs t ≡ some m → IsMap m
unfolding read_pairs
pairs-IsMap [] m e = (let p : [] ≡ m = cc in rw⁻¹ p tt)
pairs-IsMap (k ∷ []) m e = cc
pairs-IsMap (k ∷ v ∷ t) m e = go (pairs-IsMap t) (read_pairs t) refl e
  where
    go :
        ((m' : List (Text × ℕ)) → read_pairs t ≡ some m' → IsMap m')
        → (o : Option (List (Text × ℕ))) → read_pairs t ≡ o
        → set_in k v o ≡ some m
        → IsMap m
    go ih none f g = cc
    go ih (some m') f g =
        let p : set (k ∷ []) v m' ≡ m = cc in subst IsMap p (set-IsMap (k ∷ []) v m' (ih m' f))

sorted-distinct :
    (t : Text) (m : Option (List (Text × ℕ)))
    → an_object (read_pairs t) ≡ some m
    → IsMap (entries m)
sorted-distinct t m e = go (read_pairs t) refl e
  where
    go :
        (o : Option (List (Text × ℕ))) → read_pairs t ≡ o → an_object o ≡ some m → IsMap (entries m)
    go none f g = cc
    go (some m') f g =
        let p : some m' ≡ m = cc in
        subst (λ (x : Option (List (Text × ℕ))). IsMap (entries x)) p (pairs-IsMap t m' f)

sorted_keys-IsCoding : IsCoding sorted_keys
sorted_keys-IsCoding = record { read_back = sorted-read_back; distinct = sorted-distinct }

-- The configured `a` wins, the remote `c` stays, and the keys are sorted.
merge_raw-IsMerged_example : IsMerged sorted_keys (codes "c1a2") (codes "b3a4") (codes "a4b3c1")
unfolding merge_raw merge_objects set_into set_all set text_eq read_pairs sort_keys insert_key
merge_raw-IsMerged_example =
    merge_raw-IsMerged sorted_keys sorted_keys-IsCoding (codes "c1a2") (codes "b3a4")
      (codes "a4b3c1") refl refl refl

abbrev pub rule : Text → Text → Bool → Text → Rule
rule type field disabled args = record {
  type = type;
  field = field;
  disabled = disabled;
  hidden = false;
  args = args;
  filter = [];
}

abbrev permission : Permission
permission = record {
  disabled = true;
  hidden = false;
  args = codes "a2";
  filter = [];
  from_config = true;
  from_remote = true;
  from_user = false;
}

abbrev pub config_rules : List Rule
config_rules = rule (codes "tool") (codes "*") false (codes "a2") ∷ []

abbrev remote_rules : List Rule
remote_rules =
    rule (codes "tool") (codes "run") true (codes "a1")
    ∷ rule (codes "data") (codes "*") false []
    ∷ []

flag-merge_example : of_permission disabled_flag permission ≡ (
    flagged disabled_flag (codes "tool") (codes "run") config_rules
    || flagged disabled_flag (codes "tool") (codes "run") remote_rules)
unfolding merge merge_rules apply_rules add_rule merge_data merge_raw merge_objects set_all set
    text_eq
flag-merge_example =
    flag-merge one_key disabled_flag config_rules remote_rules (codes "tool") (codes "run")
      permission refl
