-- ===== src/Perm/Data.antt =====
-- The merged arguments: the configured ones win, key by key.
use hugen.Prelude.{
  Result, fail, ◌≡◌, refl, ◌∙◌, false, Option, none, some, List, [], ◌∷◌, ok, ◌>>=◌,
}
use hugen.Prelude.Text.{Text, text_eq}
use hugen.Prelude.Maps.{or_else, lookup, IsMap, set_all, lookup-set_all}
use hugen.Perm.{
  PermError, previous_not_object, rule_not_object, not_encoded, Coding, set_into, entries, or_error,
  merge_objects, merge_raw,
}

pub or_error-ok : (o : Option Text) (t : Text) → or_error not_encoded o ≡ ok t → o ≡ some t
or_error-ok none t e = cc
or_error-ok (some x) t e = cc

-- What `json.Marshal` writes is read as a map with the same value for every key, in whatever order, and
-- maps read have no key twice.
pub record IsCoding {V : Type 0} (coding : Coding V) : Type 0 where
  pub read_back :
      (m : Option (List (Text × V))) (t : Text)
      → coding.marshal m ≡ some t
      → (m' : Option (List (Text × V))) × (coding.unmarshal t ≡ some m')
        × ((k : Text) → lookup k (entries m') ≡ lookup k (entries m))
  pub distinct :
      (t : Text) (m : Option (List (Text × V))) → coding.unmarshal t ≡ some m → IsMap (entries m)

module _ {V : Type 0} (coding : Coding V) where
  -- The texts read as maps, and the merged one has each key of the configured one with its value
  -- there, and each other key as the remote one.
  pub record IsMerged (remote config merged : Text) : Type 0 where
    pub remote_map : Option (List (Text × V))
    pub config_map : Option (List (Text × V))
    pub merged_map : Option (List (Text × V))
    pub remote_read : coding.unmarshal remote ≡ some remote_map
    pub config_read : coding.unmarshal config ≡ some config_map
    pub merged_read : coding.unmarshal merged ≡ some merged_map
    pub each_key :
        (k : Text)
        → lookup k (entries merged_map)
          ≡ or_else (lookup k (entries config_map)) (lookup k (entries remote_map))

  pub set_into-lookup :
      (pm m : Option (List (Text × V))) (wm : List (Text × V)) (k : Text)
      → IsMap wm
      → set_into pm wm ≡ ok m
      → lookup k (entries m) ≡ or_else (lookup k wm) (lookup k (entries pm))
  unfolding set_into lookup
  set_into-lookup (some pm) m wm k h e =
      (let p : some (set_all pm wm) ≡ m = cc in rw⁻¹ p (lookup-set_all k pm wm h))
  set_into-lookup none m [] k h e = (let p : none ≡ m = cc in rw⁻¹ p refl)
  set_into-lookup none m (x ∷ wm) k h e = cc

module _ {V : Type 0} (coding : Coding V) (laws : IsCoding coding) where
  -- Where both tiers give arguments and their merge succeeds, the merged object has each key of the
  -- configured one with its value there, and each other key of the remote one with its value.
  pub merge_raw-IsMerged :
      (remote config merged : Text)
      → text_eq remote [] ≡ false
      → text_eq config [] ≡ false
      → merge_raw coding remote config ≡ ok merged
      → IsMerged coding remote config merged
  unfolding merge_raw merge_objects
  merge_raw-IsMerged remote config merged nr nc e =
      read (coding.unmarshal remote) refl (coding.unmarshal config) refl (rw (nr, nc) at e)
    where
      write :
          (rm cm m : Option (List (Text × V)))
          → coding.unmarshal remote ≡ some rm
          → coding.unmarshal config ≡ some cm
          → set_into rm (entries cm) ≡ ok m
          → or_error not_encoded (coding.marshal m) ≡ ok merged
          → IsMerged coding remote config merged
      write rm cm m p q s h =
          let (m', again, same) =
            laws.read_back m merged (or_error-ok (coding.marshal m) merged h) in
          record {
            remote_map = rm;
            config_map = cm;
            merged_map = m';
            remote_read = p;
            config_read = q;
            merged_read = again;
            each_key = λ k.
                same k ∙ set_into-lookup coding rm m (entries cm) k (laws.distinct config cm q) s;
          }

      fill :
          (rm cm : Option (List (Text × V)))
          → coding.unmarshal remote ≡ some rm
          → coding.unmarshal config ≡ some cm
          → (r : Result PermError (Option (List (Text × V)))) → set_into rm (entries cm) ≡ r
          → (r >>= λ m. or_error not_encoded (coding.marshal m)) ≡ ok merged
          → IsMerged coding remote config merged
      fill rm cm p q (ok m) s h = write rm cm m p q s h
      fill rm cm p q (fail x) s h = cc

      read :
          (r : Option (Option (List (Text × V))))
          → coding.unmarshal remote ≡ r
          → (c : Option (Option (List (Text × V)))) → coding.unmarshal config ≡ c
          → (or_error previous_not_object r >>= λ pm.
              (or_error rule_not_object c >>= λ wm.
              (set_into pm (entries wm) >>= λ m. or_error not_encoded (coding.marshal m))))
            ≡ ok merged
          → IsMerged coding remote config merged
      read none p c q h = cc
      read (some rm) p none q h = cc
      read (some rm) p (some cm) q h = fill rm cm p q (set_into rm (entries cm)) refl h
