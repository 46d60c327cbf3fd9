-- ===== src/Prelude/Maps.antt =====
-- Go maps with string keys, as association lists: what an assignment, a deletion and a read do.
use hugen.Prelude.Tests.{if◌then◌else◌, Bool-cases}
use mathlib.Core.Path.{◌≡◌, refl, sym, ap, ◌∙◌}
use mathlib.Core.Logic.{inl, inr}
use mathlib.Core.Bool.{Bool, true, false}
use mathlib.Core.Option.{Option, none, some}
use mathlib.Core.List.{List, [], ◌∷◌}
use hugen.Prelude.Text.{Text, text_eq, text_eq_refl, text_eq_iff}

apart : (a b k : Text) → text_eq a b ≡ false → text_eq a k ≡ true → text_eq b k ≡ false
apart a b k n e = elim (Bool-cases (text_eq b k)) [
  | inr f ↦ f
  | inl f ↦
      (let p : a ≡ b = (text_eq_iff a k).0 e ∙ sym ((text_eq_iff b k).0 f) in
        let q = (text_eq_iff a b).1 p in absurd (cc))
]

same : {A : Type 0} (b : Bool) (x : A) → x ≡ (if b then x else x)
same true x = refl
same false x = refl

twice :
    {A : Type 0} (b : Bool) (x w y : A)
    → (if b then x else y) ≡ (if b then x else (if b then w else y))
twice true x w y = refl
twice false x w y = refl

module _ {V : Type 0} where
  -- `pm[k] = v`
  unfoldable pub set : Text → V → List (Text × V) → List (Text × V)
  set k v [] = (k, v) ∷ []
  set k v ((k', v') ∷ m) = if text_eq k' k then (k, v) ∷ m else (k', v') ∷ set k v m

  -- `for k, v := range wm { pm[k] = v }`
  unfoldable pub set_all : List (Text × V) → List (Text × V) → List (Text × V)
  unfolding set
  set_all pm [] = pm
  set_all pm ((k, v) ∷ wm) = set_all (set k v pm) wm

  -- `delete(m, k)`
  unfoldable pub remove : Text → List (Text × V) → List (Text × V)
  remove k [] = []
  remove k ((k', v) ∷ m) = if text_eq k' k then remove k m else (k', v) ∷ remove k m

module _ {V : Type 0} where
  abbrev pub or_else : Option V → Option V → Option V
  or_else (some v) next = some v
  or_else none next = next

  unfoldable pub lookup : Text → List (Text × V) → Option V
  lookup k [] = none
  lookup k ((k', v) ∷ m) = if text_eq k' k then some v else lookup k m

  -- No key twice, as in a map.
  abbrev pub IsMap : List (Text × V) → Type 0
  IsMap [] = Unit
  IsMap ((k, v) ∷ m) = (lookup k m ≡ none) × IsMap m

  pub lookup-set :
      (k k' : Text) (v : V) (m : List (Text × V))
      → lookup k (set k' v m) ≡ (if text_eq k' k then some v else lookup k m)
  unfolding lookup set
  lookup-set k k' v [] = refl
  lookup-set k k' v ((k'', w) ∷ m) = elim (Bool-cases (text_eq k'' k')) [
    | inl e ↦ rw (e, (text_eq_iff k'' k').0 e) (twice (text_eq k' k) (some v) (some w) (lookup k m))
    | inr e ↦ rw e (elim (Bool-cases (text_eq k'' k)) [
      | inl f ↦ rw (f, apart k'' k' k e f) refl
      | inr f ↦ rw f (lookup-set k k' v m)
    ])
  ]

  pub lookup-set_all :
      (k : Text) (pm wm : List (Text × V))
      → IsMap wm
      → lookup k (set_all pm wm) ≡ or_else (lookup k wm) (lookup k pm)
  unfolding lookup set_all
  lookup-set_all k pm [] h = refl
  lookup-set_all k pm ((k', v) ∷ wm) h =
      lookup-set_all k (set k' v pm) wm h.1 ∙ elim (Bool-cases (text_eq k' k)) [
        | inl e ↦
            (let none_there : lookup k wm ≡ none =
                ap (λ (x : Text). lookup x wm) (sym ((text_eq_iff k' k).0 e)) ∙ h.0 in
              rw (none_there, e, lookup-set k k' v pm, e) refl)
        | inr e ↦ rw (e, lookup-set k k' v pm, e) refl
      ]

  pub lookup-remove :
      (k k' : Text) (m : List (Text × V))
      → lookup k (remove k' m) ≡ (if text_eq k' k then none else lookup k m)
  unfolding lookup remove
  lookup-remove k k' [] = same (text_eq k' k) none
  lookup-remove k k' ((k'', w) ∷ m) = elim (Bool-cases (text_eq k'' k')) [
    | inl e ↦
        rw (e, (text_eq_iff k'' k').0 e)
          (lookup-remove k k' m ∙ twice (text_eq k' k) none (some w) (lookup k m))
    | inr e ↦ rw e (elim (Bool-cases (text_eq k'' k)) [
      | inl f ↦ rw (f, apart k'' k' k e f) refl
      | inr f ↦ rw f (lookup-remove k k' m)
    ])
  ]

  pub set-IsMap : (k : Text) (v : V) (m : List (Text × V)) → IsMap m → IsMap (set k v m)
  unfolding set lookup
  set-IsMap k v [] h = (refl, tt)
  set-IsMap k v ((k', w) ∷ m) h = elim (Bool-cases (text_eq k' k)) [
    | inl e ↦ rw e (rw⁻¹ ((text_eq_iff k' k).0 e) h.0, h.1)
    | inr e ↦
        rw e (lookup-set k' k v m ∙ rw (apart k' k k' e (text_eq_refl k')) h.0, set-IsMap k v m h.1)
  ]

  pub set_all-IsMap : (pm wm : List (Text × V)) → IsMap pm → IsMap (set_all pm wm)
  unfolding set_all
  set_all-IsMap pm [] h = h
  set_all-IsMap pm ((k, v) ∷ wm) h = set_all-IsMap (set k v pm) wm (set-IsMap k v pm h)

  pub remove-IsMap : (k : Text) (m : List (Text × V)) → IsMap m → IsMap (remove k m)
  unfolding remove lookup
  remove-IsMap k [] h = tt
  remove-IsMap k ((k', w) ∷ m) h = elim (Bool-cases (text_eq k' k)) [
    | inl e ↦ rw e (remove-IsMap k m h.1)
    | inr e ↦
        rw e
          (lookup-remove k' k m ∙ rw (apart k' k k' e (text_eq_refl k')) h.0, remove-IsMap k m h.1)
  ]
