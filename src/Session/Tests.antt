-- ===== src/Session/Tests.antt =====
-- The names of children at concrete texts.
use hugen.Prelude.{ℕ, ◌≡◌, refl, false, some, List, [], ◌∷◌, arith}
use hugen.Prelude.Text.{Text, codes, text_eq}
use hugen.Mission.Criteria.Types.{itoa, digits_loop}
use hugen.Session.{
  Child, sanitize_name, replaced, collapse_dashes, trim, trim_left, trim_right, cut_to_max,
  pad_to_min, name_in_use, candidate, probe, resolve_child_name,
}
use hugen.Session.Sanitized.{IsName, sanitize_name-IsName}
use hugen.Session.FreeName.{resolve_child_name-ends}

abbrev as_is : Text → List ℕ
as_is t = t

abbrev child : Text → Text → Child
child id name = record { id = id; name = name }

sanitize_test : sanitize_name as_is (codes "-data__loader?") ≡ codes "data-loader"
unfolding sanitize_name replaced collapse_dashes trim trim_left trim_right cut_to_max pad_to_min
    text_eq
sanitize_test = refl

sanitize_name-IsName_example : IsName (sanitize_name as_is (codes "Q "))
sanitize_name-IsName_example = sanitize_name-IsName as_is (codes "Q ")

abbrev children : List Child
children = child (codes "s1") (codes "loader") ∷ []

second_test :
    resolve_child_name 3 as_is children (codes "loader-2" ∷ []) (codes "loader")
    ≡ some (codes "loader-3")
unfolding resolve_child_name sanitize_name replaced collapse_dashes trim trim_left trim_right
    cut_to_max pad_to_min name_in_use candidate probe text_eq itoa digits_loop
second_test = refl

resolve_child_name-ends_example :
    (name : Text) × (resolve_child_name 3 as_is children (codes "loader-2" ∷ []) (codes "loader")
      ≡ some name)
    × (name_in_use children (codes "loader-2" ∷ []) name ≡ false)
resolve_child_name-ends_example =
    resolve_child_name-ends 3 as_is children (codes "loader-2" ∷ []) (codes "loader") (omega arith)
