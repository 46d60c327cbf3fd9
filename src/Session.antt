-- ===== src/Session.antt =====
-- The names of a session's children: pkg/session/name.go. The lower-casing of the trimmed text, into
-- runes, is a parameter.
pub mod FreeName
pub mod Sanitized
mod Tests
use hugen.Prelude.{
  ℕ, zero, suc, ◌-◌, ◌==◌, ltb, leb, Bool, true, false, ◌&&◌, ◌||◌, Option, none, some, List, [],
  ◌∷◌, ◌++◌, reverse, if◌then◌else◌, any, length, take,
}
use hugen.Prelude.Text.{Text, codes, text_eq}
use hugen.Mission.Criteria.Types.{itoa}

abbrev pub subagent_name_min : ℕ
subagent_name_min = 2

abbrev pub subagent_name_max : ℕ
subagent_name_max = 32

abbrev pub name_fallback : Text
name_fallback = codes "subagent"

abbrev pub is_letter : ℕ → Bool
is_letter r = leb b'a' r && leb r b'z'

abbrev pub is_digit : ℕ → Bool
is_digit r = leb b'0' r && leb r b'9'

-- What the loop writes for each rune.
unfoldable pub replaced : List ℕ → Text
replaced [] = []
replaced (r ∷ runes) = (if is_letter r then r else if is_digit r then r else b'-') ∷ replaced runes

-- `collapseDashes`, with its flag.
unfoldable pub collapse_dashes : Bool → Text → Text
collapse_dashes prev_dash [] = []
collapse_dashes prev_dash (r ∷ s) =
    let after_dash = collapse_dashes true s in
    let after_other = collapse_dashes false s in
    if r == b'-' then (if prev_dash then after_dash else r ∷ after_dash) else r ∷ after_other

-- `strings.TrimLeft(s, "-")`, `strings.TrimRight(s, "-")` and `strings.Trim(s, "-")`
unfoldable pub trim_left : Text → Text
trim_left [] = []
trim_left (r ∷ s) = let rest = trim_left s in if r == b'-' then rest else r ∷ s

unfoldable pub trim_right : Text → Text
unfolding trim_left
trim_right s = reverse (trim_left (reverse s))

unfoldable pub trim : Text → Text
unfolding trim_right
trim s = trim_right (trim_left s)

abbrev pub or_fallback : Text → Text
or_fallback s = if text_eq s [] then name_fallback else s

unfoldable pub cut_to_max : Text → Text
unfolding trim_right
cut_to_max s =
    if ltb subagent_name_max (length s)
    then or_fallback (trim_right (take subagent_name_max s))
    else s

unfoldable pub pad_to_min : Text → Text
pad_to_min s = if ltb (length s) subagent_name_min then s ++ codes "-x" else s

-- `SanitizeName`, over the runes that `strings.ToLower` of the trimmed text gives.
unfoldable pub sanitize_name : (Text → List ℕ) → Text → Text
unfolding replaced collapse_dashes trim cut_to_max pad_to_min
sanitize_name lower raw =
    pad_to_min (cut_to_max (or_fallback (trim (collapse_dashes false (replaced (lower raw))))))

-- A live child, under its session's id.
pub record Child : Type 0 where
  pub id : Text
  pub name : Text

-- `nameInUseLocked`
unfoldable pub name_in_use : List Child → List Text → Text → Bool
name_in_use children pending name =
    any (λ (c : Child). text_eq c.name name) children || any (λ (p : Text). text_eq p name) pending

-- The candidate of the number `i`; its suffix is shorter than the bound for every `i` below 10 ^ 31.
unfoldable pub candidate : Text → ℕ → Text
candidate base i =
    let suffix = b'-' ∷ itoa i in
    let name = base ++ suffix in
    if ltb subagent_name_max (length name)
    then take (subagent_name_max - length suffix) base ++ suffix
    else name

-- The loop from `i` on, on fuel.
unfoldable pub probe : ℕ → List Child → List Text → Text → ℕ → Option Text
unfolding name_in_use candidate
probe zero children pending base i = none
probe (suc fuel) children pending base i =
    let rest = probe fuel children pending base (suc i) in
    if name_in_use children pending (candidate base i) then rest else some (candidate base i)

unfoldable pub resolve_child_name :
    ℕ → (Text → List ℕ) → List Child → List Text → Text → Option Text
unfolding sanitize_name probe
resolve_child_name fuel lower children pending raw =
    let base = sanitize_name lower raw in
    if name_in_use children pending base then probe fuel children pending base 2 else some base

unfoldable pub child_by_name : List Child → Text → Option Child
child_by_name [] name = none
child_by_name (c ∷ children) name =
    if text_eq name []
    then none
    else if text_eq c.name name
    then some c
    else child_by_name children name

unfoldable pub child_by_id : List Child → Text → Option Child
child_by_id [] id = none
child_by_id (c ∷ children) id = if text_eq c.id id then some c else child_by_id children id

-- `resolveChildTarget`: an id before a name.
unfoldable pub resolve_child_target : List Child → Text → Option Child
unfolding child_by_name child_by_id
resolve_child_target children input =
    if text_eq input []
    then none
    else elim (child_by_id children input) [ some c ↦ some c | none ↦ child_by_name children input ]
