-- ===== src/Mission/Handoffs.antt =====
-- The hand-offs of a mission's workers: pkg/extension/mission/handoffs.go and refs.go. The rendering of
-- a body and of numbers, which is text for a prompt, is a parameter.
pub mod Listing
mod Tests
use hugen.Prelude.{
  ℕ, ◌==◌, ltb, Bool, true, false, not, ◌&&◌, ◌||◌, Option, none, some, List, [], ◌∷◌, ◌++◌,
  reverse, if◌then◌else◌, Result, ok, fail, ◌>>=◌,
}
use hugen.Prelude.Text.{Text, codes, text_eq, trim_space, split_first, ends_with_byte}
use hugen.Prelude.Maps.{set, lookup}

pub record SubagentRef : Type 0 where
  pub session_id : Text
  pub name : Text
  pub role : Text
  pub skill : Text

-- `body` is what `renderBodyForFirstMessage` makes of the body.
pub record Handoff : Type 0 where
  pub ref : Text
  pub status : Text
  pub reason : Text
  pub body : Text
  pub subagent : SubagentRef
  pub created_at : ℕ

pub data RefError : Type 0 where
  empty_name empty_wave malformed_ref : RefError
  unknown_ref : Text → RefError

-- The store: the map `entries`.
unfoldable pub put_handoff : Handoff → List (Text × Handoff) → List (Text × Handoff)
unfolding set
put_handoff h entries = if text_eq h.ref [] then entries else set h.ref h entries

unfoldable pub get : Text → List (Text × Handoff) → Option Handoff
unfolding lookup
get ref entries = lookup ref entries

-- `a < b` on strings.
unfoldable pub text_lt : Text → Text → Bool
text_lt s [] = false
text_lt [] (b ∷ t) = true
text_lt (a ∷ s) (b ∷ t) = ltb a b || a == b && text_lt s t

unfoldable pub listed_before : Handoff → Handoff → Bool
unfolding text_lt
listed_before a b =
    ltb a.created_at b.created_at || a.created_at == b.created_at && text_lt a.ref b.ref

-- The inner loop of `List`, on the part of the slice before the new element, its last one first.
unfoldable pub insert_handoff : Handoff → List Handoff → List Handoff
unfolding listed_before
insert_handoff b [] = b ∷ []
insert_handoff b (a ∷ earlier) =
    if listed_before a b then b ∷ a ∷ earlier else a ∷ insert_handoff b earlier

unfoldable pub insert_all : List Handoff → List Handoff → List Handoff
unfolding insert_handoff
insert_all earlier [] = earlier
insert_all earlier (b ∷ rest) = insert_all (insert_handoff b earlier) rest

-- `List`, of the map's values in whatever order the iteration gives them.
unfoldable pub list_handoffs : List Handoff → List Handoff
unfolding insert_all
list_handoffs values = reverse (insert_all [] values)

unfoldable pub make_ref : Text → Text → Result RefError Text
make_ref subagent_name wave_label =
    let name = trim_space subagent_name in
    let wave = trim_space wave_label in
    if text_eq name []
    then fail empty_name
    else if text_eq wave []
    then fail empty_wave
    else ok (name ++ b'@' ∷ wave)

unfoldable pub parse_ref : Text → Result RefError (Text × Text)
parse_ref ref = elim (split_first b'@' (trim_space ref)) [
  | none ↦ fail malformed_ref
  | some (name, wave) ↦
      if text_eq name [] || text_eq wave [] then fail malformed_ref else ok (name, wave)
]

unfoldable pub display_role : Handoff → Text
display_role h =
    if not (text_eq h.subagent.role [])
    then h.subagent.role
    else if not (text_eq h.subagent.skill [])
    then h.subagent.skill
    else codes "?"

abbrev pub entry_text : Handoff → Text
entry_text h =
    codes "<"
    ++ (h.ref
        ++ (codes " (role: "
            ++ (display_role h ++ (codes ", status: " ++ (h.status ++ codes ")>\n")))))

abbrev pub body_text : Text → Text
body_text body =
    if text_eq body [] then [] else if ends_with_byte 10 body then body else body ++ 10 ∷ []

unfoldable pub resolve_entries : List Text → List (Text × Handoff) → Result RefError Text
unfolding get display_role
resolve_entries [] store = ok []
resolve_entries (ref ∷ deps) store = elim (get ref store) [
  | none ↦ fail (unknown_ref ref)
  | some h ↦ resolve_entries deps store >>= λ rest. ok (entry_text h ++ (body_text h.body ++ rest))
]

-- `ResolveDependsOn`
unfoldable pub resolve_depends_on : List Text → List (Text × Handoff) → Result RefError Text
unfolding resolve_entries
resolve_depends_on [] store = ok []
resolve_depends_on (ref ∷ deps) store =
    resolve_entries (ref ∷ deps) store >>= λ rest. ok (codes "[Resolved depends_on]\n" ++ rest)
