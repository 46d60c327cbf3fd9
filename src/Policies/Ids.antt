-- ===== src/Policies/Ids.antt =====
-- Policy ids: what Save composes is what Revoke takes apart.
use hugen.Prelude.{◌≡◌, refl, false, [], ◌∷◌, ◌++◌, ok}
use hugen.Prelude.Text.{Text, text_eq, HasNo, split_first-append}
use hugen.Policies.{policy_id, parse_policy_id, checked_parts, parse_parts, parse_rest, or_global}

or_global-filled : (s : Text) → text_eq (or_global s) [] ≡ false
unfolding text_eq
or_global-filled [] = refl
or_global-filled (b ∷ s) = refl

-- Parsing the id of a policy gives its key back, the empty scope as `global`, for any scope, if the
-- agent's and the tool's name are not empty and hold no bar.
pub parse-policy_id :
    (agent_id tool_name scope : Text)
    → HasNo b'|' agent_id
    → HasNo b'|' tool_name
    → text_eq agent_id [] ≡ false
    → text_eq tool_name [] ≡ false
    → parse_policy_id (policy_id agent_id tool_name scope)
      ≡ ok (agent_id, tool_name, or_global scope)
unfolding parse_policy_id policy_id checked_parts parse_parts parse_rest
parse-policy_id a t s ha ht ea et =
    rw
      (
        split_first-append b'|' a (t ++ b'|' ∷ or_global s) ha,
        split_first-append b'|' t (or_global s) ht,
        ea,
        et,
      )
      (rw (or_global-filled s) refl)
