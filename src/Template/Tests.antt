-- ===== src/Template/Tests.antt =====
-- The substitution in a text with a known token, an unknown one, and one that is not closed.
use hugen.Prelude.{suc, ◌≡◌, refl, inr, some, List, [], ◌∷◌, length}
use hugen.Prelude.Text.{Text, codes, text_eq, cut_prefix, split_first, index_byte, HasNo-of_index}
use hugen.Template.{
  Context, substitute, substitute_loop, split_open, replacement, lookup_token, lookup_metadata,
}
use hugen.Template.Pieces.{join, with_values, substitute-join}

abbrev context : Context
context = record {
  user_id = codes "[$auth.role]";
  role = codes "admin";
  agent_id = codes "a1";
  session_id = codes "s1";
  session_metadata = [];
}

abbrev pieces : List (Text × Text)
pieces = (codes "u=", codes "auth.user_id") ∷ (codes " x=", codes "y") ∷ []

abbrev rest : Text
rest = codes " [$agent.id"

one_pass_test : substitute context (join pieces rest) ≡ codes "u=[$auth.role] x=[$y] [$agent.id"
unfolding substitute substitute_loop split_open replacement lookup_token lookup_metadata text_eq
    cut_prefix split_first
one_pass_test = refl

substitute-join_example :
    (substitute_loop (suc (length (join pieces rest))) context (join pieces rest)
      ≡ some (with_values context pieces rest))
    × (substitute context (join pieces rest) ≡ with_values context pieces rest)
unfolding index_byte
substitute-join_example =
    substitute-join context pieces rest
      (
        (refl, tt),
        HasNo-of_index b']' (codes "auth.user_id") refl,
        ((refl, (refl, tt)), HasNo-of_index b']' (codes "y") refl, tt),
      )
      (inr (codes " ", codes "agent.id", tt, HasNo-of_index b']' (codes "agent.id") refl, refl))
