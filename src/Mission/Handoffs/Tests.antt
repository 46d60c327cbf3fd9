-- ===== src/Mission/Handoffs/Tests.antt =====
-- The listing of two hand-offs.
use mathlib.Core.List.{Permᴰ}
use hugen.Prelude.{ℕ, ◌≡◌, refl, [], ◌∷◌}
use hugen.Prelude.Text.{Text, codes, text_eq}
use hugen.Mission.Handoffs.{Handoff, list_handoffs}
use hugen.Mission.Handoffs.Listing.{Sorted, list_handoffs-Sorted}

abbrev handoff : Text → ℕ → Handoff
handoff ref at = record {
  ref = ref;
  status = codes "ok";
  reason = [];
  body = [];
  subagent = record { session_id = codes "s1"; name = codes "a"; role = []; skill = [] };
  created_at = at;
}

abbrev late : Handoff
late = handoff (codes "a@w") 5

abbrev early : Handoff
early = handoff (codes "b@w") 2

list_handoffs-Sorted_example :
    Permᴰ (list_handoffs (late ∷ early ∷ [])) (late ∷ early ∷ [])
    × Sorted (list_handoffs (late ∷ early ∷ []))
    × (list_handoffs (late ∷ early ∷ []) ≡ list_handoffs (early ∷ late ∷ []))
unfolding text_eq
list_handoffs-Sorted_example =
    list_handoffs-Sorted (late ∷ early ∷ []) (early ∷ late ∷ []) (Permᴰ.swap refl refl)
      ((refl, refl, tt), (tt, tt))
