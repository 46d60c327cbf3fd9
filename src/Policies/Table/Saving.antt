-- ===== src/Policies/Table/Saving.antt =====
-- A decision that is saved is the one that is found.
use hugen.Prelude.{
  ◌≡◌, refl, sym, ap, ◌∙◌, inl, inr, false, Option, none, some, List, [], ◌∷◌, ◌++◌, arith, ok,
  Bool-cases,
}
use hugen.Prelude.Text.{Text, text_eq, text_eq_iff, trim_space}
use hugen.Policies.{
  Outcome, to_string, Decision, Row, Input, or_global, global, parse_policy_outcome, reason_of,
  decision_of, is_exact, find_row, match_row, decide_rows, scope_chain, skill_of,
}
use hugen.Policies.Matching.{found, find_row-holds, find_row-none, All-at}
use hugen.Policies.Table.{Querier, or_empty, list, save, decide}
use hugen.Policies.Table.Upsert.{IsTable, Carries, parse-to_string, save-Carries}

find-Carries :
    (t s p : Text) (rows : List Row)
    → Carries t s p rows
    → (r : Row) × (find_row (is_exact t s) rows ≡ some r) × (r.policy ≡ p)
find-Carries t s p rows c = go (find_row (is_exact t s) rows) refl
  where
    go :
        (o : Option Row)
        → find_row (is_exact t s) rows ≡ o
        → (r : Row) × (find_row (is_exact t s) rows ≡ some r) × (r.policy ≡ p)
    go (some r) e =
        (r, e, c.carried r (found (is_exact t s) rows r e) (find_row-holds (is_exact t s) rows r e))
    go none e =
        let n =
          All-at (λ x. is_exact t s x ≡ false) rows c.there.0 (find_row-none (is_exact t s) rows e)
            c.there.1 in
        absurd (ground (arith, n, c.there.2))

scope_chain-head :
    (s : Text) → trim_space s ≡ s → (rest : List Text) × (scope_chain s ≡ or_global s ∷ rest)
unfolding scope_chain
scope_chain-head s e = elim (Bool-cases (text_eq s [])) [
  | inl n ↦ ([], rw (e, n) refl)
  | inr n ↦ elim (Bool-cases (text_eq s global)) [
    | inl g ↦ ([], rw (e, n, g) (ap (λ (x : Text). x ∷ []) (sym ((text_eq_iff s global).0 g))))
    | inr g ↦ (skill_of s ++ global ∷ [], rw (e, n, g) refl)
  ]
]

decision_of-policy :
    (r : Row) (o : Outcome)
    → r.policy ≡ to_string o
    → decision_of r
      ≡ ok (record { outcome = o; tool_name = r.tool_name; scope = r.scope; reason = reason_of r })
unfolding decision_of
decision_of-policy r o p =
    let q : parse_policy_outcome r.policy ≡ ok o = ap parse_policy_outcome p ∙ parse-to_string o in
    simp (q, decision_of)

decide_rows-Carries :
    (t scope : Text) (o : Outcome) (rows : List Row)
    → trim_space scope ≡ scope
    → Carries t (or_global scope) (to_string o) rows
    → (dec : Decision) × (decide_rows rows t scope ≡ ok dec) × (dec.outcome ≡ o)
unfolding decide_rows match_row decision_of
decide_rows-Carries t scope o rows e c =
    let (rest, ch) = scope_chain-head scope e in
    let (r, f, p) = find-Carries t (or_global scope) (to_string o) rows c in
    (
      record { outcome = o; tool_name = r.tool_name; scope = r.scope; reason = reason_of r },
      rw (ch, decide_rows) (rw f (decision_of-policy r o p)),
      refl,
    )

named :
    {D : Type 0} (q : Querier D) (d : D) (i : Input) (id : Text)
    → (save (some q) d i).0 ≡ ok id
    → (text_eq i.agent_id [] ≡ false) × (text_eq i.tool_name [] ≡ false)
unfolding save
named q d i id e = elim (Bool-cases (text_eq i.agent_id [])) [
  | inl a ↦ absurd (ground (arith, a, e))
  | inr a ↦ elim (Bool-cases (text_eq i.tool_name [])) [
    | inl t ↦ absurd (ground (arith, a, t, e))
    | inr t ↦ (a, t)
  ]
]

-- Over any table, a decision that Save has stored is the outcome that Decide then gives for that
-- agent, tool and scope, if the scope has no white space at its ends.
pub decide-save :
    {D : Type 0} (q : Querier D) (table : IsTable q) (d : D) (i : Input) (id : Text)
    → trim_space i.scope ≡ i.scope
    → (save (some q) d i).0 ≡ ok id
    → (dec : Decision) × (decide (some q) (save (some q) d i).1 i.agent_id i.tool_name i.scope
        ≡ ok dec)
      × (dec.outcome ≡ i.decision)
unfolding decide list or_empty
decide-save q table d i id trimmed e =
    let d' = (save (some q) d i).1 in
    let (dec, p, o) =
      decide_rows-Carries i.tool_name i.scope i.decision (table.view d' i.agent_id) trimmed
        (save-Carries q table d i id e) in
    let (a, t) = named q d i id e in (dec, rw (a, t, table.listed d' i.agent_id) p, o)
