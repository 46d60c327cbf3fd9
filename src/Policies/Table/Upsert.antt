-- ===== src/Policies/Table/Upsert.antt =====
-- An upsert on the table: the row with the key is there once, advanced, the others stay.
use hugen.Prelude.{
  ℕ, suc, ltb, ◌≡◌, refl, sym, ap, subst, ◌∙◌, ◌⊎◌, inl, inr, Bool, true, false, Option, some, List,
  [], ◌∷◌, map, arith, if◌then◌else◌, Result, ok, fail, Bool-cases,
}
use hugen.Prelude.Text.{Text, text_eq}
use hugen.Policies.{
  Outcome, ask, allow, deny, to_string, Row, Input, QueryError, PolicyError, or_global, policy_id,
  parse_policy_outcome, is_exact,
}
use hugen.Policies.Matching.{In}
use hugen.Policies.Table.{
  Querier, optional, or_failed, or_empty, update, insert, with_id, after_update, defaults, save,
}

abbrev pub advance : Text → Text → Text → Text → Row → Row
advance tool_name scope policy note r =
    if is_exact tool_name scope r then record r { policy = policy; note = note } else r

abbrev pub count : (Row → Bool) → List Row → ℕ
count p [] = 0
count p (r ∷ rows) = if p r then suc (count p rows) else count p rows

-- What the table does: it lists the rows of an agent, an update writes the policy and the note of the
-- rows with the key and says how many they are (an empty answer means none), and an insertion adds a row to those there.
pub record IsTable {D : Type 0} (q : Querier D) : Type 0 where
  pub view : D → Text → List Row
  pub listed : (d : D) (a : Text) → q.list_rows d a ≡ ok (view d a)
  pub updated :
      (d : D) (a t s p n : Text) (k : ℕ)
      → or_empty 0 (q.update_rows d a t s p n).0 ≡ ok k
      → (view (q.update_rows d a t s p n).1 a ≡ map (advance t s p n) (view d a))
        × (k ≡ count (is_exact t s) (view d a))
  pub inserted :
      (d : D) (a t s p c : Text) (n : Option Text)
      → (q.insert_row d a t s p c n).0 ≡ ok tt
      → (new : Row) × (is_exact t s new ≡ true)
        × (new.policy ≡ p)
        × In new (view (q.insert_row d a t s p c n).1 a)
        × ((r : Row) → In r (view (q.insert_row d a t s p c n).1 a) → (r ≡ new) ⊎ In r (view d a))

-- Among the rows, the ones with the key, of which there is one at least, carry the policy.
pub record Carries (t s p : Text) (rows : List Row) : Type 0 where
  pub there : (r : Row) × In r rows × (is_exact t s r ≡ true)
  pub carried : (r : Row) → In r rows → is_exact t s r ≡ true → r.policy ≡ p

-- Decoding what `PolicyOutcome.String` writes gives the outcome back.
pub parse-to_string : (o : Outcome) → parse_policy_outcome (to_string o) ≡ ok o
unfolding parse_policy_outcome to_string text_eq
parse-to_string ask = refl
parse-to_string allow = refl
parse-to_string deny = refl

is_exact-advance : (t s p n : Text) (r : Row) → is_exact t s (advance t s p n r) ≡ is_exact t s r
is_exact-advance t s p n r = elim (Bool-cases (is_exact t s r)) [
  | inl e ↦ simp e refl
  | inr e ↦ simp e refl
]

policy-advance : (t s p n : Text) (r : Row) → is_exact t s r ≡ true → (advance t s p n r).policy ≡ p
policy-advance t s p n r e = simp e refl

In-advanced :
    (t s p n : Text) (rows : List Row) (r : Row)
    → In r (map (advance t s p n) rows)
    → is_exact t s r ≡ true
    → r.policy ≡ p
In-advanced t s p n [] r m k = absurd m
In-advanced t s p n (x ∷ rows) r (inl e) k =
    sym (ap (λ (y : Row). y.policy) e)
    ∙ policy-advance t s p n x (sym (is_exact-advance t s p n x) ∙ ap (is_exact t s) e ∙ k)
In-advanced t s p n (x ∷ rows) r (inr m) k = In-advanced t s p n rows r m k

there-advanced :
    (t s p n : Text) (rows : List Row)
    → ltb 0 (count (is_exact t s) rows) ≡ true
    → (r : Row) × In r (map (advance t s p n) rows) × (is_exact t s r ≡ true)
there-advanced t s p n [] h = absurd (ground arith)
there-advanced t s p n (x ∷ rows) h = elim (Bool-cases (is_exact t s x)) [
  | inl k ↦ (advance t s p n x, inl refl, is_exact-advance t s p n x ∙ k)
  | inr k ↦ let (r, m, e) = there-advanced t s p n rows (simp k at h) in (r, inr m, e)
]

none-counted :
    (t s : Text) (rows : List Row) (r : Row)
    → ltb 0 (count (is_exact t s) rows) ≡ false
    → In r rows
    → is_exact t s r ≡ false
none-counted t s [] r h m = absurd m
none-counted t s (x ∷ rows) r h (inl e) =
    subst (λ (y : Row). is_exact t s y ≡ false) e (ground (arith, h))
none-counted t s (x ∷ rows) r h (inr m) = none-counted t s rows r (ground (arith, h)) m

or_failed-ok : (r : Result QueryError (Unit {0})) → or_failed r ≡ ok tt → r ≡ ok tt
or_failed-ok (ok _) e = refl
or_failed-ok (fail x) e = cc

with_id-state :
    {D : Type 0} (id : Text) (r : Result PolicyError (Unit {0}) × D) → (with_id id r).1 ≡ r.1
unfolding with_id
with_id-state id (ok _, d) = refl
with_id-state id (fail e, d) = refl

with_id-ok :
    {D : Type 0} (id : Text) (r : Result PolicyError (Unit {0}) × D) (id' : Text)
    → (with_id id r).0 ≡ ok id'
    → r.0 ≡ ok tt
unfolding with_id
with_id-ok id (ok _, d) id' e = refl
with_id-ok id (fail x, d) id' e = cc

module _ {D : Type 0} (q : Querier D) (table : IsTable q) where
  update-Carries :
      (d : D) (i : Input) (n : ℕ)
      → (update q d i).0 ≡ ok n
      → ltb 0 n ≡ true
      → Carries i.tool_name i.scope (to_string i.decision) (table.view (update q d i).1 i.agent_id)
  unfolding update
  update-Carries d i n e p =
      let (same, counted) =
        table.updated d i.agent_id i.tool_name i.scope (to_string i.decision) i.note n e in
      let before = table.view d i.agent_id in
      rw same (record {
        there =
            there-advanced i.tool_name i.scope (to_string i.decision) i.note before
              (ap (ltb 0) (sym counted) ∙ p);
        carried = In-advanced i.tool_name i.scope (to_string i.decision) i.note before;
      })

  insert-Carries :
      (d : D) (i : Input) (n : ℕ)
      → (update q d i).0 ≡ ok n
      → ltb 0 n ≡ false
      → (insert q (update q d i).1 i).0 ≡ ok tt
      → Carries i.tool_name i.scope
          (to_string i.decision)
          (table.view (insert q (update q d i).1 i).1 i.agent_id)
  unfolding update insert
  insert-Carries d i n e p f =
      let (same, counted) =
        table.updated d i.agent_id i.tool_name i.scope (to_string i.decision) i.note n e in
      let before = table.view d i.agent_id in
      let (new, key, policy, there, only) =
        table.inserted _ i.agent_id i.tool_name i.scope (to_string i.decision) i.created_by
          (optional i.note) (or_failed-ok _ f) in
      record {
        there = (new, there, key);
        carried = λ r m k. elim (only r m) [
          | inl e' ↦ ap (λ (x : Row). x.policy) e' ∙ policy
          | inr old ↦
              In-advanced i.tool_name i.scope (to_string i.decision) i.note before r
                (subst (In r) same old) k
        ];
      }

  after_update-Carries :
      (d : D) (i : Input) (id : Text)
      → (after_update q i (update q d i)).0 ≡ ok id
      → Carries i.tool_name i.scope
          (to_string i.decision)
          (table.view (after_update q i (update q d i)).1 i.agent_id)
  unfolding after_update
  after_update-Carries d i id e = go (update q d i).0 refl e
    where
      go :
          (r : Result PolicyError ℕ)
          → (update q d i).0 ≡ r
          → (after_update q i (r, (update q d i).1)).0 ≡ ok id
          → Carries i.tool_name i.scope
              (to_string i.decision)
              (table.view (after_update q i (r, (update q d i).1)).1 i.agent_id)
      go (fail x) u f = cc
      go (ok n) u f = elim (Bool-cases (ltb 0 n)) [
        | inl p ↦ rw p (update-Carries d i n u p)
        | inr p ↦
            rw
              (
                p,
                with_id-state (policy_id i.agent_id i.tool_name i.scope)
                    (insert q (update q d i).1 i),
              )
              (insert-Carries d i n u p (with_id-ok _ (insert q (update q d i).1 i) id (rw p at f)))
      ]

  pub save-Carries :
      (d : D) (i : Input) (id : Text)
      → (save (some q) d i).0 ≡ ok id
      → Carries i.tool_name
          (or_global i.scope)
          (to_string i.decision)
          (table.view (save (some q) d i).1 i.agent_id)
  unfolding save
  save-Carries d i id e = elim (Bool-cases (text_eq i.agent_id [])) [
    | inl a ↦ absurd (ground (arith, a, e))
    | inr a ↦ elim (Bool-cases (text_eq i.tool_name [])) [
      | inl t ↦ absurd (ground (arith, a, t, e))
      | inr t ↦ rw (a, t) (after_update-Carries d (defaults i) id (rw (a, t) at e))
    ]
  ]
