-- ===== src/Policies/Matching.antt =====
-- Which row Decide takes.
use hugen.Prelude.{
  ℕ, ◌+◌, ◌≤◌, ◌<◌, ◌++◌, ◌≡◌, refl, ap, subst, ◌∙◌, ◌⊎◌, inl, inr, Bool, true, false, Option, none,
  some, List, [], ◌∷◌, arith, if◌then◌else◌, All, Bool-cases,
}
use hugen.Prelude.Text.{Text, text_eq, trim_space}
use hugen.Policies.{
  Row, global, is_exact, is_glob, find_row, or_else, match_row, decide_rows, decision_of,
  scope_chain,
}

deeper : Option ℕ → Option ℕ
deeper none = none
deeper (some n) = some (2 + n)

-- How specific a row is for a tool: 0 for the tool in the first scope, 1 for a prefix of it there,
-- 2 and 3 in the next scope, and so on; `none` where the row is on other tools or scopes.
pub rank : Text → List Text → Row → Option ℕ
unfolding deeper
rank tool_name [] r = none
rank tool_name (sc ∷ scopes) r =
    if is_exact tool_name sc r
    then some 0
    else if is_glob tool_name sc r
    then some 1
    else deeper (rank tool_name scopes r)

-- The first matches, and the second does not match better.
abbrev pub NoBetter : Option ℕ → Option ℕ → Type 0
NoBetter none o = ⊥
NoBetter (some m) none = Unit
NoBetter (some m) (some n) = m ≤ n

abbrev pub In : Row → List Row → Type 0
In r [] = ⊥
In r (x ∷ rows) = (x ≡ r) ⊎ In r rows

-- The first matches, and the second does not match as well.
abbrev pub Better : Option ℕ → Option ℕ → Type 0
Better none o = ⊥
Better (some m) none = Unit
Better (some m) (some n) = m < n

-- A row that is taken stands in the list: those before it match less well, those behind no better.
pub record IsTaken (rows : List Row) (tool_name : Text) (scopes : List Text) (r : Row)
    : Type 0 where
  pub before : List Row
  pub behind : List Row
  pub listed : rows ≡ before ++ r ∷ behind
  pub earlier : All (λ r'. Better (rank tool_name scopes r) (rank tool_name scopes r')) before
  pub later : All (λ r'. NoBetter (rank tool_name scopes r) (rank tool_name scopes r')) behind

abbrev pub IsBest : List Row → Text → List Text → Option Row → Type 0
IsBest rows tool_name scopes none = All (λ r. rank tool_name scopes r ≡ none) rows
IsBest rows tool_name scopes (some r) = IsTaken rows tool_name scopes r

pub find_row-holds :
    (p : Row → Bool) (rows : List Row) (r : Row) → find_row p rows ≡ some r → p r ≡ true
unfolding find_row
find_row-holds p [] r e = cc
find_row-holds p (x ∷ rows) r e = elim (Bool-cases (p x)) [
  | inl t ↦ ground (arith, t)
  | inr t ↦ find_row-holds p rows r (rw t at e)
]

pub find_row-none :
    (p : Row → Bool) (rows : List Row) → find_row p rows ≡ none → All (λ r. p r ≡ false) rows
unfolding find_row
find_row-none p [] e = tt
find_row-none p (x ∷ rows) e = elim (Bool-cases (p x)) [
  | inl t ↦ absurd (ground (arith, t))
  | inr t ↦ (t, find_row-none p rows (rw t at e))
]

pub found : (p : Row → Bool) (rows : List Row) (r : Row) → find_row p rows ≡ some r → In r rows
unfolding find_row
found p [] r e = cc
found p (x ∷ rows) r e = elim (Bool-cases (p x)) [
  | inl t ↦ inl (ground (arith, t))
  | inr t ↦ inr (found p rows r (rw t at e))
]

All-both :
    (P Q R : Row → Type 0)
    → ((r : Row) → P r → Q r → R r)
    → (rows : List Row) → All P rows
    → All Q rows
    → All R rows
All-both P Q R f [] h k = tt
All-both P Q R f (r ∷ rows) h k = (f r h.0 k.0, All-both P Q R f rows h.1 k.1)

All-of-each : (P : Row → Type 0) → ((r : Row) → P r) → (rows : List Row) → All P rows
All-of-each P f [] = tt
All-of-each P f (r ∷ rows) = (f r, All-of-each P f rows)

NoBetter-zero : (o : Option ℕ) → NoBetter (some 0) o
NoBetter-zero none = tt
NoBetter-zero (some n) = omega arith

exact_best :
    (tool sc : Text) (scs : List Text) (r : Row)
    → is_exact tool sc r ≡ true
    → rank tool (sc ∷ scs) r ≡ some 0
unfolding rank
exact_best tool sc scs r e = rw e refl

glob_next :
    (tool sc : Text) (scs : List Text) (r : Row)
    → is_exact tool sc r ≡ false
    → is_glob tool sc r ≡ true
    → rank tool (sc ∷ scs) r ≡ some 1
unfolding rank
glob_next tool sc scs r e g = rw (e, g) refl

scope_after :
    (tool sc : Text) (scs : List Text) (r : Row)
    → is_exact tool sc r ≡ false
    → is_glob tool sc r ≡ false
    → rank tool (sc ∷ scs) r ≡ deeper (rank tool scs r)
unfolding rank
scope_after tool sc scs r e g = rw (e, g) refl

deeper-positive : (o : Option ℕ) → NoBetter (some 1) (deeper o)
unfolding deeper
deeper-positive none = tt
deeper-positive (some n) = omega arith

deeper-NoBetter : (o o' : Option ℕ) → NoBetter o o' → NoBetter (deeper o) (deeper o')
unfolding deeper
deeper-NoBetter none o' h = absurd h
deeper-NoBetter (some m) none h = tt
deeper-NoBetter (some m) (some n) h = omega (arith, h)

not-exact :
    (tool sc : Text) (scs : List Text) (r : Row)
    → is_exact tool sc r ≡ false
    → NoBetter (some 1) (rank tool (sc ∷ scs) r)
not-exact tool sc scs r e = elim (Bool-cases (is_glob tool sc r)) [
  | inl g ↦ rw (glob_next tool sc scs r e g) (omega arith)
  | inr g ↦ rw (scope_after tool sc scs r e g) (deeper-positive (rank tool scs r))
]

pub All-at : (P : Row → Type 0) (rows : List Row) (r : Row) → All P rows → In r rows → P r
All-at P [] r h m = absurd m
All-at P (x ∷ rows) r h (inl e) = subst P e h.0
All-at P (x ∷ rows) r h (inr m) = All-at P rows r h.1 m

rank-nil : (tool : Text) (r : Row) → rank tool [] r ≡ none
unfolding rank
rank-nil tool r = refl

unmatched :
    (rows : List Row) (tool sc : Text)
    → find_row (is_exact tool sc) rows ≡ none
    → find_row (is_glob tool sc) rows ≡ none
    → All (λ r. (is_exact tool sc r ≡ false) × (is_glob tool sc r ≡ false)) rows
unmatched rows tool sc p q =
    All-both _ _ _ (λ r a b. (a, b)) rows (find_row-none (is_exact tool sc) rows p)
      (find_row-none (is_glob tool sc) rows q)

-- The row that is found, with the rows before it, which do not pass the test.
record Found (p : Row → Bool) (rows : List Row) (r : Row) : Type 0 where
  before : List Row
  behind : List Row
  listed : rows ≡ before ++ r ∷ behind
  not_before : All (λ r'. p r' ≡ false) before
  passes : p r ≡ true

find_row-Found :
    (p : Row → Bool) (rows : List Row) (r : Row) → find_row p rows ≡ some r → Found p rows r
unfolding find_row
find_row-Found p [] r e = cc
find_row-Found p (x ∷ rows) r e = elim (Bool-cases (p x)) [
  | inl t ↦
      (let same : x ≡ r = (let e' = rw t at e in cc) in
        subst (Found p (x ∷ rows)) same
          (record { before = []; behind = rows; listed = refl; not_before = tt; passes = t }))
  | inr t ↦
      (let f = find_row-Found p rows r (rw t at e) in
        record {
          before = x ∷ f.before;
          behind = f.behind;
          listed = ap (λ (l : List Row). x ∷ l) f.listed;
          not_before = (t, f.not_before);
          passes = f.passes;
        })
]

All-split :
    (P : Row → Type 0) (rows before behind : List Row) (r : Row)
    → rows ≡ before ++ r ∷ behind
    → All P rows
    → All P before × P r × All P behind
All-split P rows before behind r e h = go before (subst (All P) e h)
  where
    go : (before : List Row) → All P (before ++ r ∷ behind) → All P before × P r × All P behind
    go [] h = (tt, h.0, h.1)
    go (x ∷ before) h = let (a, b, c) = go before h.1 in ((h.0, a), b, c)

Better-zero : (o : Option ℕ) → NoBetter (some 1) o → Better (some 0) o
Better-zero none h = tt
Better-zero (some n) h = omega (arith, h)

Better-one : (o : Option ℕ) → Better (some 1) (deeper o)
unfolding deeper
Better-one none = tt
Better-one (some n) = omega arith

Better-deeper : (o o' : Option ℕ) → Better o o' → Better (deeper o) (deeper o')
unfolding deeper
Better-deeper none o' h = absurd h
Better-deeper (some m) none h = tt
Better-deeper (some m) (some n) h = omega (arith, h)

-- Decide takes a row that matches the tool: in the nearest scope of the chain with a match, the tool
-- itself before a prefix of it; of several such rows, the one that the store lists first, however long
-- their prefixes. It takes none only where no row matches.
pub match_row-IsBest :
    (rows : List Row) (tool : Text) (scopes : List Text)
    → IsBest rows tool scopes (match_row rows tool scopes)
unfolding match_row deeper
match_row-IsBest rows tool [] = All-of-each _ (rank-nil tool) rows
match_row-IsBest rows tool (sc ∷ scs) =
    go (find_row (is_exact tool sc) rows) refl (find_row (is_glob tool sc) rows) refl
      (match_row rows tool scs) (match_row-IsBest rows tool scs)
  where
    go :
        (o : Option Row)
        → find_row (is_exact tool sc) rows ≡ o
        → (o' : Option Row) → find_row (is_glob tool sc) rows ≡ o'
        → (rest : Option Row) → IsBest rows tool scs rest
        → IsBest rows tool (sc ∷ scs) (or_else o (or_else o' rest))
    go (some r) p o' q rest h =
        let f = find_row-Found (is_exact tool sc) rows r p in
        record {
          before = f.before;
          behind = f.behind;
          listed = f.listed;
          earlier = rw (exact_best tool sc scs r f.passes) (
              All-both (λ x. is_exact tool sc x ≡ false) (λ _. Unit) _
                (λ r' e _. Better-zero _ (not-exact tool sc scs r' e)) f.before f.not_before
                (All-of-each _ (λ _. tt) f.before));
          later =
              rw (exact_best tool sc scs r f.passes)
                (All-of-each _ (λ r'. NoBetter-zero (rank tool (sc ∷ scs) r')) f.behind);
        }
    go none p (some r) q rest h =
        let f = find_row-Found (is_glob tool sc) rows r q in
        let (a, b, c) =
          All-split _ rows f.before f.behind r f.listed (find_row-none (is_exact tool sc) rows p) in
        record {
          before = f.before;
          behind = f.behind;
          listed = f.listed;
          earlier = rw (glob_next tool sc scs r b f.passes) (
              All-both (λ x. is_exact tool sc x ≡ false) (λ x. is_glob tool sc x ≡ false) _
                (λ r' e g. rw (scope_after tool sc scs r' e g) (Better-one (rank tool scs r')))
                f.before a f.not_before);
          later = rw (glob_next tool sc scs r b f.passes) (
              All-both (λ x. is_exact tool sc x ≡ false) (λ _. Unit) _
                (λ r' e _. not-exact tool sc scs r' e) f.behind c
                (All-of-each _ (λ _. tt) f.behind));
        }
    go none p none q none h =
        All-both _ _ _ (λ r both h'. scope_after tool sc scs r both.0 both.1 ∙ ap deeper h') rows
          (unmatched rows tool sc p q) h
    go none p none q (some r) h =
        let (a, b, c) =
          All-split _ rows h.before h.behind r h.listed (unmatched rows tool sc p q) in
        record {
          before = h.before;
          behind = h.behind;
          listed = h.listed;
          earlier = rw (scope_after tool sc scs r b.0 b.1) (
              All-both _ _ _
                (λ r' n h'. rw (scope_after tool sc scs r' n.0 n.1) (Better-deeper _ _ h')) h.before
                a h.earlier);
          later = rw (scope_after tool sc scs r b.0 b.1) (
              All-both _ _ _
                (λ r' n h'. rw (scope_after tool sc scs r' n.0 n.1) (deeper-NoBetter _ _ h'))
                h.behind c h.later);
        }

global_chain : scope_chain global ≡ global ∷ []
unfolding scope_chain text_eq trim_space
global_chain = refl

-- Of two prefix rows of the scope `global` that match a tool, with neither on the tool itself, Decide
-- takes the one that the store lists first, whichever prefix is longer.
pub listed_first :
    (tool : Text) (r r' : Row)
    → is_glob tool global r ≡ true
    → is_glob tool global r' ≡ true
    → is_exact tool global r ≡ false
    → is_exact tool global r' ≡ false
    → (decide_rows (r ∷ r' ∷ []) tool global ≡ decision_of r)
      × (decide_rows (r' ∷ r ∷ []) tool global ≡ decision_of r')
unfolding decide_rows match_row find_row
listed_first tool r r' g g' e e' = (first r r' g e e', first r' r g' e' e)
  where
    first :
        (r r' : Row)
        → is_glob tool global r ≡ true
        → is_exact tool global r ≡ false
        → is_exact tool global r' ≡ false
        → decide_rows (r ∷ r' ∷ []) tool global ≡ decision_of r
    first r r' g e e' = rw (global_chain, decide_rows, e, e', g) refl
