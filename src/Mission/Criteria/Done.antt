-- ===== src/Mission/Criteria/Done.antt =====
-- Consequences of the criteria's invariant for their readers, and a commit that fails half-way.
use hugen.Prelude.{
  ℕ, zero, suc, ◌≡◌, ◌⊎◌, refl, sym, ap, ◌∙◌, inl, inr, true, false, some, List, [], ◌∷◌, ◌++◌,
  arith, ok, fail, get_elem?, length, any, All, length-append, get_elem?-map, Bool-cases,
}
use hugen.Prelude.Text.{Text, text_eq, trim_space}
use hugen.Mission.Criteria.Types.{
  planner_prefix, itoa, check_adds, planner_updates, Status, unset, unsatisfied, satisfied, dropped,
  other, Criterion, UpdateSpec, AddSpec, Diff, blank_statement, validate_planner_diff, is_blank,
}
use hugen.Mission.Criteria.{
  Criteria, Staged, ac_id, has_unsatisfied_ac, is_unsatisfied, commit_staged_diff, commit_combined,
  add_all, finish, mint, mint_trimmed, origin_or, find_id, find_row, check_ids, is_none,
}
use hugen.Mission.Criteria.Update.{
  update_row, new_statement, write_row, apply_update, apply_updates, update_first,
}
use hugen.Mission.Criteria.Rows.{IsSound, IsKnown}
use hugen.Mission.Criteria.Numbers.{ac_id-injective}
use hugen.Mission.Criteria.Ids.{IsGood, minted}

-- A row that is satisfied, or dropped for a reason.
abbrev pub IsClosed : Criterion → Type 0
IsClosed row =
    (row.status ≡ satisfied) ⊎ ((row.status ≡ dropped) × (text_eq row.drop_reason [] ≡ false))

IsClosed-of-IsSound :
    (row : Criterion) → IsSound row → is_unsatisfied row.status ≡ false → IsClosed row
IsClosed-of-IsSound row h n = go row.status refl h.known
  where
    go : (st : Status) → row.status ≡ st → IsKnown st → IsClosed row
    go unset e k = absurd k
    go unsatisfied e k = cc
    go satisfied e k = inl e
    go dropped e k = inr (e, h.reasoned (rw e refl))
    go (other x) e k = absurd k

rows-IsClosed :
    (rows : List Criterion)
    → All IsSound rows
    → any (λ (row : Criterion). is_unsatisfied row.status) rows ≡ false
    → All IsClosed rows
rows-IsClosed [] h n = tt
rows-IsClosed (row ∷ rows) h n =
    (IsClosed-of-IsSound row h.0 (ground arith), rows-IsClosed rows h.1 (ground arith))

-- On criteria with the invariant IsGood, once `HasUnsatisfiedAC` is false every row is satisfied or
-- dropped for a reason.
pub has_unsatisfied_ac-IsClosed :
    (s : Criteria) → IsGood s → has_unsatisfied_ac s ≡ false → All IsClosed s.ac
unfolding has_unsatisfied_ac
has_unsatisfied_ac-IsClosed s h n = rows-IsClosed s.ac h.sound n

length-minted : (n : ℕ) → length (minted n) ≡ n
unfolding minted
length-minted zero = refl
length-minted (suc n) =
    omega (arith, length-append (minted n) (ac_id (suc n) ∷ []), length-minted n)

last_entry :
    (xs : List Text) (a b : Text) (i : ℕ)
    → get_elem? (xs ++ a ∷ []) i ≡ some b
    → (get_elem? xs i ≡ some b) ⊎ ((i ≡ length xs) × (b ≡ a))
last_entry [] a b zero h = inr (refl, cc)
last_entry [] a b (suc i) h = cc
last_entry (x ∷ xs) a b zero h = inl h
last_entry (x ∷ xs) a b (suc i) h = elim (last_entry xs a b i h) [
  | inl e ↦ inl e
  | inr (e, f) ↦ inr (omega (arith, e), f)
]

get_elem?-minted : (n i : ℕ) (id : Text) → get_elem? (minted n) i ≡ some id → id ≡ ac_id (suc i)
unfolding minted
get_elem?-minted zero i id h = cc
get_elem?-minted (suc n) i id h = elim (last_entry (minted n) (ac_id (suc n)) id i h) [
  | inl e ↦ get_elem?-minted n i id e
  | inr (e, f) ↦ f ∙ ap (λ (k : ℕ). ac_id (suc k)) (sym (length-minted n) ∙ sym e)
]

id_at :
    (s : Criteria) (i : ℕ) (row : Criterion)
    → IsGood s
    → get_elem? s.ac i ≡ some row
    → row.id ≡ ac_id (suc i)
id_at s i row h e = get_elem?-minted s.next_ac_id i row.id (
    ap (λ (l : List Text). get_elem? l i) (sym h.numbered)
    ∙ get_elem?-map (λ (r : Criterion). r.id) s.ac i row e)

-- On criteria with the invariant IsGood, two positions whose rows have the same id are one position.
pub distinct_ids :
    (s : Criteria) (i j : ℕ) (row row' : Criterion)
    → IsGood s
    → get_elem? s.ac i ≡ some row
    → get_elem? s.ac j ≡ some row'
    → row.id ≡ row'.id
    → i ≡ j
distinct_ids s i j row row' h e e' same =
    let p : suc i ≡ suc j =
      ac_id-injective (suc i) (suc j) (sym (id_at s i row h e) ∙ same ∙ id_at s j row' h e') in
    omega (arith, p)

update_first-blank :
    (id : Text) (u : UpdateSpec) (iter : ℕ) (source : Text) (rows : List Criterion)
    → find_row id rows ≡ true
    → text_eq u.statement [] ≡ false
    → is_blank u.statement ≡ true
    → update_first id (update_row u iter source) rows ≡ fail blank_statement
unfolding update_first update_row new_statement write_row find_row is_blank
update_first-blank id u iter source [] f n b = cc
update_first-blank id u iter source (row ∷ rows) f n b = elim (Bool-cases (text_eq row.id id)) [
  | inl t ↦ ground arith
  | inr t ↦ rw (t, update_first-blank id u iter source rows (ground (arith, f, t)) n b) refl
]

find_row-append :
    (id : Text) (xs ys : List Criterion) → find_row id xs ≡ true → find_row id (xs ++ ys) ≡ true
unfolding find_row
find_row-append id [] ys f = cc
find_row-append id (x ∷ xs) ys f = ground (arith, f, find_row-append id xs ys)

find_row-mint :
    (id : Text) (s : Criteria) (statement origin : Text) (iter : ℕ)
    → find_row id s.ac ≡ true
    → find_row id (mint_trimmed s statement origin iter).0.ac ≡ true
unfolding mint_trimmed mint
find_row-mint id s statement origin iter f = elim (Bool-cases (text_eq (trim_space statement) [])) [
  | inl e ↦ rw e f
  | inr e ↦ rw e (find_row-append id s.ac _ f)
]

find_row-add_all :
    (id origin : Text) (iter : ℕ) (s : Criteria) (as' : List AddSpec)
    → find_row id s.ac ≡ true
    → find_row id (add_all origin iter s as').0.ac ≡ true
unfolding add_all
find_row-add_all id origin iter s [] f = f
find_row-add_all id origin iter s (a ∷ as') f =
    find_row-add_all id origin iter (mint_trimmed s a.statement (origin_or origin a) iter).0 as'
      (find_row-mint id s a.statement (origin_or origin a) iter f)

pending-mint :
    (s : Criteria) (statement origin : Text) (iter : ℕ)
    → (mint_trimmed s statement origin iter).0.pending ≡ s.pending
unfolding mint_trimmed mint
pending-mint s statement origin iter = ground arith

pending-add_all :
    (origin : Text) (iter : ℕ) (s : Criteria) (as' : List AddSpec)
    → (add_all origin iter s as').0.pending ≡ s.pending
unfolding add_all
pending-add_all origin iter s [] = refl
pending-add_all origin iter s (a ∷ as') =
    pending-add_all origin iter (mint_trimmed s a.statement (origin_or origin a) iter).0 as'
    ∙ pending-mint s a.statement (origin_or origin a) iter

abbrev pub no_change : Diff
no_change = record { add = []; update = [] }

apply_updates-blank :
    (u : UpdateSpec) (iter : ℕ) (source : Text) (rows : List Criterion)
    → find_id rows u.id ≡ true
    → text_eq u.statement [] ≡ false
    → is_blank u.statement ≡ true
    → apply_updates (u ∷ []) iter source rows ≡ (rows, some blank_statement)
unfolding apply_updates apply_update find_id
apply_updates-blank u iter source rows f n b = elim (Bool-cases (text_eq (trim_space u.id) [])) [
  | inl t ↦ absurd (ground (arith, f, t))
  | inr t ↦
      rw (t, update_first-blank (trim_space u.id) u iter source rows (ground (arith, f, t)) n b)
        refl
]

find_id-add_all :
    (origin : Text) (iter : ℕ) (s : Criteria) (as' : List AddSpec) (id : Text)
    → find_id s.ac id ≡ true
    → find_id (add_all origin iter s as').0.ac id ≡ true
unfolding find_id
find_id-add_all origin iter s as' id f = elim (Bool-cases (text_eq (trim_space id) [])) [
  | inl t ↦ absurd (ground (arith, f, t))
  | inr t ↦ rw t (find_row-add_all (trim_space id) origin iter s as' (ground (arith, f, t)))
]

commit-blank :
    (s : Criteria) (p : Staged) (u : UpdateSpec)
    → p.diff.update ≡ u ∷ []
    → find_id s.ac u.id ≡ true
    → text_eq u.statement [] ≡ false
    → is_blank u.statement ≡ true
    → commit_combined s p no_change
      ≡ ((add_all p.origin p.iter s p.diff.add).0, fail blank_statement)
unfolding commit_combined finish add_all
commit-blank s p u e f n b =
    let s1 = (add_all p.origin p.iter s p.diff.add).0 in
    rw (e, commit_combined)
      (rw
        (apply_updates-blank u p.iter (planner_prefix ++ itoa p.iter) s1.ac
          (find_id-add_all p.origin p.iter s p.diff.add u.id f) n b)
        refl)

check_ids-found :
    (rows : List Criterion) (u : UpdateSpec)
    → find_id rows u.id ≡ true
    → check_ids 0 rows (u ∷ []) ≡ ok tt
unfolding check_ids find_id is_blank
check_ids-found rows u f = ground arith

goes_through :
    (s : Criteria) (p : Staged) (u : UpdateSpec)
    → s.pending ≡ some p
    → p.diff.update ≡ u ∷ []
    → find_id s.ac u.id ≡ true
    → commit_staged_diff s no_change ≡ commit_combined s p no_change
unfolding commit_staged_diff validate_planner_diff check_adds planner_updates is_none
goes_through s p u e o f = simp (e, o, check_ids-found s.ac u f, commit_staged_diff)

-- Committing a staged diff whose one update names a known row, with a statement that is not empty
-- but white space only, fails, and yet the staged diff's additions are in the criteria, and the diff
-- stays staged.
pub blank_statement_commit :
    (s : Criteria) (p : Staged) (u : UpdateSpec)
    → s.pending ≡ some p
    → p.diff.update ≡ u ∷ []
    → find_id s.ac u.id ≡ true
    → text_eq u.statement [] ≡ false
    → is_blank u.statement ≡ true
    → ((commit_staged_diff s no_change).1 ≡ fail blank_statement)
      × ((commit_staged_diff s no_change).0.pending ≡ some p)
      × ((commit_staged_diff s no_change).0.ac ≡ (add_all p.origin p.iter s p.diff.add).0.ac)
blank_statement_commit s p u e o f n b =
    let q : commit_staged_diff s no_change
        ≡ ((add_all p.origin p.iter s p.diff.add).0, fail blank_statement) =
      goes_through s p u e o f ∙ commit-blank s p u o f n b in
    rw q (refl, pending-add_all p.origin p.iter s p.diff.add ∙ e, refl)
