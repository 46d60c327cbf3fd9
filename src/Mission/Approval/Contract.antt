-- ===== src/Mission/Approval/Contract.antt =====
-- Status reports leave the contract: which criteria there are, what they say, and that none is dropped.
use hugen.Prelude.{
  ℕ, suc, ◌≡◌, refl, subst, ◌∙◌, inl, inr, Bool, true, false, not, ◌||◌, Option, none, some, List,
  [], ◌∷◌, arith, if◌then◌else◌, Bool-cases, All, Result, ok, fail, ◌>>=◌,
}
use hugen.Prelude.Text.{Text, text_eq, trim_space}
use hugen.Mission.Criteria.{
  Criteria, apply_status_only, check_status_only, check_ids, status_result,
}
use hugen.Mission.Criteria.Checks.{unit-cases}
use hugen.Mission.Criteria.Rows.{is_dropped}
use hugen.Mission.Criteria.Types.{
  Status, unset, unsatisfied, satisfied, dropped, other, Criterion, UpdateSpec, AcError,
  is_contract_change, checker_status,
}
use hugen.Mission.Criteria.Update.{
  evidence_of, set_status, new_statement, write_row, update_row, update_first, apply_update,
  apply_updates, keep_tail, keep_head, go_on,
}

-- The same row of the contract, not dropped where it was not.
abbrev pub SameRow : Criterion → Criterion → Type 0
SameRow r r' =
    (r'.id ≡ r.id)
    × (r'.statement ≡ r.statement)
    × ((not (is_dropped r'.status) || is_dropped r.status) ≡ true)

abbrev pub SameContract : List Criterion → List Criterion → Type 0
SameContract [] [] = Unit
SameContract [] (r' ∷ rs') = true ≡ false
SameContract (r ∷ rs) [] = true ≡ false
SameContract (r ∷ rs) (r' ∷ rs') = SameRow r r' × SameContract rs rs'

either : (b : Bool) → (not b || b) ≡ true
either true = refl
either false = refl

SameRow-refl : (r : Criterion) → SameRow r r
SameRow-refl r = (refl, refl, either (is_dropped r.status))

pub SameContract-refl : (rs : List Criterion) → SameContract rs rs
SameContract-refl [] = tt
SameContract-refl (r ∷ rs) = (SameRow-refl r, SameContract-refl rs)

or_trans : (a b c : Bool) → (not b || a) ≡ true → (not c || b) ≡ true → (not c || a) ≡ true
or_trans true true true h k = refl
or_trans true true false h k = refl
or_trans true false true h k = refl
or_trans true false false h k = refl
or_trans false true c h k = cc
or_trans false false true h k = cc
or_trans false false false h k = refl

SameContract-trans :
    (a b c : List Criterion) → SameContract a b → SameContract b c → SameContract a c
SameContract-trans [] [] c h k = k
SameContract-trans [] (y ∷ b) c h k = cc
SameContract-trans (x ∷ a) [] c h k = cc
SameContract-trans (x ∷ a) (y ∷ b) [] h k = k
SameContract-trans (x ∷ a) (y ∷ b) (z ∷ c) h k = (
  (
    k.0.0 ∙ h.0.0,
    k.0.1 ∙ h.0.1,
    or_trans (is_dropped x.status) (is_dropped y.status) (is_dropped z.status) h.0.2 k.0.2,
  ),
  SameContract-trans a b c h.1 k.1,
)

-- An update that the check of status reports lets through.
abbrev StatusOnly : UpdateSpec → Type 0
StatusOnly u = (is_contract_change u ≡ false) × (is_dropped u.status ≡ false)

wire_status : (i : ℕ) (s : Status) → checker_status i s ≡ ok tt → is_dropped s ≡ false
unfolding checker_status
wire_status i unset h = refl
wire_status i unsatisfied h = refl
wire_status i satisfied h = refl
wire_status i dropped h = cc
wire_status i (other x) h = refl

check-StatusOnly :
    (i : ℕ) (us : List UpdateSpec) → check_status_only i us ≡ ok tt → All StatusOnly us
unfolding check_status_only
check-StatusOnly i [] h = tt
check-StatusOnly i (u ∷ us) h = elim (Bool-cases (is_contract_change u)) [
  | inl e ↦ (let k = rw e at h in cc)
  | inr e ↦
      (let k : (checker_status i u.status >>= λ x. check_status_only (suc i) us) ≡ ok tt =
          rw e at h in
        elim (unit-cases (checker_status i u.status)) [
          | inl f ↦ ((e, wire_status i u.status f), check-StatusOnly (suc i) us (rw f at k))
          | inr (x, f) ↦ (let j = rw f at k in cc)
        ])
]

status-kept :
    (s : Status) (iter : ℕ) (row : Criterion)
    → is_dropped s ≡ false
    → SameRow row (set_status s iter row)
unfolding set_status
status-kept unset iter row h = SameRow-refl row
status-kept unsatisfied iter row h = (refl, refl, refl)
status-kept satisfied iter row h = (refl, refl, refl)
status-kept dropped iter row h = cc
status-kept (other x) iter row h = (refl, refl, refl)

evidence-kept :
    (u : UpdateSpec) (source : Text) (row row' : Criterion)
    → SameRow row row'
    → SameRow row (evidence_of u source row')
unfolding evidence_of
evidence-kept u source row row' h =
    let own = trim_space u.evidence in
    elim (Bool-cases (text_eq (if text_eq own [] then source else own) [])) [
      | inl e ↦ rw e h
      | inr e ↦ rw e h
    ]

no_statement : (u : UpdateSpec) → is_contract_change u ≡ false → text_eq u.statement [] ≡ true
unfolding is_contract_change
no_statement u h = ground arith

no_drop : (u : UpdateSpec) → is_contract_change u ≡ false → u.drop ≡ false
unfolding is_contract_change
no_drop u h = ground arith

update_row-kept :
    (u : UpdateSpec) (iter : ℕ) (source : Text) (row row' : Criterion)
    → StatusOnly u
    → update_row u iter source row ≡ ok row'
    → SameRow row row'
unfolding update_row write_row new_statement
update_row-kept u iter source row row' h e =
    let p = no_statement u h.0 in
    let d = no_drop u h.0 in
    let k : ok (evidence_of u source (set_status u.status iter row)) ≡ ok row' = rw (p, d) at e in
    let j : evidence_of u source (set_status u.status iter row) ≡ row' = cc in
    subst (SameRow row) j (
      evidence-kept u source row (set_status u.status iter row) (status-kept u.status iter row h.1))

update_first-kept :
    (u : UpdateSpec) (iter : ℕ) (source id : Text) (rows rows' : List Criterion)
    → StatusOnly u
    → update_first id (update_row u iter source) rows ≡ ok rows'
    → SameContract rows rows'
unfolding update_first
update_first-kept u iter source id [] rows' h e = cc
update_first-kept u iter source id (row ∷ rows) rows' h e = elim (Bool-cases (text_eq row.id id)) [
  | inl f ↦ head (update_row u iter source row) refl (rw f at e)
  | inr f ↦
      tail (update_first id (update_row u iter source) rows)
        (λ x q. update_first-kept u iter source id rows x h q) (rw f at e)
]
  where
    head :
        (r : Result AcError Criterion)
        → update_row u iter source row ≡ r
        → keep_tail rows r ≡ ok rows'
        → SameContract (row ∷ rows) rows'
    head (fail x) q k = cc
    head (ok x) q k =
        (let j : x ∷ rows ≡ rows' = cc in
          subst (SameContract (row ∷ rows)) j
            (update_row-kept u iter source row x h q, SameContract-refl rows))

    tail :
        (r : Result AcError (List Criterion))
        → ((x : List Criterion) → r ≡ ok x → SameContract rows x)
        → keep_head row r ≡ ok rows'
        → SameContract (row ∷ rows) rows'
    tail (fail x) q k = cc
    tail (ok x) q k =
        (let j : row ∷ x ≡ rows' = cc in
          subst (SameContract (row ∷ rows)) j (SameRow-refl row, q x refl))

apply_update-kept :
    (u : UpdateSpec) (iter : ℕ) (source : Text) (rows rows' : List Criterion)
    → StatusOnly u
    → apply_update u iter source rows ≡ ok rows'
    → SameContract rows rows'
unfolding apply_update
apply_update-kept u iter source rows rows' h e = elim (Bool-cases (text_eq (trim_space u.id) [])) [
  | inl f ↦ (let k = rw f at e in cc)
  | inr f ↦ update_first-kept u iter source (trim_space u.id) rows rows' h (rw f at e)
]

apply_updates-kept :
    (us : List UpdateSpec) (iter : ℕ) (source : Text) (rows : List Criterion)
    → All StatusOnly us
    → SameContract rows (apply_updates us iter source rows).0
unfolding apply_updates
apply_updates-kept [] iter source rows h = SameContract-refl rows
apply_updates-kept (u ∷ us) iter source rows h =
    go (apply_update u iter source rows) refl (λ x. apply_updates-kept us iter source x h.1)
  where
    go :
        (r : Result AcError (List Criterion))
        → apply_update u iter source rows ≡ r
        → ((x : List Criterion) → SameContract x (apply_updates us iter source x).0)
        → SameContract rows (go_on rows r (apply_updates us iter source)).0
    go (fail x) q ih = SameContract-refl rows
    go (ok x) q ih =
        SameContract-trans rows x (apply_updates us iter source x).0
          (apply_update-kept u iter source rows x h.0 q) (ih x)

-- Status reports, whether they succeed or fail, add no criterion and drop none, and change no statement.
pub apply_status_only-SameContract :
    (s : Criteria) (us : List UpdateSpec) (iter : ℕ) (source : Text)
    → SameContract s.ac ((apply_status_only s us iter source).0).ac
unfolding apply_status_only status_result
apply_status_only-SameContract s us iter source = elim (unit-cases (check_status_only 0 us)) [
  | inr (x, e) ↦ simp (e, apply_status_only) (SameContract-refl s.ac)
  | inl e ↦ elim (unit-cases (check_ids 0 s.ac us)) [
    | inr (x, f) ↦ simp (e, f, apply_status_only) (SameContract-refl s.ac)
    | inl f ↦
        simp (e, f, apply_status_only)
          (go (apply_updates us iter source s.ac)
            (apply_updates-kept us iter source s.ac (check-StatusOnly 0 us e)))
  ]
]
  where
    go :
        (r : List Criterion × Option AcError)
        → SameContract s.ac r.0
        → SameContract s.ac ((status_result s r).0).ac
    go (rows, none) h = h
    go (rows, some x) h = h
