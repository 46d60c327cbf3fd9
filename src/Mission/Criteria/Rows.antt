-- ===== src/Mission/Criteria/Rows.antt =====
-- What updates do to the rows: the ids stay, and sound rows stay sound.
use hugen.Prelude.{
  ℕ, ◌≡◌, refl, ap₂, subst, ◌∙◌, inl, inr, Bool, true, false, Option, none, some, List, [], ◌∷◌,
  map, arith, Result, ok, fail, if◌then◌else◌, All, Bool-cases,
}
use hugen.Prelude.Text.{Text, text_eq, trim_space}
use hugen.Mission.Criteria.Types.{
  Status, unset, unsatisfied, satisfied, dropped, other, Criterion, UpdateSpec, AcError, is_blank,
}
use hugen.Mission.Criteria.{is_settled, change_first, satisfy_row}
use hugen.Mission.Criteria.Update.{
  write_row, set_status, drop_row, evidence_of, new_statement, update_row, update_first,
  apply_update, apply_updates, go_on, keep_tail, keep_head,
}

abbrev pub is_dropped : Status → Bool
is_dropped dropped = true
is_dropped unset = false
is_dropped unsatisfied = false
is_dropped satisfied = false
is_dropped (other x) = false

abbrev pub IsKnown : Status → Type 0
IsKnown unsatisfied = Unit
IsKnown satisfied = Unit
IsKnown dropped = Unit
IsKnown unset = ⊥
IsKnown (other x) = ⊥

-- A row is unsatisfied, satisfied, or dropped for a reason.
pub record IsSound (row : Criterion) : Type 0 where
  pub known : IsKnown row.status
  pub reasoned : is_dropped row.status ≡ true → text_eq row.drop_reason [] ≡ false

-- A status that an update may carry.
abbrev pub IsWire : Status → Type 0
IsWire unset = Unit
IsWire unsatisfied = Unit
IsWire satisfied = Unit
IsWire dropped = ⊥
IsWire (other x) = ⊥

pub record IsValid (u : UpdateSpec) : Type 0 where
  pub wire : IsWire u.status
  pub justified : u.drop ≡ true → is_blank u.drop_reason ≡ false

abbrev pub ids : List Criterion → List Text
ids = map (λ (row : Criterion). row.id)

-- The ids are the same, and if all rows were sound they still are.
abbrev pub Keeps : List Criterion → List Criterion → Type 0
Keeps rows rows' = (ids rows' ≡ ids rows) × (All IsSound rows → All IsSound rows')

abbrev KeepsRow : Criterion → Criterion → Type 0
KeepsRow row row' = (row'.id ≡ row.id) × (IsSound row → IsSound row')

set_status-IsSound :
    (st : Status) (iter : ℕ) (row : Criterion)
    → IsWire st
    → IsSound row
    → IsSound (set_status st iter row)
unfolding set_status
set_status-IsSound unset iter row w h = h
set_status-IsSound unsatisfied iter row w h = record { known = tt; reasoned = λ e. cc }
set_status-IsSound satisfied iter row w h = record { known = tt; reasoned = λ e. cc }
set_status-IsSound dropped iter row w h = absurd w
set_status-IsSound (other x) iter row w h = absurd w

drop_row-IsSound :
    (u : UpdateSpec) (iter : ℕ) (row : Criterion)
    → is_blank u.drop_reason ≡ false
    → IsSound (drop_row u iter row)
unfolding drop_row is_blank
drop_row-IsSound u iter row b = record { known = tt; reasoned = λ e. b }

IsSound-if : (b : Bool) (x y : Criterion) → IsSound x → IsSound y → IsSound (if b then x else y)
IsSound-if true x y hx hy = hx
IsSound-if false x y hx hy = hy

evidence_of-IsSound :
    (u : UpdateSpec) (source : Text) (row : Criterion)
    → IsSound row
    → IsSound (evidence_of u source row)
unfolding evidence_of
evidence_of-IsSound u source row h =
    let own = trim_space u.evidence in
    let evidence = if text_eq own [] then source else own in
    IsSound-if (text_eq evidence []) row (record row { last_evidence = evidence }) h
      (record { known = h.known; reasoned = h.reasoned })

written-IsSound :
    (u : UpdateSpec) (iter : ℕ) (source : Text) (row : Criterion)
    → IsValid u
    → IsSound row
    → IsSound (
        if u.drop then drop_row u iter row else evidence_of u source (set_status u.status iter row))
written-IsSound u iter source row v h = elim (Bool-cases u.drop) [
  | inl d ↦ simp d (drop_row-IsSound u iter row (v.justified d))
  | inr d ↦ simp d (evidence_of-IsSound u source _ (set_status-IsSound u.status iter row v.wire h))
]

write_row-IsSound :
    (u : UpdateSpec) (iter : ℕ) (source : Text) (row : Criterion) (o : Option Text)
    (row' : Criterion)
    → IsValid u
    → write_row u iter source row o ≡ ok row'
    → IsSound row
    → IsSound row'
unfolding write_row
write_row-IsSound u iter source row none row' v e h = cc
write_row-IsSound u iter source row (some stmt) row' v e h =
    let row1 : Criterion = record row { statement = stmt } in
    let p : (if u.drop
          then drop_row u iter row1
          else evidence_of u source (set_status u.status iter row1))
        ≡ row' =
      cc in
    subst IsSound p
      (written-IsSound u iter source row1 v (record { known = h.known; reasoned = h.reasoned }))

id-update_row :
    (u : UpdateSpec) (iter : ℕ) (source : Text) (row row' : Criterion)
    → update_row u iter source row ≡ ok row'
    → row'.id ≡ row.id
unfolding update_row
id-update_row u iter source row row' e = ground arith

update_row-Keeps :
    (u : UpdateSpec) (iter : ℕ) (source : Text) (row row' : Criterion)
    → IsValid u
    → update_row u iter source row ≡ ok row'
    → KeepsRow row row'
update_row-Keeps u iter source row row' v e = (
  id-update_row u iter source row row' e,
  write_row-IsSound u iter source row (new_statement u row) row' v (unfold update_row in e),
)

pub satisfy_row-Keeps :
    (iter : ℕ) (role wave : Text) (row : Criterion) → KeepsRow row (satisfy_row iter role wave row)
unfolding satisfy_row
satisfy_row-Keeps iter role wave row = (
  ground arith,
  λ h. IsSound-if (is_settled row.status) row _ h (record { known = tt; reasoned = λ e. cc }),
)

-- The two lists begin with such rows, and what follows keeps.
Keeps-cons :
    (row row' : Criterion) (rows rows' : List Criterion)
    → KeepsRow row row'
    → Keeps rows rows'
    → Keeps (row ∷ rows) (row' ∷ rows')
Keeps-cons row row' rows rows' k ks = (ap₂ (λ x xs. x ∷ xs) k.0 ks.0, λ h. (k.1 h.0, ks.1 h.1))

Keeps-refl : (rows : List Criterion) → Keeps rows rows
Keeps-refl rows = (refl, λ h. h)

pub Keeps-trans : (a b c : List Criterion) → Keeps a b → Keeps b c → Keeps a c
Keeps-trans a b c k l = (l.0 ∙ k.0, λ h. l.1 (k.1 h))

update_first-Keeps :
    (id : Text) (u : UpdateSpec) (iter : ℕ) (source : Text) (rows rows' : List Criterion)
    → IsValid u
    → update_first id (update_row u iter source) rows ≡ ok rows'
    → Keeps rows rows'
unfolding update_first
update_first-Keeps id u iter source [] rows' v e = cc
update_first-Keeps id u iter source (row ∷ rows) rows' v e = elim (Bool-cases (text_eq row.id id)) [
  | inl t ↦ tail_keeps (update_row u iter source row) refl (simp t at e)
  | inr t ↦
      head_keeps (update_first id (update_row u iter source) rows) refl
        (λ rest. update_first-Keeps id u iter source rows rest v) (simp t at e)
]
  where
    tail_keeps :
        (r : Result AcError Criterion)
        → update_row u iter source row ≡ r
        → keep_tail rows r ≡ ok rows'
        → Keeps (row ∷ rows) rows'
    tail_keeps (ok row') p q =
        let s : row' ∷ rows ≡ rows' = cc in
        subst (Keeps (row ∷ rows)) s (
          Keeps-cons row row' rows rows (update_row-Keeps u iter source row row' v p)
            (Keeps-refl rows))
    tail_keeps (fail x) p q = cc

    head_keeps :
        (r : Result AcError (List Criterion))
        → update_first id (update_row u iter source) rows ≡ r
        → ((rest : List Criterion)
            → update_first id (update_row u iter source) rows ≡ ok rest
            → Keeps rows rest)
        → keep_head row r ≡ ok rows'
        → Keeps (row ∷ rows) rows'
    head_keeps (ok rest) p ih q =
        let s : row ∷ rest ≡ rows' = cc in
        subst (Keeps (row ∷ rows)) s (Keeps-cons row row rows rest (refl, λ h. h) (ih rest p))
    head_keeps (fail x) p ih q = cc

apply_update-Keeps :
    (u : UpdateSpec) (iter : ℕ) (source : Text) (rows rows' : List Criterion)
    → IsValid u
    → apply_update u iter source rows ≡ ok rows'
    → Keeps rows rows'
unfolding apply_update
apply_update-Keeps u iter source rows rows' v e = elim (Bool-cases (text_eq (trim_space u.id) [])) [
  | inl t ↦ absurd (ground (arith, t))
  | inr t ↦ update_first-Keeps (trim_space u.id) u iter source rows rows' v (rw t at e)
]

-- Valid updates keep the rows, also where one of them fails and the rest are not applied.
pub apply_updates-Keeps :
    (us : List UpdateSpec) (iter : ℕ) (source : Text) (rows : List Criterion)
    → All IsValid us
    → Keeps rows (apply_updates us iter source rows).0
unfolding apply_updates
apply_updates-Keeps [] iter source rows v = Keeps-refl rows
apply_updates-Keeps (u ∷ us) iter source rows v =
    go (apply_update u iter source rows) refl
      (λ rows'. apply_updates-Keeps us iter source rows' v.1)
  where
    go :
        (r : Result AcError (List Criterion))
        → apply_update u iter source rows ≡ r
        → ((rows' : List Criterion) → Keeps rows' (apply_updates us iter source rows').0)
        → Keeps rows (go_on rows r (apply_updates us iter source)).0
    go (fail e) p rest = Keeps-refl rows
    go (ok rows') p rest =
        Keeps-trans rows rows' _ (apply_update-Keeps u iter source rows rows' v.0 p) (rest rows')

pub change_first-Keeps :
    (id : Text) (iter : ℕ) (role wave : Text) (rows : List Criterion)
    → Keeps rows (change_first id (satisfy_row iter role wave) rows)
unfolding change_first
change_first-Keeps id iter role wave [] = Keeps-refl []
change_first-Keeps id iter role wave (row ∷ rows) = elim (Bool-cases (text_eq row.id id)) [
  | inl t ↦
      simp t (Keeps-cons row _ rows rows (satisfy_row-Keeps iter role wave row) (Keeps-refl rows))
  | inr t ↦
      simp t (Keeps-cons row row rows _ (refl, λ h. h) (change_first-Keeps id iter role wave rows))
]
