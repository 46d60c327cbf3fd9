-- ===== src/Mission/Criteria/Update.antt =====
-- The updates of criteria rows: `applyUpdateLocked` of pkg/extension/mission/state_ac.go and the loop
-- over the updates of a diff.
use hugen.Prelude.{
  ℕ, ◌==◌, Option, none, some, List, [], ◌∷◌, ◌++◌, if◌then◌else◌, Result, ok, fail, ◌>>=◌,
}
use hugen.Prelude.Text.{Text, codes, text_eq, trim_space}
use hugen.Mission.Criteria.Types.{
  Status, unset, unsatisfied, satisfied, dropped, other, Criterion, UpdateSpec, AcError, vanished,
  blank_statement,
}

unfoldable pub evidence_of : UpdateSpec → Text → Criterion → Criterion
evidence_of u source row =
    let own = trim_space u.evidence in
    let evidence = if text_eq own [] then source else own in
    if text_eq evidence [] then row else record row { last_evidence = evidence }

unfoldable pub set_status : Status → ℕ → Criterion → Criterion
set_status unset iter row = row
set_status satisfied iter row = record row {
  status = satisfied;
  satisfied_at_iter = if row.satisfied_at_iter == 0 then iter else row.satisfied_at_iter;
}
set_status unsatisfied iter row = record row { status = unsatisfied }
set_status dropped iter row = record row { status = dropped }
set_status (other x) iter row = record row { status = other x }

unfoldable pub drop_row : UpdateSpec → ℕ → Criterion → Criterion
drop_row u iter row = record row {
  status = dropped;
  dropped_at_iter = iter;
  drop_reason = trim_space u.drop_reason;
  last_evidence = codes "dropped: " ++ trim_space u.drop_reason;
}

-- The statement that the update writes; `none` where it is white space only.
unfoldable pub new_statement : UpdateSpec → Criterion → Option Text
new_statement u row =
    if text_eq u.statement []
    then some row.statement
    else let stmt = trim_space u.statement in if text_eq stmt [] then none else some stmt

unfoldable pub write_row :
    UpdateSpec → ℕ → Text → Criterion → Option Text → Result AcError Criterion
unfolding evidence_of set_status drop_row
write_row u iter source row none = fail blank_statement
write_row u iter source row (some stmt) =
    let row' = record row { statement = stmt } in
    ok (
      if u.drop then drop_row u iter row' else evidence_of u source (set_status u.status iter row'))

-- What `applyUpdateLocked` does to the row that it finds.
unfoldable pub update_row : UpdateSpec → ℕ → Text → Criterion → Result AcError Criterion
unfolding write_row new_statement
update_row u iter source row = write_row u iter source row (new_statement u row)

abbrev pub keep_tail : List Criterion → Result AcError Criterion → Result AcError (List Criterion)
keep_tail rows r = r >>= λ row. ok (row ∷ rows)

abbrev pub keep_head : Criterion → Result AcError (List Criterion) → Result AcError (List Criterion)
keep_head row r = r >>= λ rows. ok (row ∷ rows)

unfoldable pub update_first :
    Text → (Criterion → Result AcError Criterion) → List Criterion → Result AcError (List Criterion)
update_first id f [] = fail vanished
update_first id f (row ∷ rows) =
    if text_eq row.id id then keep_tail rows (f row) else keep_head row (update_first id f rows)

unfoldable pub apply_update :
    UpdateSpec → ℕ → Text → List Criterion → Result AcError (List Criterion)
unfolding update_first update_row
apply_update u iter source rows =
    let id = trim_space u.id in
    if text_eq id [] then fail vanished else update_first id (update_row u iter source) rows

abbrev pub go_on :
    List Criterion
    → Result AcError (List Criterion)
    → (List Criterion → List Criterion × Option AcError)
    → List Criterion × Option AcError
go_on rows (fail e) next = (rows, some e)
go_on rows (ok rows') next = next rows'

-- The rows after the updates up to the first that fails, and its error.
unfoldable pub apply_updates :
    List UpdateSpec → ℕ → Text → List Criterion → List Criterion × Option AcError
apply_updates [] iter source rows = (rows, none)
apply_updates (u ∷ us) iter source rows =
    go_on rows (apply_update u iter source rows) (apply_updates us iter source)
