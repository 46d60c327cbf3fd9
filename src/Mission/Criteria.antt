-- ===== src/Mission/Criteria.antt =====
-- The mission's acceptance criteria: pkg/extension/mission/state_ac.go. The record holds the fields
-- `ac`, `nextACID` and `pendingDiff` of `MissionState`, which no other file of the package writes.
-- A nil and an empty slice are one list.
pub mod Types
pub mod Update
pub mod Numbers
pub mod Rows
pub mod Checks
pub mod Ids
pub mod Done
mod Tests
use mathlib.Core.List.{map}
use hugen.Prelude.{
  ℕ, zero, suc, ◌+◌, Bool, true, false, not, ◌&&◌, ◌||◌, Option, none, some, List, [], ◌∷◌, ◌++◌,
  length, any, ltb, ◌==◌, if◌then◌else◌, Result, ok, fail, ◌>>=◌,
}
use hugen.Prelude.Text.{Text, codes, text_eq, trim_space}
use Update.{apply_updates}
use Types.{
  Status, unset, unsatisfied, satisfied, dropped, other, Criterion, AddSpec, UpdateSpec, Diff,
  AcError, empty_id, unknown_id, vanished, blank_statement, contract_change, no_status, itoa,
  planner_prefix, origin_user_refine, is_unset, is_blank, is_contract_change, is_empty, guard,
  validate_planner_diff, checker_status,
}

pub record Staged : Type 0 where
  pub diff : Diff
  pub iter : ℕ
  pub origin : Text
  pub reason : Text

pub record Criteria : Type 0 where
  pub ac : List Criterion
  pub next_ac_id : ℕ
  pub pending : Option Staged

abbrev pub no_criteria : Criteria
no_criteria = record { ac = []; next_ac_id = 0; pending = none }

unfoldable pub ac_id : ℕ → Text
ac_id n = codes "ac-" ++ itoa n

-- The row that a new statement becomes, under the next number.
unfoldable pub mint : Criteria → Text → Text → ℕ → Criteria
mint s statement origin iter = record s {
  next_ac_id = suc s.next_ac_id;
  ac =
      s.ac
      ++ (record {
        id = ac_id (suc s.next_ac_id);
        statement = statement;
        origin = origin;
        status = unsatisfied;
        added_at_iter = iter;
        satisfied_at_iter = 0;
        dropped_at_iter = 0;
        last_evidence = [];
        drop_reason = [];
      })
        ∷ [];
}

-- An entry whose statement is blank mints nothing and reports the empty id.
unfoldable pub mint_trimmed : Criteria → Text → Text → ℕ → Criteria × Text
mint_trimmed s statement origin iter =
    let stmt = trim_space statement in
    if text_eq stmt [] then (s, []) else (mint s stmt origin iter, ac_id (suc s.next_ac_id))

pub seed_ac : Criteria → List AddSpec → Text → Criteria × List Text
seed_ac s [] origin = (s, [])
seed_ac s (item ∷ items) origin =
    let (s', id) = mint_trimmed s item.statement origin 0 in
    let (s'', ids) = seed_ac s' items origin in (s'', id ∷ ids)

-- The loop of `findIDLocked`, on the trimmed id.
unfoldable pub find_row : Text → List Criterion → Bool
find_row id [] = false
find_row id (row ∷ rows) = text_eq row.id id || find_row id rows

unfoldable pub find_id : List Criterion → Text → Bool
unfolding find_row
find_id rows id =
    let trimmed = trim_space id in if text_eq trimmed [] then false else find_row trimmed rows

unfoldable pub check_ids : ℕ → List Criterion → List UpdateSpec → Result AcError (Unit {0})
check_ids i rows [] = ok tt
check_ids i rows (u ∷ us) =
    if is_blank u.id
    then fail (empty_id i)
    else if find_id rows u.id
    then check_ids (suc i) rows us
    else fail (unknown_id i)

unfoldable pub stage_planner_diff : Criteria → Diff → ℕ → Text → Text → Result AcError Criteria
unfolding check_ids
stage_planner_diff s diff iter origin reason = validate_planner_diff diff >>= λ _.
    (check_ids 0 s.ac diff.update >>= λ _. ok (record s {
      pending =
          some (record { diff = diff; iter = iter; origin = origin; reason = trim_space reason });
    }))

-- `PendingDiff` and `PendingDiffReason`
unfoldable pub pending_diff : Criteria → Option Diff
pending_diff s = elim s.pending [ none ↦ none | some p ↦ some p.diff ]

pub pending_diff_reason : Criteria → Text
pending_diff_reason s = elim s.pending [ none ↦ [] | some p ↦ p.reason ]

unfoldable pub discard_staged_diff : Criteria → Criteria × Option Diff
unfolding pending_diff
discard_staged_diff s = (record s { pending = none }, pending_diff s)

abbrev pub origin_or : Text → AddSpec → Text
origin_or origin a = let own = trim_space a.origin in if text_eq own [] then origin else own

-- The loop over `combined.Add`; an entry of the staged diff takes its origin, one of the refinement
-- `user_refine`.
unfoldable pub add_all : Text → ℕ → Criteria → List AddSpec → Criteria × List Text
add_all origin iter s [] = (s, [])
add_all origin iter s (a ∷ as') =
    let (s', id) = mint_trimmed s a.statement (origin_or origin a) iter in
    let (s'', ids) = add_all origin iter s' as' in (s'', id ∷ ids)

abbrev pub no_staged : Staged
no_staged = record {
  diff = record { add = []; update = [] };
  iter = 0;
  origin = origin_user_refine;
  reason = [];
}

abbrev pub staged_or : Option Staged → Staged
staged_or none = no_staged
staged_or (some p) = p

unfoldable pub finish :
    Criteria × List Text → List Criterion × Option AcError → Criteria × Result AcError (List Text)
finish (s, added) (rows, none) = (record s { ac = rows; pending = none }, ok added)
finish (s, added) (rows, some e) = (record s { ac = rows }, fail e)

-- Behind the checks: what has been added and updated before an update fails stays.
unfoldable pub commit_combined : Criteria → Staged → Diff → Criteria × Result AcError (List Text)
unfolding finish
commit_combined s p extra =
    let (s1, ids1) = add_all p.origin p.iter s p.diff.add in
    let (s2, ids2) = add_all origin_user_refine p.iter s1 extra.add in
    finish (s2, ids1 ++ ids2)
      (apply_updates (p.diff.update ++ extra.update) p.iter (planner_prefix ++ itoa p.iter) s2.ac)

unfoldable pub is_none : Option Staged → Bool
is_none none = true
is_none (some p) = false

unfoldable pub commit_staged_diff : Criteria → Diff → Criteria × Result AcError (List Text)
unfolding commit_combined is_none
commit_staged_diff s extra =
    let p = staged_or s.pending in
    elim (validate_planner_diff extra) [
      | fail e ↦ (s, fail e)
      | ok _ ↦
          if is_none s.pending && is_empty extra
          then (s, ok [])
          else elim (check_ids 0 s.ac (p.diff.update ++ extra.update)) [
            | fail e ↦ (s, fail e)
            | ok _ ↦ commit_combined s p extra
          ]
    ]

unfoldable pub check_status_only : ℕ → List UpdateSpec → Result AcError (Unit {0})
check_status_only i [] = ok tt
check_status_only i (u ∷ us) =
    if is_contract_change u
    then fail (contract_change i)
    else checker_status i u.status >>= λ _. check_status_only (suc i) us

unfoldable pub status_result :
    Criteria → List Criterion × Option AcError → Criteria × Result AcError (Unit {0})
status_result s (rows, none) = (record s { ac = rows }, ok tt)
status_result s (rows, some e) = (record s { ac = rows }, fail e)

unfoldable pub apply_status_only :
    Criteria → List UpdateSpec → ℕ → Text → Criteria × Result AcError (Unit {0})
unfolding check_status_only status_result
apply_status_only s updates iter source =
    elim (check_status_only 0 updates >>= λ _. check_ids 0 s.ac updates) [
      | fail e ↦ (s, fail e)
      | ok _ ↦ status_result s (apply_updates updates iter source s.ac)
    ]

abbrev pub or_unknown : Text → Text
or_unknown s = let t = trim_space s in if text_eq t [] then codes "?" else t

-- `row.Status == ACSatisfied || row.Status == ACDropped`
abbrev pub is_settled : Status → Bool
is_settled satisfied = true
is_settled dropped = true
is_settled unset = false
is_settled unsatisfied = false
is_settled (other x) = false

pub satisfy_row : ℕ → Text → Text → Criterion → Criterion
satisfy_row iter role wave row = if is_settled row.status then row else record row {
  status = satisfied;
  satisfied_at_iter = iter;
  last_evidence =
      codes "worker "
      ++ (or_unknown role
          ++ (codes " handoff iter-" ++ (itoa iter ++ (codes " wave-" ++ or_unknown wave))));
}

-- The row with the id, if there is one, after `f`.
pub change_first : Text → (Criterion → Criterion) → List Criterion → List Criterion
change_first id f [] = []
change_first id f (row ∷ rows) =
    if text_eq row.id id then f row ∷ rows else row ∷ change_first id f rows

abbrev with_applied : Text → Criteria × List Text × List Text → Criteria × List Text × List Text
with_applied id r = (r.0, id ∷ r.1, r.2)

abbrev with_unknown : Text → Criteria × List Text × List Text → Criteria × List Text × List Text
with_unknown id r = (r.0, r.1, id ∷ r.2)

pub apply_worker_satisfies :
    Criteria → List Text → ℕ → Text → Text → Criteria × List Text × List Text
unfolding satisfy_row
apply_worker_satisfies s [] iter role wave = (s, [], [])
apply_worker_satisfies s (id ∷ ids) iter role wave =
    let rows = change_first (trim_space id) (satisfy_row iter role wave) s.ac in
    if find_id s.ac id
    then with_applied id (apply_worker_satisfies (record s { ac = rows }) ids iter role wave)
    else with_unknown id (apply_worker_satisfies s ids iter role wave)

-- `row.Status == ACUnsatisfied`
abbrev pub is_unsatisfied : Status → Bool
is_unsatisfied unsatisfied = true
is_unsatisfied satisfied = false
is_unsatisfied dropped = false
is_unsatisfied unset = false
is_unsatisfied (other x) = false

pub has_unsatisfied_ac : Criteria → Bool
has_unsatisfied_ac s = any (λ (row : Criterion). is_unsatisfied row.status) s.ac

pub unsatisfied_rows : List Criterion → List Criterion
unsatisfied_rows [] = []
unsatisfied_rows (row ∷ rows) =
    if is_unsatisfied row.status then row ∷ unsatisfied_rows rows else unsatisfied_rows rows

pub unsatisfied_ac : Criteria → List Criterion
unsatisfied_ac s = unsatisfied_rows s.ac
