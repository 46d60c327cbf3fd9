-- ===== src/Mission/Criteria/Tests.antt =====
-- The theorems on the acceptance criteria at concrete calls.
use hugen.Prelude.{ℕ, ◌≡◌, refl, true, false, some, List, [], ◌∷◌, All, ok, fail}
use hugen.Prelude.Text.{codes, text_eq, trim_space}
use hugen.Mission.Criteria.Types.{
  unset, unsatisfied, AddSpec, UpdateSpec, Diff, Criterion, blank_statement, itoa, digits_loop,
  validate_planner_diff, check_adds, planner_updates, planner_update, planner_status, is_blank,
  is_empty,
}
use hugen.Mission.Criteria.{
  Criteria, Staged, no_criteria, ac_id, mint, mint_trimmed, seed_ac, stage_planner_diff, check_ids,
  find_id, find_row, is_none, commit_combined, finish, apply_worker_satisfies, change_first,
  satisfy_row, has_unsatisfied_ac, commit_staged_diff, add_all,
}
use hugen.Mission.Criteria.Update.{
  apply_updates, apply_update, update_first, update_row, new_statement, write_row, drop_row,
}
use hugen.Mission.Criteria.Rows.{ids}
use hugen.Mission.Criteria.Numbers.{decimal, decimal-itoa}
use hugen.Mission.Criteria.Ids.{
  Call, seed, stage, commit, worker, step, run, IsGood, run-IsGood, no_criteria-IsGood,
}
use hugen.Mission.Criteria.Done.{
  IsClosed, has_unsatisfied_ac-IsClosed, distinct_ids, no_change, blank_statement_commit,
}

decimal-itoa_test : decimal 0 (itoa 2048) ≡ 2048
decimal-itoa_test = decimal-itoa 2048

abbrev asked : List AddSpec
asked =
    record { statement = codes "tests pass"; origin = [] }
    ∷ record { statement = codes " docs "; origin = [] }
    ∷ []

abbrev drop_two : Diff
drop_two = record {
  add = record { statement = codes "changelog"; origin = [] } ∷ [];
  update =
      (record {
        id = codes "ac-2";
        statement = [];
        drop = true;
        drop_reason = codes "no docs";
        status = unset;
        evidence = [];
      })
      ∷ [];
}

abbrev calls : List Call
calls =
    seed asked (codes "user")
    ∷ stage drop_two 1 (codes "planner_iter_1") []
    ∷ commit no_change
    ∷ worker (codes "ac-1" ∷ codes "ac-3" ∷ []) 2 (codes "coder") (codes "w")
    ∷ []

run-IsGood_example : IsGood (run no_criteria calls)
run-IsGood_example = run-IsGood no_criteria calls no_criteria-IsGood

abbrev finished : Criteria
finished = run no_criteria calls

finished_rows : ids finished.ac ≡ codes "ac-1" ∷ codes "ac-2" ∷ codes "ac-3" ∷ []
unfolding run step seed_ac mint_trimmed mint ac_id itoa digits_loop stage_planner_diff
    validate_planner_diff check_adds planner_updates planner_update planner_status is_blank
    check_ids find_id find_row commit_staged_diff is_none is_empty commit_combined add_all finish
    apply_updates apply_update update_first update_row new_statement write_row drop_row
    apply_worker_satisfies change_first satisfy_row has_unsatisfied_ac text_eq trim_space
finished_rows = refl

has_unsatisfied_ac-IsClosed_example : All IsClosed finished.ac
unfolding run step seed_ac mint_trimmed mint ac_id itoa digits_loop stage_planner_diff
    validate_planner_diff check_adds planner_updates planner_update planner_status is_blank
    check_ids find_id find_row commit_staged_diff is_none is_empty commit_combined add_all finish
    apply_updates apply_update update_first update_row new_statement write_row drop_row
    apply_worker_satisfies change_first satisfy_row has_unsatisfied_ac text_eq trim_space
has_unsatisfied_ac-IsClosed_example =
    has_unsatisfied_ac-IsClosed finished (run-IsGood no_criteria calls no_criteria-IsGood) refl

abbrev first_row : Criterion
first_row = record {
  id = codes "ac-1";
  statement = codes "tests pass";
  origin = codes "user";
  status = unsatisfied;
  added_at_iter = 0;
  satisfied_at_iter = 0;
  dropped_at_iter = 0;
  last_evidence = [];
  drop_reason = [];
}

abbrev seeded : Criteria
seeded = run no_criteria (seed asked (codes "user") ∷ [])

distinct_ids_test : ◌≡◌ {A = ℕ} 0 0
unfolding run step seed_ac mint_trimmed mint ac_id itoa digits_loop stage_planner_diff
    validate_planner_diff check_adds planner_updates planner_update planner_status is_blank
    check_ids find_id find_row commit_staged_diff is_none is_empty commit_combined add_all finish
    apply_updates apply_update update_first update_row new_statement write_row drop_row
    apply_worker_satisfies change_first satisfy_row has_unsatisfied_ac text_eq trim_space
distinct_ids_test =
    distinct_ids seeded 0 0 first_row first_row
      (run-IsGood no_criteria (seed asked (codes "user") ∷ []) no_criteria-IsGood) refl refl refl

abbrev blank_update : UpdateSpec
blank_update = record {
  id = codes "ac-1";
  statement = codes " ";
  drop = false;
  drop_reason = [];
  status = unset;
  evidence = [];
}

abbrev blank_diff : Diff
blank_diff = record { add = asked; update = blank_update ∷ [] }

abbrev waiting : Staged
waiting = record { diff = blank_diff; iter = 1; origin = codes "planner_iter_1"; reason = [] }

-- The diff is staged, although its update cannot be committed.
blank_is_staged :
    stage_planner_diff seeded blank_diff 1 (codes "planner_iter_1") []
    ≡ ok (record seeded { pending = some waiting })
unfolding run step seed_ac mint_trimmed mint ac_id itoa digits_loop stage_planner_diff
    validate_planner_diff check_adds planner_updates planner_update planner_status is_blank
    check_ids find_id find_row commit_staged_diff is_none is_empty commit_combined add_all finish
    apply_updates apply_update update_first update_row new_statement write_row drop_row
    apply_worker_satisfies change_first satisfy_row has_unsatisfied_ac text_eq trim_space
blank_is_staged = refl

blank_statement_commit_example :
    ((commit_staged_diff (record seeded { pending = some waiting }) no_change).1
      ≡ fail blank_statement)
    × ((commit_staged_diff (record seeded { pending = some waiting }) no_change).0.pending
        ≡ some waiting)
    × ((commit_staged_diff (record seeded { pending = some waiting }) no_change).0.ac
        ≡ (add_all waiting.origin 1 (record seeded { pending = some waiting }) asked).0.ac)
unfolding run step seed_ac mint_trimmed mint ac_id itoa digits_loop find_id find_row is_blank
    text_eq trim_space
blank_statement_commit_example =
    blank_statement_commit (record seeded { pending = some waiting }) waiting blank_update refl refl
      refl refl refl
