-- ===== src/Mission/Approval/Tests.antt =====
-- A planner's submissions: one that the user denies, one that the user approves.
use hugen.Prelude.{◌≡◌, refl, Bool, true, false, some, List, [], ◌∷◌}
use hugen.Prelude.Text.{Text, codes}
use hugen.Mission.Criteria.{no_criteria}
use hugen.Mission.Criteria.Types.{Criterion, unsatisfied}
use hugen.Mission.Approval.{
  Plan, MissionState, no_submission, Inquiry, answered, decoded, interpret_response,
}
use hugen.Mission.Approval.Call.{gate_planner_finalize, call_validate_and_approve}
use hugen.Mission.Approval.Contract.{SameContract}
use hugen.Mission.Approval.Consent.{call_validate_and_approve-SameContract}
use hugen.Mission.Approval.Gate.{
  Event, spawns, submits, run, last_reply, answer_to, gate_planner_finalize-run,
}

abbrev criterion : Criterion
criterion = record {
  id = codes "ac-1";
  statement = codes "tests pass";
  origin = codes "user";
  status = unsatisfied;
  added_at_iter = 0;
  satisfied_at_iter = 0;
  dropped_at_iter = 0;
  last_evidence = [];
  drop_reason = [];
}

abbrev mission : MissionState
mission = record {
  criteria = record no_criteria { ac = criterion ∷ []; next_ac_id = 1 };
  iteration = 1;
  first_plan_approved = false;
  pending_reapproval = false;
  pending_reapproval_reason = [];
  submission = no_submission;
  auto_approve_tools = false;
  roadmap = [];
  hitl_waiting = [];
}

abbrev plan : Plan
plan = record {
  diff = record { add = record { statement = codes "docs"; origin = [] } ∷ []; update = [] };
  roadmap = [];
  requires_reapproval = false;
  reapproval_reason = [];
}

abbrev answer : Bool → Inquiry
answer approved = answered (record {
  timeout = false;
  approved = some approved;
  reason = [];
  response = [];
  auto_approve_tools = false;
})

abbrev lower : Text → Text
lower t = t

abbrev planner : Text
planner = codes "s1"

call_validate_and_approve-SameContract_example :
    SameContract
      (criterion ∷ [])
      (call_validate_and_approve lower true true planner
        (decoded (some plan))
        (answer false)
        mission).1.criteria.ac
unfolding interpret_response
call_validate_and_approve-SameContract_example =
    call_validate_and_approve-SameContract lower true planner (decoded (some plan)) (answer false)
      mission refl

abbrev events : List Event
events =
    submits true true planner (decoded (some plan)) (answer true)
    ∷ submits true true planner (decoded (some plan)) (answer false)
    ∷ spawns
    ∷ []

gate_planner_finalize-run_example :
    gate_planner_finalize planner (run lower events mission)
    ≡ answer_to planner (last_reply lower events mission)
gate_planner_finalize-run_example = gate_planner_finalize-run lower events mission planner refl
