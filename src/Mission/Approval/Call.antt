-- ===== src/Mission/Approval/Call.antt =====
-- The call itself: `callValidateAndApprove`, its branches in the order of the source, and the gate.
use hugen.Prelude.{
  Bool, true, false, not, ◌&&◌, ◌||◌, Option, none, some, List, [], ◌∷◌, ◌++◌, if◌then◌else◌,
  Result, ok, fail,
}
use hugen.Prelude.Text.{Text, codes, text_eq, trim_space}
use hugen.Prelude.Maps.{set, remove}
use hugen.Mission.Criteria.{
  Criteria, stage_planner_diff, discard_staged_diff, commit_staged_diff, apply_status_only,
}
use hugen.Mission.Criteria.Types.{
  Diff, AcError, contract_change, has_contract_change, is_empty, planner_origin_at,
}
use hugen.Mission.Approval.{
  Body, Inquiry, MissionState, Plan, ToolReply, ValidateResult, answered, approved_result, decoded,
  em_dash, inquire_broke, inquire_failed, internal, interpret_response, invalid, invalid_result,
  mark_plan_approved, no_response, non_empty, not_rendered, should_open_approval_modal,
  stage_and_emit,
}

abbrev pub with_criteria : MissionState → Criteria → MissionState
with_criteria m c = record m { criteria = c }

abbrev pub no_diff : Diff
no_diff = record { add = []; update = [] }

-- What a step on the criteria leaves, and its error.
abbrev pub Applied : Type 0
Applied = Result AcError (Unit {0}) × Criteria

abbrev pub committed : Criteria × Result AcError (List Text) → Applied
committed (c, ok ids) = (ok tt, c)
committed (c, fail e) = (fail e, c)

unfoldable pub apply_plan_ac_for_policy_skip : MissionState → Plan → Applied
apply_plan_ac_for_policy_skip m plan =
    if is_empty plan.diff
    then (ok tt, m.criteria)
    else elim (stage_planner_diff m.criteria plan.diff m.iteration (planner_origin_at m.iteration)
        (codes "policy_skip " ++ (em_dash ++ codes " applied without modal"))) [
          | fail e ↦ (fail e, m.criteria)
          | ok c ↦ committed (commit_staged_diff c no_diff)
        ]

-- `applyPlanACSilent`; its own error for a contract change is `contract_change 0` here.
unfoldable pub apply_plan_ac_silent : MissionState → Plan → Applied
apply_plan_ac_silent m plan =
    if has_contract_change plan.diff
    then (fail (contract_change 0), m.criteria)
    else elim plan.diff.update [
      | [] ↦ (ok tt, m.criteria)
      | u ∷ us ↦
          let r =
            apply_status_only m.criteria (u ∷ us) m.iteration (planner_origin_at m.iteration) in
          (r.1, r.0)
    ]

unfoldable pub staged_reason : Plan → Text
staged_reason plan =
    let own = trim_space plan.reapproval_reason in
    if non_empty own
    then own
    else if has_contract_change plan.diff && not plan.requires_reapproval
    then codes "planner emitted contract diff (auto-promoted to re-approval)"
    else []

unfoldable pub stage_for_modal : MissionState → Plan → Result AcError Criteria
unfolding staged_reason
stage_for_modal m plan =
    if is_empty plan.diff
    then ok m.criteria
    else stage_planner_diff m.criteria plan.diff m.iteration (planner_origin_at m.iteration)
        (staged_reason plan)

abbrev pub discarded : MissionState → MissionState
discarded m = with_criteria m (discard_staged_diff m.criteria).0

unfoldable pub on_approved :
    Text → Plan → Bool → ValidateResult → MissionState → Applied → ToolReply × MissionState
unfolding mark_plan_approved stage_and_emit
on_approved id plan auto r m (fail e, c) = (internal e, with_criteria m c)
on_approved id plan auto r m (ok u, c) =
    stage_and_emit id (some plan) r
      (record (mark_plan_approved (with_criteria m c)) { auto_approve_tools = auto })

-- Behind the inquiry, the diff staged.
unfoldable pub settle :
    Text → Plan → Bool → ValidateResult → MissionState → ToolReply × MissionState
unfolding on_approved
settle id plan auto r m =
    if r.approved
    then on_approved id plan auto r m (committed (commit_staged_diff m.criteria no_diff))
    else stage_and_emit id none r (discarded m)

unfoldable pub on_inquiry :
    (Text → Text) → Text → Plan → Inquiry → MissionState → ToolReply × MissionState
unfolding settle interpret_response
on_inquiry lower id plan inquire_broke m = (inquire_failed, discarded m)
on_inquiry lower id plan no_response m = (inquire_failed, discarded m)
on_inquiry lower id plan (answered resp) m =
    settle id plan resp.auto_approve_tools (interpret_response lower resp) m

-- The state during the inquiry, the planner's wait for the human ended.
unfoldable pub while_asking : Text → MissionState → MissionState
unfolding set remove
while_asking id m = record m {
  auto_approve_tools = false;
  hitl_waiting = if text_eq id [] then m.hitl_waiting else remove id (set id true m.hitl_waiting);
}

unfoldable pub ask_user :
    (Text → Text) → Bool → Text → Plan → Inquiry → MissionState → ToolReply × MissionState
unfolding on_inquiry while_asking
ask_user lower rendered id plan inquiry m =
    if rendered
    then on_inquiry lower id plan inquiry (while_asking id m)
    else (not_rendered, discarded m)

unfoldable pub open_modal :
    (Text → Text)
    → Bool
    → Text
    → Plan
    → Inquiry
    → MissionState
    → Result AcError Criteria
    → ToolReply × MissionState
unfolding ask_user
open_modal lower rendered id plan inquiry m (fail e) = (internal e, m)
open_modal lower rendered id plan inquiry m (ok c) =
    ask_user lower rendered id plan inquiry (with_criteria m c)

-- An answer without the user: the criteria applied, the plan approved.
unfoldable pub approve_at_once :
    Text
    → Option Plan
    → (MissionState → MissionState)
    → MissionState
    → Applied
    → ToolReply × MissionState
unfolding stage_and_emit
approve_at_once id plan mark m (fail e, c) = (internal e, with_criteria m c)
approve_at_once id plan mark m (ok u, c) =
    stage_and_emit id plan (approved_result []) (mark (with_criteria m c))

unfoldable pub approve_unasked : Text → Option Plan → MissionState → ToolReply × MissionState
unfolding approve_at_once mark_plan_approved apply_plan_ac_for_policy_skip
approve_unasked id none m = approve_at_once id none mark_plan_approved m (ok tt, m.criteria)
approve_unasked id (some plan) m =
    approve_at_once id (some plan) mark_plan_approved m (apply_plan_ac_for_policy_skip m plan)

unfoldable pub approve_asking :
    (Text → Text) → Bool → Text → Inquiry → Option Plan → MissionState → ToolReply × MissionState
unfolding approve_at_once apply_plan_ac_silent open_modal stage_for_modal should_open_approval_modal
approve_asking lower rendered id inquiry none m =
    approve_at_once id none (λ x. x) m (ok tt, m.criteria)
approve_asking lower rendered id inquiry (some plan) m =
    if should_open_approval_modal m plan
    then open_modal lower rendered id plan inquiry m (stage_for_modal m plan)
    else approve_at_once id (some plan) (λ x. x) m (apply_plan_ac_silent m plan)

-- `callValidateAndApprove` of a planner's session, where `required` is approvalRequiredForIteration.
unfoldable pub call_validate_and_approve :
    (Text → Text) → Bool → Bool → Text → Body → Inquiry → MissionState → ToolReply × MissionState
unfolding approve_unasked approve_asking stage_and_emit
call_validate_and_approve lower required rendered id (invalid errs) inquiry m =
    stage_and_emit id none (invalid_result errs) m
call_validate_and_approve lower required rendered id (decoded plan) inquiry m =
    if required then approve_asking lower rendered id inquiry plan m else approve_unasked id plan m

-- The gate's answer to a planner that ends its turn, in the order of its cases.
pub data GateAnswer : Type 0 where
  retire planner_refine planner_invalid_plan planner_no_plan : GateAnswer

unfoldable pub gate_planner_finalize : Text → MissionState → GateAnswer
gate_planner_finalize id m =
    let sub = m.submission in
    if not (sub.called && text_eq sub.session_id id)
    then planner_no_plan
    else if sub.result.aborted || sub.result.approved
    then retire
    else if non_empty sub.result.refine_text
    then planner_refine
    else if not sub.valid
    then planner_invalid_plan
    else planner_no_plan
