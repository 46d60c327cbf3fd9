-- ===== src/Mission/Approval.antt =====
-- The planner's submission of a plan: mission:validate_and_approve of pkg/extension/mission/
-- tools_validate_and_approve.go, the gate of gate.go on a planner that ends its turn, and the fields of
-- state.go that they use. Behind the checks of the arguments; the decoding of the plan, the lower-casing and
-- the user's answer are arguments. A call is one step.
pub mod Call
pub mod Consent
pub mod Contract
pub mod Gate
mod Tests
use hugen.Prelude.{
  ℕ, Bool, true, false, not, ◌&&◌, ◌||◌, Option, none, some, List, [], ◌∷◌, ◌++◌, if◌then◌else◌,
  Result, ok, fail, ◌>>=◌, drop,
}
use hugen.Prelude.Text.{Text, codes, text_eq, trim_space, has_prefix}
use hugen.Prelude.Maps.{set, remove}
use hugen.Mission.Criteria.{
  Criteria, stage_planner_diff, discard_staged_diff, commit_staged_diff, apply_status_only,
}
use hugen.Mission.Criteria.Types.{
  Diff, UpdateSpec, AcError, contract_change, has_contract_change, is_empty, planner_origin_at,
}

-- The parts of a decoded `Plan` that the call reads.
pub record Plan : Type 0 where
  pub diff : Diff
  pub roadmap : List Text
  pub requires_reapproval : Bool
  pub reapproval_reason : Text

pub record ValidateResult : Type 0 where
  pub errors : List Text
  pub approved : Bool
  pub aborted : Bool
  pub refine_text : Text
  pub reason : Text

abbrev pub approved_result : Text → ValidateResult
approved_result reason = record {
  errors = [];
  approved = true;
  aborted = false;
  refine_text = [];
  reason = reason;
}

abbrev pub invalid_result : List Text → ValidateResult
invalid_result errors = record {
  errors = errors;
  approved = false;
  aborted = false;
  refine_text = [];
  reason = [];
}

pub record PlannerSubmission : Type 0 where
  pub session_id : Text
  pub called : Bool
  pub valid : Bool
  pub result : ValidateResult
  pub plan : Option Plan

abbrev pub no_submission : PlannerSubmission
no_submission = record {
  session_id = [];
  called = false;
  valid = false;
  result = invalid_result [];
  plan = none;
}

pub record MissionState : Type 0 where
  pub criteria : Criteria
  pub iteration : ℕ
  pub first_plan_approved : Bool
  pub pending_reapproval : Bool
  pub pending_reapproval_reason : Text
  pub submission : PlannerSubmission
  pub auto_approve_tools : Bool
  pub roadmap : List Text
  pub hitl_waiting : List (Text × Bool)

-- What the inquiry gave: an error, a nil response or a response.
pub record Response : Type 0 where
  pub timeout : Bool
  pub approved : Option Bool
  pub reason : Text
  pub response : Text
  pub auto_approve_tools : Bool

pub data Inquiry : Type 0 where
  inquire_broke no_response : Inquiry
  answered : Response → Inquiry

-- The JSON body as a plan: errors, `null` for a mission that is done, or a plan.
pub data Body : Type 0 where
  invalid : List Text → Body
  decoded : Option Plan → Body

pub data ToolReply : Type 0 where
  internal : AcError → ToolReply
  not_rendered inquire_failed : ToolReply
  replied : ValidateResult → ToolReply

unfoldable pub reset_planner_submission : MissionState → MissionState
reset_planner_submission m = record m { submission = no_submission }

unfoldable pub mark_plan_approved : MissionState → MissionState
mark_plan_approved m = record m {
  first_plan_approved = true;
  pending_reapproval = false;
  pending_reapproval_reason = [];
}

unfoldable pub request_reapproval : Text → MissionState → MissionState
request_reapproval reason m = record m {
  pending_reapproval = true;
  pending_reapproval_reason = trim_space reason;
}

abbrev pub no_errors : List Text → Bool
no_errors [] = true
no_errors (e ∷ es) = false

abbrev pub roadmap_or : List Text → Option Plan → List Text
roadmap_or old none = old
roadmap_or old (some plan) = plan.roadmap

unfoldable pub stage_and_emit :
    Text → Option Plan → ValidateResult → MissionState → ToolReply × MissionState
stage_and_emit id plan r m = (
  replied r,
  record m {
    submission = record {
      session_id = id;
      called = true;
      valid = no_errors r.errors;
      result = r;
      plan = plan;
    };
    roadmap = if r.approved then roadmap_or m.roadmap plan else m.roadmap;
  },
)

abbrev pub non_empty : Text → Bool
non_empty s = not (text_eq s [])

-- U+2014 in UTF-8.
abbrev pub em_dash : Text
em_dash = 0xe2 ∷ 0x80 ∷ 0x94 ∷ []

abbrev pub refine_prompt : Text
refine_prompt =
    codes "(user replied 'refine' without details "
    ++ (em_dash
        ++ codes " ask for specifics or restate your reading of the request before re-validating)")

abbrev pub refined : Text → ValidateResult
refined free =
    let body = trim_space (drop 6 free) in
    record (invalid_result []) {
      refine_text = if text_eq body [] then refine_prompt else body;
      reason = codes "refine";
    }

-- `interpretValidateApprovalResponse`
unfoldable pub interpret_free : (Text → Text) → Text → ValidateResult
interpret_free lower free =
    let low = lower free in
    let none_of = invalid_result [] in
    if text_eq free []
    then record none_of {
      aborted = true;
      reason = codes "user reply was empty " ++ (em_dash ++ codes " treating as abort");
    }
    else if has_prefix low (codes "approve")
    then approved_result (trim_space (drop 7 free))
    else if has_prefix low (codes "abort")
    then record none_of { aborted = true; reason = trim_space (drop 5 free) }
    else if has_prefix low (codes "refine")
    then refined free
    else record none_of { refine_text = free; reason = codes "free-form user reply" }

unfoldable pub interpret_response : (Text → Text) → Response → ValidateResult
unfolding interpret_free
interpret_response lower resp =
    let none_of = invalid_result [] in
    let reason = trim_space resp.reason in
    if resp.timeout
    then record none_of { reason = codes "approval inquire timed out" }
    else elim resp.approved [
      | none ↦ interpret_free lower (trim_space resp.response)
      | some answer ↦ if answer then approved_result reason else record none_of {
        aborted = true;
        reason =
            if text_eq reason [] then codes "user denied approval without a reason" else reason;
      }
    ]

unfoldable pub should_open_approval_modal : MissionState → Plan → Bool
should_open_approval_modal m plan =
    not m.first_plan_approved
    || (m.pending_reapproval || (plan.requires_reapproval || has_contract_change plan.diff))
