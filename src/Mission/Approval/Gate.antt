-- ===== src/Mission/Approval/Gate.antt =====
-- The gate answers by the last submission that got a reply since the planner was spawned.
use hugen.Prelude.{
  ◌≡◌, refl, sym, subst, ◌∙◌, Bool, true, false, not, ◌||◌, Option, none, some, List, [], ◌∷◌,
  if◌then◌else◌, Result, ok, fail,
}
use hugen.Prelude.Text.{Text, text_eq}
use hugen.Mission.Criteria.{Criteria, commit_staged_diff}
use hugen.Mission.Criteria.Types.{AcError}
use hugen.Mission.Approval.{
  invalid_result, Plan, ValidateResult, MissionState, PlannerSubmission, Inquiry, inquire_broke,
  no_response, answered, Body, invalid, decoded, ToolReply, internal, not_rendered, inquire_failed,
  replied, no_errors, non_empty, reset_planner_submission, mark_plan_approved, stage_and_emit,
  interpret_response, should_open_approval_modal,
}
use hugen.Mission.Approval.Call.{
  while_asking, with_criteria, no_diff, Applied, committed, stage_for_modal, discarded, on_approved,
  settle, on_inquiry, ask_user, open_modal, approve_at_once, approve_asking, approve_unasked,
  call_validate_and_approve, apply_plan_ac_silent, apply_plan_ac_for_policy_skip, GateAnswer,
  retire, planner_refine, planner_invalid_plan, planner_no_plan, gate_planner_finalize,
}

-- What a planner's mission goes through: a new planner, and the calls of planners.
pub data Event : Type 0 where
  spawns : Event
  submits : Bool → Bool → Text → Body → Inquiry → Event

-- The events, the newest first.
pub run : (Text → Text) → List Event → MissionState → MissionState
run lower [] m = m
run lower (spawns ∷ older) m = reset_planner_submission (run lower older m)
run lower (submits required rendered id body inquiry ∷ older) m =
    (call_validate_and_approve lower required rendered id body inquiry (run lower older m)).1

abbrev pub or_older :
    Text → ToolReply → Option (Text × ValidateResult) → Option (Text × ValidateResult)
or_older id (replied r) older = some (id, r)
or_older id (internal e) older = older
or_older id not_rendered older = older
or_older id inquire_failed older = older

-- The newest reply since the planner was spawned, and the session that it went to.
pub last_reply : (Text → Text) → List Event → MissionState → Option (Text × ValidateResult)
last_reply lower [] m = none
last_reply lower (spawns ∷ older) m = none
last_reply lower (submits required rendered id body inquiry ∷ older) m =
    or_older id
      (call_validate_and_approve lower required rendered id body inquiry (run lower older m)).0
      (last_reply lower older m)

abbrev pub answer_to : Text → Option (Text × ValidateResult) → GateAnswer
answer_to id none = planner_no_plan
answer_to id (some (session, r)) =
    if not (text_eq session id)
    then planner_no_plan
    else if r.aborted || r.approved
    then retire
    else if non_empty r.refine_text
    then planner_refine
    else if not (no_errors r.errors)
    then planner_invalid_plan
    else planner_no_plan

-- A call that replies leaves its reply as the submission, one that does not leaves the submission.
abbrev Tells : Text → MissionState → ToolReply → MissionState → Type 0
Tells id m (replied r) m' =
    (m'.submission.session_id ≡ id)
    × (m'.submission.called ≡ true)
    × (m'.submission.valid ≡ no_errors r.errors)
    × (m'.submission.result ≡ r)
Tells id m (internal e) m' = m'.submission ≡ m.submission
Tells id m not_rendered m' = m'.submission ≡ m.submission
Tells id m inquire_failed m' = m'.submission ≡ m.submission

abbrev Told : Text → MissionState → ToolReply × MissionState → Type 0
Told id m r = Tells id m r.0 r.1

stage-Told :
    (id : Text) (plan : Option Plan) (r : ValidateResult) (m m' : MissionState)
    → Told id m (stage_and_emit id plan r m')
unfolding stage_and_emit
stage-Told id plan r m m' = (refl, refl, refl, refl)

approved-Told :
    (id : Text) (plan : Plan) (auto : Bool) (r : ValidateResult) (m : MissionState) (a : Applied)
    → Told id m (on_approved id plan auto r m a)
unfolding on_approved stage_and_emit mark_plan_approved
approved-Told id plan auto r m (fail e, c) = refl
approved-Told id plan auto r m (ok u, c) = (refl, refl, refl, refl)

if-Told :
    (id : Text) (m : MissionState) (b : Bool) (x y : ToolReply × MissionState)
    → Told id m x
    → Told id m y
    → Told id m (if b then x else y)
if-Told id m true x y h k = h
if-Told id m false x y h k = k

settle-Told :
    (id : Text) (plan : Plan) (auto : Bool) (r : ValidateResult) (m : MissionState)
    → Told id m (settle id plan auto r m)
unfolding settle
settle-Told id plan auto r m =
    if-Told id m r.approved
      (on_approved id plan auto r m (committed (commit_staged_diff m.criteria no_diff)))
      (stage_and_emit id none r (discarded m))
      (approved-Told id plan auto r m (committed (commit_staged_diff m.criteria no_diff)))
      (stage-Told id none r m (discarded m))

inquiry-Told :
    (lower : Text → Text) (id : Text) (plan : Plan) (inquiry : Inquiry) (m : MissionState)
    → Told id m (on_inquiry lower id plan inquiry m)
unfolding on_inquiry
inquiry-Told lower id plan inquire_broke m = refl
inquiry-Told lower id plan no_response m = refl
inquiry-Told lower id plan (answered resp) m =
    settle-Told id plan resp.auto_approve_tools (interpret_response lower resp) m

-- Only the submission of the state counts.
moved-Told :
    (id : Text) (m m' : MissionState) (r : ToolReply × MissionState)
    → m'.submission ≡ m.submission
    → Told id m' r
    → Told id m r
moved-Told id m m' (replied x, s) e h = h
moved-Told id m m' (internal x, s) e h = h ∙ e
moved-Told id m m' (not_rendered, s) e h = h ∙ e
moved-Told id m m' (inquire_failed, s) e h = h ∙ e

ask-Told :
    (lower : Text → Text) (rendered : Bool) (id : Text) (plan : Plan) (inquiry : Inquiry)
    (m : MissionState)
    → Told id m (ask_user lower rendered id plan inquiry m)
unfolding ask_user while_asking
ask-Told lower true id plan inquiry m =
    moved-Told id m (while_asking id m) (on_inquiry lower id plan inquiry (while_asking id m)) refl
      (inquiry-Told lower id plan inquiry (while_asking id m))
ask-Told lower false id plan inquiry m = refl

modal-Told :
    (lower : Text → Text) (rendered : Bool) (id : Text) (plan : Plan) (inquiry : Inquiry)
    (m : MissionState) (r : Result AcError Criteria)
    → Told id m (open_modal lower rendered id plan inquiry m r)
unfolding open_modal
modal-Told lower rendered id plan inquiry m (fail e) = refl
modal-Told lower rendered id plan inquiry m (ok c) =
    moved-Told id m (with_criteria m c)
      (ask_user lower rendered id plan inquiry (with_criteria m c)) refl
      (ask-Told lower rendered id plan inquiry (with_criteria m c))

at_once-Told :
    (id : Text) (plan : Option Plan) (mark : MissionState → MissionState) (m : MissionState)
    (a : Applied)
    → Told id m (approve_at_once id plan mark m a)
unfolding approve_at_once stage_and_emit
at_once-Told id plan mark m (fail e, c) = refl
at_once-Told id plan mark m (ok u, c) = (refl, refl, refl, refl)

call-Told :
    (lower : Text → Text) (required rendered : Bool) (id : Text) (body : Body) (inquiry : Inquiry)
    (m : MissionState)
    → Told id m (call_validate_and_approve lower required rendered id body inquiry m)
unfolding call_validate_and_approve approve_asking approve_unasked
call-Told lower required rendered id (invalid errs) inquiry m =
    stage-Told id none (invalid_result errs) m m
call-Told lower true rendered id (decoded none) inquiry m =
    at_once-Told id none (λ x. x) m (ok tt, m.criteria)
call-Told lower true rendered id (decoded (some plan)) inquiry m =
    if-Told id m (should_open_approval_modal m plan)
      (open_modal lower rendered id plan inquiry m (stage_for_modal m plan))
      (approve_at_once id (some plan) (λ x. x) m (apply_plan_ac_silent m plan))
      (modal-Told lower rendered id plan inquiry m (stage_for_modal m plan))
      (at_once-Told id (some plan) (λ x. x) m (apply_plan_ac_silent m plan))
call-Told lower false rendered id (decoded none) inquiry m =
    at_once-Told id none mark_plan_approved m (ok tt, m.criteria)
call-Told lower false rendered id (decoded (some plan)) inquiry m =
    at_once-Told id (some plan) mark_plan_approved m (apply_plan_ac_for_policy_skip m plan)

-- The submission that the newest reply leaves.
abbrev Shows : Option (Text × ValidateResult) → PlannerSubmission → Type 0
Shows none s = s.called ≡ false
Shows (some (id, r)) s =
    (s.session_id ≡ id) × (s.called ≡ true) × (s.valid ≡ no_errors r.errors) × (s.result ≡ r)

run-Shows :
    (lower : Text → Text) (events : List Event) (m : MissionState)
    → m.submission.called ≡ false
    → Shows (last_reply lower events m) (run lower events m).submission
unfolding run last_reply reset_planner_submission
run-Shows lower [] m h = h
run-Shows lower (spawns ∷ older) m h = refl
run-Shows lower (submits required rendered id body inquiry ∷ older) m h =
    go (call_validate_and_approve lower required rendered id body inquiry (run lower older m))
      (call-Told lower required rendered id body inquiry (run lower older m))
      (run-Shows lower older m h)
  where
    go :
        (r : ToolReply × MissionState)
        → Told id (run lower older m) r
        → Shows (last_reply lower older m) (run lower older m).submission
        → Shows (or_older id r.0 (last_reply lower older m)) r.1.submission
    go (replied x, s) t k = t
    go (internal x, s) t k = subst (Shows (last_reply lower older m)) (sym t) k
    go (not_rendered, s) t k = subst (Shows (last_reply lower older m)) (sym t) k
    go (inquire_failed, s) t k = subst (Shows (last_reply lower older m)) (sym t) k

-- A planner that ends its turn is answered by the newest reply to a submission since the planner was
-- spawned: it retires exactly if that reply went to its own session and says that the plan is approved
-- or the mission aborted, and is sent back otherwise, as the reply says, whatever calls failed since.
pub gate_planner_finalize-run :
    (lower : Text → Text) (events : List Event) (m : MissionState) (id : Text)
    → m.submission.called ≡ false
    → gate_planner_finalize id (run lower events m) ≡ answer_to id (last_reply lower events m)
unfolding gate_planner_finalize
gate_planner_finalize-run lower events m id h =
    go (last_reply lower events m) (run lower events m) (run-Shows lower events m h)
  where
    go :
        (o : Option (Text × ValidateResult)) (s : MissionState)
        → Shows o s.submission
        → gate_planner_finalize id s ≡ answer_to id o
    go none s k = simp (k, gate_planner_finalize) refl
    go (some (session, r)) s k = simp (k.0, k.1, k.2, k.3, gate_planner_finalize) refl
