-- ===== src/Mission/Approval/Consent.antt =====
-- The contract changes only with consent: the user's, or the mission's policy not to ask.
use hugen.Prelude.{
  ℕ, ◌≡◌, refl, sym, subst, inl, inr, Bool, true, false, Option, none, some, List, [], ◌∷◌,
  Bool-cases, Result, ok, fail,
}
use hugen.Prelude.Text.{Text}
use hugen.Mission.Criteria.{Criteria, stage_planner_diff, discard_staged_diff, check_ids}
use hugen.Mission.Criteria.Checks.{unit-cases}
use hugen.Mission.Criteria.Types.{
  Diff, UpdateSpec, AcError, Criterion, validate_planner_diff, is_empty, has_contract_change,
  planner_origin_at,
}
use hugen.Mission.Approval.{
  Plan, MissionState, Inquiry, inquire_broke, no_response, answered, Body, invalid, decoded,
  ToolReply, stage_and_emit, interpret_response, should_open_approval_modal,
}
use hugen.Mission.Approval.Call.{
  with_criteria, Applied, apply_plan_ac_silent, staged_reason, stage_for_modal, settle, on_inquiry,
  ask_user, while_asking, open_modal, approve_at_once, approve_asking, call_validate_and_approve,
}
use hugen.Mission.Approval.Contract.{
  SameContract, SameContract-refl, apply_status_only-SameContract,
}

-- The user answered, and the answer is read as an approval.
abbrev pub user_approves : (Text → Text) → Inquiry → Bool
user_approves lower inquire_broke = false
user_approves lower no_response = false
user_approves lower (answered resp) = (interpret_response lower resp).approved

abbrev Kept : MissionState → ToolReply × MissionState → Type 0
Kept m r = SameContract m.criteria.ac r.1.criteria.ac

discard-same : (c : Criteria) → (discard_staged_diff c).0.ac ≡ c.ac
unfolding discard_staged_diff
discard-same c = refl

stage-same :
    (c c' : Criteria) (d : Diff) (iter : ℕ) (origin reason : Text)
    → stage_planner_diff c d iter origin reason ≡ ok c'
    → c'.ac ≡ c.ac
unfolding stage_planner_diff
stage-same c c' d iter origin reason h = elim (unit-cases (validate_planner_diff d)) [
  | inr (x, e) ↦ (let k = rw e at h in cc)
  | inl e ↦ elim (unit-cases (check_ids 0 c.ac d.update)) [
    | inr (x, f) ↦ (let k = rw (e, f) at h in cc)
    | inl f ↦ (let k = rw (e, f) at h in cc)
  ]
]

same-Kept : (rows rows' : List Criterion) → rows' ≡ rows → SameContract rows rows'
same-Kept rows rows' e = subst (SameContract rows) (sym e) (SameContract-refl rows)

module _ (lower : Text → Text) (rendered : Bool) (id : Text) (plan : Plan) where
  inquiry-Kept :
      (inquiry : Inquiry) (m : MissionState)
      → user_approves lower inquiry ≡ false
      → Kept m (on_inquiry lower id plan inquiry m)
  unfolding on_inquiry settle stage_and_emit
  inquiry-Kept inquire_broke m h = same-Kept m.criteria.ac _ (discard-same m.criteria)
  inquiry-Kept no_response m h = same-Kept m.criteria.ac _ (discard-same m.criteria)
  inquiry-Kept (answered resp) m h = rw h (same-Kept m.criteria.ac _ (discard-same m.criteria))

  ask-Kept :
      (inquiry : Inquiry) (m : MissionState)
      → user_approves lower inquiry ≡ false
      → Kept m (ask_user lower rendered id plan inquiry m)
  unfolding ask_user while_asking
  ask-Kept inquiry m h = elim (Bool-cases rendered) [
    | inl e ↦ rw e (inquiry-Kept inquiry (while_asking id m) h)
    | inr e ↦ rw e (same-Kept m.criteria.ac _ (discard-same m.criteria))
  ]

  modal-Kept :
      (inquiry : Inquiry) (m : MissionState) (r : Result AcError Criteria)
      → ((c : Criteria) → r ≡ ok c → c.ac ≡ m.criteria.ac)
      → user_approves lower inquiry ≡ false
      → Kept m (open_modal lower rendered id plan inquiry m r)
  unfolding open_modal
  modal-Kept inquiry m (fail e) f h = SameContract-refl m.criteria.ac
  modal-Kept inquiry m (ok c) f h =
      subst
        (λ rows.
          SameContract rows
            ((ask_user lower rendered id plan inquiry (with_criteria m c)).1).criteria.ac)
        (f c refl) (ask-Kept inquiry (with_criteria m c) h)

staged-same :
    (m : MissionState) (plan : Plan) (c : Criteria)
    → stage_for_modal m plan ≡ ok c
    → c.ac ≡ m.criteria.ac
unfolding stage_for_modal
staged-same m plan c h = elim (Bool-cases (is_empty plan.diff)) [
  | inl e ↦ (let k : ok m.criteria ≡ ok c = rw e at h in cc)
  | inr e ↦
      stage-same m.criteria c plan.diff m.iteration (planner_origin_at m.iteration)
        (staged_reason plan) (rw e at h)
]

at_once-Kept :
    (id : Text) (plan : Option Plan) (m : MissionState) (a : Applied)
    → SameContract m.criteria.ac a.1.ac
    → Kept m (approve_at_once id plan (λ x. x) m a)
unfolding approve_at_once stage_and_emit
at_once-Kept id plan m (ok u, c) h = h
at_once-Kept id plan m (fail e, c) h = h

silent-Kept :
    (m : MissionState) (plan : Plan) → SameContract m.criteria.ac (apply_plan_ac_silent m plan).1.ac
unfolding apply_plan_ac_silent
silent-Kept m plan = elim (Bool-cases (has_contract_change plan.diff)) [
  | inl e ↦ rw e (SameContract-refl m.criteria.ac)
  | inr e ↦ go plan.diff.update refl e
]
  where
    go :
        (us : List UpdateSpec)
        → plan.diff.update ≡ us
        → has_contract_change plan.diff ≡ false
        → SameContract m.criteria.ac (apply_plan_ac_silent m plan).1.ac
    go [] f e = simp (e, f, apply_plan_ac_silent) (SameContract-refl m.criteria.ac)
    go (u ∷ us) f e =
        simp (e, f, apply_plan_ac_silent)
          (apply_status_only-SameContract m.criteria (u ∷ us) m.iteration
            (planner_origin_at m.iteration))

asking-Kept :
    (lower : Text → Text) (rendered : Bool) (id : Text) (inquiry : Inquiry) (plan : Option Plan)
    (m : MissionState)
    → user_approves lower inquiry ≡ false
    → Kept m (approve_asking lower rendered id inquiry plan m)
unfolding approve_asking
asking-Kept lower rendered id inquiry none m h =
    at_once-Kept id none m (ok tt, m.criteria) (SameContract-refl m.criteria.ac)
asking-Kept lower rendered id inquiry (some plan) m h =
    elim (Bool-cases (should_open_approval_modal m plan)) [
      | inl e ↦ rw e (
          modal-Kept lower rendered id plan inquiry m (stage_for_modal m plan) (staged-same m plan)
            h)
      | inr e ↦
          rw e (at_once-Kept id (some plan) m (apply_plan_ac_silent m plan) (silent-Kept m plan))
    ]

-- Where the mission's policy asks for approval and the user does not approve, whatever the plan and
-- however the call ends: no criterion is added or removed, no statement changes, and none is dropped.
pub call_validate_and_approve-SameContract :
    (lower : Text → Text) (rendered : Bool) (id : Text) (body : Body) (inquiry : Inquiry)
    (m : MissionState)
    → user_approves lower inquiry ≡ false
    → SameContract m.criteria.ac
        (call_validate_and_approve lower true rendered id body inquiry m).1.criteria.ac
unfolding call_validate_and_approve stage_and_emit
call_validate_and_approve-SameContract lower rendered id (invalid errs) inquiry m h =
    SameContract-refl m.criteria.ac
call_validate_and_approve-SameContract lower rendered id (decoded plan) inquiry m h =
    asking-Kept lower rendered id inquiry plan m h
