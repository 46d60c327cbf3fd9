-- ===== src/Mission/Criteria/Checks.antt =====
-- What the validators of ac.go let through.
use hugen.Prelude.{
  ℕ, suc, ◌≡◌, ◌⊎◌, refl, inl, inr, true, false, List, [], ◌∷◌, arith, Result, ok, fail, ◌>>=◌, All,
  Bool-cases,
}
use hugen.Mission.Criteria.Types.{
  Status, unset, unsatisfied, satisfied, dropped, other, UpdateSpec, Diff, AcError, is_blank,
  is_contract_change, validate_planner_diff, planner_update, planner_updates, planner_status,
  check_adds, checker_status,
}
use hugen.Mission.Criteria.{check_status_only}
use hugen.Mission.Criteria.Rows.{IsWire, IsValid}

pub unit-cases : {E : Type 0} (r : Result E (Unit {0})) → (r ≡ ok tt) ⊎ ((e : E) × (r ≡ fail e))
unit-cases (ok _) = inl refl
unit-cases (fail e) = inr (e, refl)

ok_bind :
    (m : Result AcError (Unit {0})) (n : Result AcError (Unit {0}))
    → (m >>= λ _. n) ≡ ok tt
    → (m ≡ ok tt) × (n ≡ ok tt)
ok_bind (ok _) n h = (refl, h)
ok_bind (fail e) n h = cc

planner_status-IsWire : (i : ℕ) (st : Status) → planner_status i st ≡ ok tt → IsWire st
unfolding planner_status
planner_status-IsWire i unset h = tt
planner_status-IsWire i unsatisfied h = tt
planner_status-IsWire i satisfied h = tt
planner_status-IsWire i dropped h = cc
planner_status-IsWire i (other x) h = cc

checker_status-IsWire : (i : ℕ) (st : Status) → checker_status i st ≡ ok tt → IsWire st
unfolding checker_status
checker_status-IsWire i unset h = tt
checker_status-IsWire i unsatisfied h = tt
checker_status-IsWire i satisfied h = tt
checker_status-IsWire i dropped h = cc
checker_status-IsWire i (other x) h = cc

planner_update-parts :
    (i : ℕ) (u : UpdateSpec)
    → planner_update i u ≡ ok tt
    → (planner_status i u.status ≡ ok tt) × (u.drop ≡ true → is_blank u.drop_reason ≡ false)
unfolding planner_update
planner_update-parts i u h = ground arith

planner_updates-IsValid :
    (i : ℕ) (us : List UpdateSpec) → planner_updates i us ≡ ok tt → All IsValid us
unfolding planner_updates
planner_updates-IsValid i [] h = tt
planner_updates-IsValid i (u ∷ us) h =
    let (p, rest) = ok_bind (planner_update i u) (planner_updates (suc i) us) h in
    let (st, reason) = planner_update-parts i u p in
    (
      record { wire = planner_status-IsWire i u.status st; justified = reason },
      planner_updates-IsValid (suc i) us rest,
    )

-- The updates of a diff that the planner's validator accepts carry no status but the three of the
-- wire, and drop only for a reason.
pub validate_planner_diff-IsValid :
    (d : Diff) → validate_planner_diff d ≡ ok tt → All IsValid d.update
unfolding validate_planner_diff
validate_planner_diff-IsValid d h =
    planner_updates-IsValid 0 d.update
      (ok_bind (check_adds 0 d.add) (planner_updates 0 d.update) h).1

not-drop :
    (u : UpdateSpec) → is_contract_change u ≡ false → u.drop ≡ true → is_blank u.drop_reason ≡ false
unfolding is_contract_change
not-drop u h d = ground arith

pub check_status_only-IsValid :
    (i : ℕ) (us : List UpdateSpec) → check_status_only i us ≡ ok tt → All IsValid us
unfolding check_status_only
check_status_only-IsValid i [] h = tt
check_status_only-IsValid i (u ∷ us) h = elim (Bool-cases (is_contract_change u)) [
  | inl c ↦ absurd (ground (arith, c))
  | inr c ↦
      let (p, rest) =
        ok_bind (checker_status i u.status) (check_status_only (suc i) us) (rw c at h) in
      (
        record { wire = checker_status-IsWire i u.status p; justified = not-drop u c },
        check_status_only-IsValid (suc i) us rest,
      )
]
