-- ===== src/Mission/Criteria/Types.antt =====
-- The acceptance criteria's data and the checks of a diff's shape: pkg/extension/mission/ac.go.
-- Iterations are natural numbers.
use hugen.Prelude.{
  ℕ, zero, suc, ◌+◌, ◌/◌, ◌%◌, Bool, true, false, not, ◌&&◌, ◌||◌, List, [], ◌∷◌, ◌++◌, any, ltb,
  ◌==◌, if◌then◌else◌, Result, ok, fail, ◌>>=◌,
}
use hugen.Prelude.Text.{Text, codes, text_eq, trim_space}

-- `ACStatus`: the empty string, the three constants, and any other string.
pub data Status : Type 0 where
  unset unsatisfied satisfied dropped : Status
  other : Text → Status

pub record Criterion : Type 0 where
  pub id : Text
  pub statement : Text
  pub origin : Text
  pub status : Status
  pub added_at_iter : ℕ
  pub satisfied_at_iter : ℕ
  pub dropped_at_iter : ℕ
  pub last_evidence : Text
  pub drop_reason : Text

pub record AddSpec : Type 0 where
  pub statement : Text
  pub origin : Text

pub record UpdateSpec : Type 0 where
  pub id : Text
  pub statement : Text
  pub drop : Bool
  pub drop_reason : Text
  pub status : Status
  pub evidence : Text

pub record Diff : Type 0 where
  pub add : List AddSpec
  pub update : List UpdateSpec

-- The errors of the package, with the index of the entry that they name.
pub data AcError : Type 0 where
  empty_statement empty_id no_field no_drop_reason dropped_status bad_status unknown_id :
      ℕ → AcError
  checker_contract no_status contract_change : ℕ → AcError
  checker_adds vanished blank_statement : AcError

-- The number that the loop of `itoa` writes, its digits put before `acc`.
unfoldable pub digits_loop : ℕ → ℕ → Text → Text
digits_loop zero n acc = acc
digits_loop (suc fuel) n acc =
    let rest = digits_loop fuel (n / 10) ((b'0' + n % 10) ∷ acc) in if n == 0 then acc else rest

-- Each round divides by ten, so `n` rounds are enough.
unfoldable pub itoa : ℕ → Text
itoa n = if n == 0 then codes "0" else digits_loop n n []

abbrev pub planner_prefix : Text
planner_prefix = codes "planner_iter_"

unfoldable pub planner_origin_at : ℕ → Text
planner_origin_at iter =
    if ltb iter 1 then planner_prefix ++ codes "0" else planner_prefix ++ itoa iter

abbrev pub origin_user_refine : Text
origin_user_refine = codes "user_refine"

abbrev pub is_unset : Status → Bool
is_unset unset = true
is_unset unsatisfied = false
is_unset satisfied = false
is_unset dropped = false
is_unset (other s) = false

unfoldable pub is_blank : Text → Bool
is_blank s = text_eq (trim_space s) []

unfoldable pub is_contract_change : UpdateSpec → Bool
is_contract_change u = not (text_eq u.statement []) || u.drop

unfoldable pub is_empty : Diff → Bool
is_empty d = elim d.add [ x ∷ xs ↦ false | [] ↦ elim d.update [ x ∷ xs ↦ false | [] ↦ true ] ]

unfoldable pub has_contract_change : Diff → Bool
has_contract_change d = elim d.add [ x ∷ xs ↦ true | [] ↦ any is_contract_change d.update ]

abbrev pub Check : Type 0
Check = Result AcError (Unit {0})

abbrev pub guard : Bool → AcError → Result AcError (Unit {0})
guard true e = ok tt
guard false e = fail e

-- The `switch u.Status` of the two validators.
unfoldable pub planner_status : ℕ → Status → Check
planner_status i unset = ok tt
planner_status i unsatisfied = ok tt
planner_status i satisfied = ok tt
planner_status i dropped = fail (dropped_status i)
planner_status i (other s) = fail (bad_status i)

unfoldable pub checker_status : ℕ → Status → Result AcError (Unit {0})
checker_status i unset = fail (no_status i)
checker_status i unsatisfied = ok tt
checker_status i satisfied = ok tt
checker_status i dropped = fail (bad_status i)
checker_status i (other s) = fail (bad_status i)

unfoldable pub check_adds : ℕ → List AddSpec → Check
check_adds i [] = ok tt
check_adds i (a ∷ rest) =
    guard (not (is_blank a.statement)) (empty_statement i) >>= λ _. check_adds (suc i) rest

unfoldable pub planner_update : ℕ → UpdateSpec → Check
unfolding planner_status
planner_update i u =
    if is_blank u.id
    then fail (empty_id i)
    else if text_eq u.statement [] && (not u.drop && is_unset u.status)
    then fail (no_field i)
    else if u.drop && is_blank u.drop_reason
    then fail (no_drop_reason i)
    else planner_status i u.status

unfoldable pub planner_updates : ℕ → List UpdateSpec → Check
planner_updates i [] = ok tt
planner_updates i (u ∷ rest) = planner_update i u >>= λ _. planner_updates (suc i) rest

unfoldable pub validate_planner_diff : Diff → Result AcError (Unit {0})
unfolding check_adds planner_updates planner_update
validate_planner_diff d = check_adds 0 d.add >>= λ _. planner_updates 0 d.update

unfoldable pub checker_update : ℕ → UpdateSpec → Check
unfolding checker_status
checker_update i u =
    if is_blank u.id
    then fail (empty_id i)
    else if not (text_eq u.statement []) || u.drop
    then fail (checker_contract i)
    else checker_status i u.status

unfoldable pub checker_updates : ℕ → List UpdateSpec → Check
checker_updates i [] = ok tt
checker_updates i (u ∷ rest) = checker_update i u >>= λ _. checker_updates (suc i) rest

unfoldable pub validate_checker_diff : Diff → Result AcError (Unit {0})
unfolding checker_updates checker_update
validate_checker_diff d = elim d.add [
  | x ∷ xs ↦ fail checker_adds
  | [] ↦ checker_updates 0 d.update
]
