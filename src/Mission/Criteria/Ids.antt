-- ===== src/Mission/Criteria/Ids.antt =====
-- The ids of the rows: minted in order, never reused and never removed.
use mathlib.Core.List.{map-append}
use hugen.Prelude.{
  ℕ, zero, suc, ◌≡◌, refl, ap, ◌∙◌, inl, inr, Option, none, some, List, [], ◌∷◌, ◌++◌, Result, ok,
  fail, All, All-append, ◌&&◌, Bool-cases,
}
use hugen.Prelude.Text.{Text, text_eq, trim_space}
use hugen.Mission.Criteria.Types.{
  Criterion, AddSpec, UpdateSpec, Diff, AcError, validate_planner_diff, is_empty, planner_prefix,
  itoa, origin_user_refine,
}
use hugen.Mission.Criteria.{
  finish, commit_combined, is_none, status_result, check_status_only, staged_or, Criteria, Staged,
  no_criteria, ac_id, mint, mint_trimmed, seed_ac, stage_planner_diff, discard_staged_diff,
  origin_or, add_all, commit_combined, commit_staged_diff, apply_status_only,
  apply_worker_satisfies, change_first, satisfy_row, find_id, check_ids,
}
use hugen.Mission.Criteria.Rows.{
  IsSound, IsValid, ids, Keeps, apply_updates-Keeps, change_first-Keeps,
}
use hugen.Mission.Criteria.Checks.{
  validate_planner_diff-IsValid, check_status_only-IsValid, unit-cases,
}

-- The calls that change the criteria.
pub data Call : Type 0 where
  seed : List AddSpec → Text → Call
  stage : Diff → ℕ → Text → Text → Call
  commit : Diff → Call
  discard : Call
  status_only : List UpdateSpec → ℕ → Text → Call
  worker : List Text → ℕ → Text → Text → Call

or_same : Criteria → Result AcError Criteria → Criteria
or_same s (ok s') = s'
or_same s (fail e) = s

unfoldable pub step : Criteria → Call → Criteria
unfolding or_same
step s (seed items origin) = (seed_ac s items origin).0
step s (stage diff iter origin reason) = or_same s (stage_planner_diff s diff iter origin reason)
step s (commit extra) = (commit_staged_diff s extra).0
step s discard = (discard_staged_diff s).0
step s (status_only updates iter source) = (apply_status_only s updates iter source).0
step s (worker ids iter role wave) = (apply_worker_satisfies s ids iter role wave).0

unfoldable pub run : Criteria → List Call → Criteria
run s [] = s
run s (c ∷ cs) = run (step s c) cs

-- `ac-1` to `ac-n`
unfoldable pub minted : ℕ → List Text
minted zero = []
minted (suc n) = minted n ++ ac_id (suc n) ∷ []

abbrev pub IsStaged : Option Staged → Type 0
IsStaged none = Unit
IsStaged (some p) = All IsValid p.diff.update

-- The ids are `ac-1` to `ac-n` for the counter `n`, every row is sound, and the staged diff is valid.
pub record IsGood (s : Criteria) : Type 0 where
  pub numbered : ids s.ac ≡ minted s.next_ac_id
  pub sound : All IsSound s.ac
  pub staged : IsStaged s.pending

pub no_criteria-IsGood : IsGood no_criteria
unfolding minted
no_criteria-IsGood = record { numbered = refl; sound = tt; staged = tt }

mint-IsGood :
    (s : Criteria) (statement origin : Text) (iter : ℕ)
    → IsGood s
    → IsGood (mint s statement origin iter)
unfolding mint minted
mint-IsGood s statement origin iter h = record {
  numbered =
      map-append (λ (row : Criterion). row.id) s.ac _
      ∙ ap (λ (l : List Text). l ++ ac_id (suc s.next_ac_id) ∷ []) h.numbered;
  sound = All-append IsSound s.ac _ h.sound (record { known = tt; reasoned = λ e. cc }, tt);
  staged = h.staged;
}

mint_trimmed-IsGood :
    (s : Criteria) (statement origin : Text) (iter : ℕ)
    → IsGood s
    → IsGood (mint_trimmed s statement origin iter).0
unfolding mint_trimmed
mint_trimmed-IsGood s statement origin iter h =
    elim (Bool-cases (text_eq (trim_space statement) [])) [
      | inl e ↦ rw e h
      | inr e ↦ rw e (mint-IsGood s (trim_space statement) origin iter h)
    ]

seed_ac-IsGood :
    (s : Criteria) (items : List AddSpec) (origin : Text)
    → IsGood s
    → IsGood (seed_ac s items origin).0
unfolding seed_ac
seed_ac-IsGood s [] origin h = h
seed_ac-IsGood s (item ∷ items) origin h =
    seed_ac-IsGood (mint_trimmed s item.statement origin 0).0 items origin
      (mint_trimmed-IsGood s item.statement origin 0 h)

add_all-IsGood :
    (origin : Text) (iter : ℕ) (s : Criteria) (as' : List AddSpec)
    → IsGood s
    → IsGood (add_all origin iter s as').0
unfolding add_all
add_all-IsGood origin iter s [] h = h
add_all-IsGood origin iter s (a ∷ as') h =
    add_all-IsGood origin iter (mint_trimmed s a.statement (origin_or origin a) iter).0 as'
      (mint_trimmed-IsGood s a.statement (origin_or origin a) iter h)

rows-IsGood :
    (s : Criteria) (rows : List Criterion)
    → Keeps s.ac rows
    → IsGood s
    → IsGood (record s { ac = rows })
rows-IsGood s rows k h = record {
  numbered = k.0 ∙ h.numbered;
  sound = k.1 h.sound;
  staged = h.staged;
}

unstaged-IsGood : (s : Criteria) → IsGood s → IsGood (record s { pending = none })
unstaged-IsGood s h = record { numbered = h.numbered; sound = h.sound; staged = tt }

finish-IsGood :
    (sa : Criteria × List Text) (r : List Criterion × Option AcError)
    → Keeps sa.0.ac r.0
    → IsGood sa.0
    → IsGood (finish sa r).0
unfolding finish
finish-IsGood (s, added) (rows, none) k h =
    unstaged-IsGood (record s { ac = rows }) (rows-IsGood s rows k h)
finish-IsGood (s, added) (rows, some e) k h = rows-IsGood s rows k h

commit_combined-IsGood :
    (s : Criteria) (p : Staged) (extra : Diff)
    → All IsValid p.diff.update
    → All IsValid extra.update
    → IsGood s
    → IsGood (commit_combined s p extra).0
unfolding commit_combined
commit_combined-IsGood s p extra vp ve h =
    let r1 = add_all p.origin p.iter s p.diff.add in
    let r2 = add_all origin_user_refine p.iter r1.0 extra.add in
    finish-IsGood (r2.0, r1.1 ++ r2.1) _
      (apply_updates-Keeps (p.diff.update ++ extra.update) p.iter (planner_prefix ++ itoa p.iter)
        r2.0.ac (All-append IsValid p.diff.update extra.update vp ve))
      (add_all-IsGood origin_user_refine p.iter r1.0 extra.add
        (add_all-IsGood p.origin p.iter s p.diff.add h))

staged_or-IsValid : (o : Option Staged) → IsStaged o → All IsValid (staged_or o).diff.update
staged_or-IsValid none h = tt
staged_or-IsValid (some p) h = h

commit_staged_diff-IsGood :
    (s : Criteria) (extra : Diff) → IsGood s → IsGood (commit_staged_diff s extra).0
unfolding commit_staged_diff
commit_staged_diff-IsGood s extra h = elim (unit-cases (validate_planner_diff extra)) [
  | inr (e, v) ↦ rw (v, commit_staged_diff) h
  | inl v ↦
      rw (v, commit_staged_diff)
        (elim (Bool-cases (is_none s.pending && is_empty extra)) [
          | inl n ↦ rw (n, commit_staged_diff) h
          | inr n ↦
              rw (n, commit_staged_diff)
                (elim (unit-cases
                  (check_ids 0 s.ac ((staged_or s.pending).diff.update ++ extra.update))) [
                    | inr (e, c) ↦ rw (c, commit_staged_diff) h
                    | inl c ↦ rw c (
                        commit_combined-IsGood s (staged_or s.pending) extra
                          (staged_or-IsValid s.pending h.staged)
                          (validate_planner_diff-IsValid extra v) h)
                  ])
        ])
]

stage_planner_diff-IsGood :
    (s : Criteria) (diff : Diff) (iter : ℕ) (origin reason : Text)
    → IsGood s
    → IsGood (or_same s (stage_planner_diff s diff iter origin reason))
unfolding stage_planner_diff or_same
stage_planner_diff-IsGood s diff iter origin reason h =
    elim (unit-cases (validate_planner_diff diff)) [
      | inr (e, v) ↦ rw v h
      | inl v ↦ rw v (elim (unit-cases (check_ids 0 s.ac diff.update)) [
        | inr (e, c) ↦ rw c h
        | inl c ↦ rw c (record {
          numbered = h.numbered;
          sound = h.sound;
          staged = validate_planner_diff-IsValid diff v;
        })
      ])
    ]

status_result-IsGood :
    (s : Criteria) (r : List Criterion × Option AcError)
    → Keeps s.ac r.0
    → IsGood s
    → IsGood (status_result s r).0
unfolding status_result
status_result-IsGood s (rows, none) k h = rows-IsGood s rows k h
status_result-IsGood s (rows, some e) k h = rows-IsGood s rows k h

apply_status_only-IsGood :
    (s : Criteria) (updates : List UpdateSpec) (iter : ℕ) (source : Text)
    → IsGood s
    → IsGood (apply_status_only s updates iter source).0
unfolding apply_status_only
apply_status_only-IsGood s updates iter source h = elim (unit-cases (check_status_only 0 updates)) [
  | inr (e, v) ↦ rw (v, apply_status_only) h
  | inl v ↦
      rw (v, apply_status_only)
        (elim (unit-cases (check_ids 0 s.ac updates)) [
          | inr (e, c) ↦ rw (c, apply_status_only) h
          | inl c ↦ rw c (
              status_result-IsGood s _
                (apply_updates-Keeps updates iter source s.ac
                  (check_status_only-IsValid 0 updates v))
                h)
        ])
]

apply_worker_satisfies-IsGood :
    (s : Criteria) (wanted : List Text) (iter : ℕ) (role wave : Text)
    → IsGood s
    → IsGood (apply_worker_satisfies s wanted iter role wave).0
unfolding apply_worker_satisfies
apply_worker_satisfies-IsGood s [] iter role wave h = h
apply_worker_satisfies-IsGood s (id ∷ wanted) iter role wave h =
    elim (Bool-cases (find_id s.ac id)) [
      | inr f ↦
          rw (f, apply_worker_satisfies) (apply_worker_satisfies-IsGood s wanted iter role wave h)
      | inl f ↦ rw f (
          let rows = change_first (trim_space id) (satisfy_row iter role wave) s.ac in
          apply_worker_satisfies-IsGood (record s { ac = rows }) wanted iter role wave
            (rows-IsGood s rows (change_first-Keeps (trim_space id) iter role wave s.ac) h))
    ]

step-IsGood : (s : Criteria) (c : Call) → IsGood s → IsGood (step s c)
unfolding step discard_staged_diff
step-IsGood s (seed items origin) h = seed_ac-IsGood s items origin h
step-IsGood s (stage diff iter origin reason) h =
    stage_planner_diff-IsGood s diff iter origin reason h
step-IsGood s (commit extra) h = commit_staged_diff-IsGood s extra h
step-IsGood s discard h = unstaged-IsGood s h
step-IsGood s (status_only updates iter source) h = apply_status_only-IsGood s updates iter source h
step-IsGood s (worker wanted iter role wave) h =
    apply_worker_satisfies-IsGood s wanted iter role wave h

-- Whatever calls are made on criteria whose ids are `ac-1` to `ac-n` in order for the counter `n`,
-- whose rows are unsatisfied, satisfied, or dropped for a reason, and whose staged diff is valid,
-- failing calls included, all of that still holds.
pub run-IsGood : (s : Criteria) (calls : List Call) → IsGood s → IsGood (run s calls)
unfolding run
run-IsGood s [] h = h
run-IsGood s (c ∷ cs) h = run-IsGood (step s c) cs (step-IsGood s c h)
