-- ===== src/Plan/Tests.antt =====
-- The theorems on the plan at concrete logs.
use hugen.Prelude.{
  ltb, ◌==◌, not, ◌&&◌, ◌++◌, arith, Bool, true, false, if◌then◌else◌, ℕ, ◌≡◌, refl, Option, none,
  some, List, [], ◌∷◌, last_n, length,
}
use hugen.Prelude.Text.{Text, codes, text_eq}
use hugen.Plan.{
  ProjectEvent, Op, set, comment, apply, project, max_comments, no_plan, cap_text, last_boundary,
  add_comments, apply_comment, retain, set_plan, to_comment,
}
use hugen.Plan.Replay.{project-foldl}
use hugen.Plan.Caps.{IsCapped, project-IsCapped, length-cap_text, comments_of, comments_since_set}
use hugen.Plan.Handle.{
  Codec, IsCodec, call_set, call_comment, lost, landed, row_of, Action, calls, appends, run,
  restart,
}
use hugen.Plan.Recovered.{recover-run}
use mathlib.Core.List.{foldl}

abbrev event : ℕ → Op → Text → ProjectEvent
event at op text = record { at = at; op = op; text = text; current_step = [] }

abbrev log : List ProjectEvent
log =
    event 1 comment (codes "early")
    ∷ event 2 set (codes "plan")
    ∷ event 3 comment (codes "one")
    ∷ event 4 comment (codes "two")
    ∷ []

project_log :
    (project log).comments
    ≡ comments_of (event 3 comment (codes "one") ∷ event 4 comment (codes "two") ∷ [])
unfolding project apply last_boundary add_comments apply_comment retain set_plan to_comment
project_log = refl

project-foldl_example : project log ≡ foldl apply no_plan log
project-foldl_example = project-foldl log

project-IsCapped_example : IsCapped (project log)
project-IsCapped_example = project-IsCapped log

comments_since_set_example :
    (project log).comments
    ≡ last_n max_comments
        (comments_of (event 3 comment (codes "one") ∷ event 4 comment (codes "two") ∷ []))
comments_since_set_example =
    comments_since_set (event 1 comment (codes "early") ∷ []) (event 2 set (codes "plan"))
      (event 3 comment (codes "one") ∷ event 4 comment (codes "two") ∷ []) refl (refl, (refl, tt))

-- A coding of texts in ASCII: the text, a zero byte, the step.
abbrev put : ℕ → Option (Text × Text) → Option (Text × Text)
put b none = none
put b (some (text, step)) = some (b ∷ text, step)

abbrev split_zero : Text → Option (Text × Text)
split_zero [] = none
split_zero (b ∷ t) = let rest = split_zero t in if b == 0 then some ([], t) else put b rest

unfoldable pub is_ascii : Text → Bool
is_ascii [] = true
is_ascii (b ∷ t) = not (b == 0) && ltb b 128 && is_ascii t

abbrev codec : Codec
codec = record {
  marshal = λ text step. text ++ 0 ∷ step;
  unmarshal = split_zero;
  is_utf8 = is_ascii;
}

split-back :
    (text step : Text) → is_ascii text ≡ true → split_zero (text ++ 0 ∷ step) ≡ some (text, step)
unfolding is_ascii
split-back [] step h = refl
split-back (b ∷ text) step h =
    let e : (b == 0) ≡ false = ground arith in
    let rest : is_ascii text ≡ true = ground arith in rw (split-back text step rest, e) refl

codec-IsCodec : IsCodec codec
unfolding is_ascii
codec-IsCodec = record { read_back = λ text step h k. split-back text step h; empty = refl }

-- The newest first.
abbrev actions : List Action
actions =
    calls (landed 4) (call_comment (codes "kept") [])
    ∷ calls lost (call_comment (codes "lost") [])
    ∷ appends (record (row_of codec 3 set (codes "x") []) { extension = codes "skill" })
    ∷ calls (landed 2) (call_set (codes "plan") (codes "a"))
    ∷ calls (landed 1) (call_comment (codes "too soon") [])
    ∷ []

recover-run_example : restart codec (run codec actions).log ≡ (run codec actions).plan
unfolding run is_ascii text_eq apply set_plan
recover-run_example =
    recover-run codec codec-IsCodec actions
      (
        (tt, (refl, refl)),
        ((tt, (refl, refl)), (refl, ((tt, (refl, refl)), ((tt, (refl, refl)), tt)))),
      )
      (omega arith)

pointer_after_calls : (run codec actions).plan.current_step ≡ codes "a"
unfolding run apply set_plan apply_comment text_eq
pointer_after_calls = refl

length-cap_text_example : length (cap_text (codes "a text of some length") 18) ≡ 18
length-cap_text_example = length-cap_text (codes "a text of some length") 18
