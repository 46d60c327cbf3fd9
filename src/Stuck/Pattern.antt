-- ===== src/Stuck/Pattern.antt =====
-- The samples of the detectors and the patterns that they look for: the conditions under which
-- a detector of pkg/extension/stuckdetector/detectors.go does not return early.
use hugen.Prelude.{
  ℕ, ◌+◌, ◌-◌, ◌*◌, Bool, false, not, ◌&&◌, Option, none, some, List, [], ◌∷◌, length, last_n, any,
  all, ltb, if◌then◌else◌,
}
use hugen.Prelude.Text.{Text, text_eq}

abbrev pub repeated_hash_window : ℕ
repeated_hash_window = 3

abbrev pub tight_density_count : ℕ
tight_density_count = 3

abbrev pub tight_density_window : ℕ
tight_density_window = 2 * 1_000_000_000

abbrev pub repeated_error_count : ℕ
repeated_error_count = 3

abbrev pub repeated_error_window : ℕ
repeated_error_window = 6

pub record HashSample : Type 0 where
  pub hash : Text
  pub tool : Text
  pub tool_id : Text
  pub err_code : Text
  pub at : ℕ

-- The loops over `tail[1:]`, behind the tests of the first sample.
abbrev pub same_hash : List HashSample → Bool
same_hash [] = false
same_hash (first ∷ rest) = not (text_eq first.hash []) && all (λ e. text_eq e.hash first.hash) rest

-- `tail[len(tail)-1].at.Sub(tail[0].at)`, 0 where it is negative.
last_at : ℕ → List HashSample → ℕ
last_at t [] = t
last_at t (x ∷ xs) = last_at x.at xs

unfoldable pub span : List HashSample → ℕ
unfolding last_at
span [] = 0
span (first ∷ rest) = last_at first.at rest - first.at

last_sample : List HashSample → Option HashSample
last_sample [] = none
last_sample (x ∷ []) = some x
last_sample (x ∷ y ∷ xs) = last_sample (y ∷ xs)

-- The samples before the last one.
before_last : List HashSample → List HashSample
before_last [] = []
before_last (x ∷ []) = []
before_last (x ∷ y ∷ xs) = x ∷ before_last (y ∷ xs)

-- Whether each detector's pattern is there: the conditions under which it does not return early.
unfoldable pub repeated_hash : List HashSample → Bool
repeated_hash samples =
    if ltb (length samples) repeated_hash_window
    then false
    else same_hash (last_n repeated_hash_window samples)

unfoldable pub tight_density : List HashSample → Bool
unfolding span
tight_density samples =
    if ltb (length samples) tight_density_count
    then false
    else let tail = last_n tight_density_count samples in
      same_hash tail && not (ltb tight_density_window (span tail))

unfoldable pub count_matches : HashSample → List HashSample → ℕ
count_matches last [] = 0
count_matches last (e ∷ es) =
    let rest = count_matches last es in
    if text_eq e.tool last.tool && text_eq e.err_code last.err_code then 1 + rest else rest

-- With the last sample where the pattern is there.
unfoldable pub repeated_error : List HashSample → Option HashSample
unfolding last_sample count_matches
repeated_error samples =
    if ltb (length samples) repeated_error_count then none else elim (last_sample samples) [
      | none ↦ none
      | some last ↦
          if text_eq last.err_code []
          then none
          else if ltb (count_matches last (last_n repeated_error_window samples))
              repeated_error_count
          then none
          else some last
    ]

unfoldable pub no_progress_hit : List HashSample → Option HashSample
unfolding last_sample before_last
no_progress_hit samples = if ltb (length samples) 2 then none else elim (last_sample samples) [
  | none ↦ none
  | some last ↦
      if any (λ prev. text_eq prev.hash last.hash && not (text_eq prev.err_code []))
        (before_last samples)
      then some last
      else none
]
