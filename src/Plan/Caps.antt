-- ===== src/Plan/Caps.antt =====
-- The caps of the projection: what is cut, and what is retained.
use mathlib.Core.List.{foldl, foldl-append, append-nil, append_assoc}
use hugen.Prelude.{
  ℕ, ◌-◌, ◌≤◌, ◌≡◌, ◌∙◌, refl, sym, inl, inr, true, false, List, [], ◌∷◌, ◌++◌, arith, length,
  length-append, length-take, length-drop, length-last_n, last_n-append, last_n-of-le,
  cut-eq-last_n, take, last_n, Bool-cases, All, All-append, All-drop, ltb, if◌then◌else◌,
}
use hugen.Prelude.Text.{Text}
use hugen.Plan.{
  Plan, Comment, ProjectEvent, Op, set, clear, comment, other, apply, project, max_body_size,
  max_comment_size, max_comments, truncation_marker, dispatch, set_plan, no_plan, cap_text, retain,
  to_comment, apply_comment, is_boundary,
}
use hugen.Plan.Replay.{project-foldl}

-- A text is kept whole if it fits, and otherwise cut to exactly the budget, the marker included
-- where it fits.
pub length-cap_text :
    (s : Text) (max : ℕ) → length (cap_text s max) ≡ (if ltb max (length s) then max else length s)
unfolding cap_text
length-cap_text s max = ground (
  arith,
  length-take max s,
  length-take (max - length truncation_marker) s,
  length-append (take (max - length truncation_marker) s) truncation_marker,
)

length-retain-le : (cs : List Comment) → length (retain cs) ≤ max_comments
unfolding retain
length-retain-le cs = ground (arith, length-drop (length cs - max_comments) cs)

-- What a projection never exceeds.
pub record IsCapped (p : Plan) : Type 0 where
  pub body : length p.text ≤ max_body_size
  pub count : length p.comments ≤ max_comments
  pub each : All (λ (c : Comment). length c.text ≤ max_comment_size) p.comments
  pub idle : p.active ≡ false → p ≡ no_plan

retain-All :
    (cs : List Comment)
    → All (λ (c : Comment). length c.text ≤ max_comment_size) cs
    → All (λ (c : Comment). length c.text ≤ max_comment_size) (retain cs)
unfolding retain
retain-All cs h = elim (Bool-cases (ltb max_comments (length cs))) [
  | inl e ↦ rw e (All-drop _ (length cs - max_comments) cs h)
  | inr e ↦ rw e h
]

to_comment-le : (ev : ProjectEvent) → length (to_comment ev).text ≤ max_comment_size
unfolding to_comment
to_comment-le ev = ground (arith, length-cap_text ev.text max_comment_size)

apply_comment-IsCapped :
    (p : Plan) (ev : ProjectEvent) → p.active ≡ true → IsCapped p → IsCapped (apply_comment p ev)
unfolding apply_comment
apply_comment-IsCapped p ev a h = record {
  body = h.body;
  count = length-retain-le _;
  each = retain-All _ (All-append _ p.comments (to_comment ev ∷ []) h.each (to_comment-le ev, tt));
  idle = λ e. cc;
}

no_plan-IsCapped : IsCapped no_plan
no_plan-IsCapped = record { body = omega arith; count = omega arith; each = tt; idle = λ e. refl }

set_plan-IsCapped : (ev : ProjectEvent) → IsCapped (set_plan ev)
unfolding set_plan
set_plan-IsCapped ev = record {
  body = ground (arith, length-cap_text ev.text max_body_size);
  count = omega arith;
  each = tt;
  idle = λ e. cc;
}

dispatch-IsCapped :
    (o : Op) (p : Plan) (ev : ProjectEvent) → IsCapped p → IsCapped (dispatch o p ev)
unfolding dispatch
dispatch-IsCapped set p ev h = set_plan-IsCapped ev
dispatch-IsCapped clear p ev h = no_plan-IsCapped
dispatch-IsCapped comment p ev h = elim (Bool-cases p.active) [
  | inl a ↦ simp a (apply_comment-IsCapped p ev a h)
  | inr a ↦ simp a h
]
dispatch-IsCapped (other s) p ev h = h

foldl-IsCapped : (p : Plan) (evs : List ProjectEvent) → IsCapped p → IsCapped (foldl apply p evs)
unfolding apply
foldl-IsCapped p [] h = h
foldl-IsCapped p (ev ∷ evs) h = foldl-IsCapped (apply p ev) evs (dispatch-IsCapped ev.op p ev h)

-- Whatever the log: the body has at most 8192 bytes, there are at most 30 comments of at most 2048
-- bytes each, and an inactive projection is the empty plan.
pub project-IsCapped : (evs : List ProjectEvent) → IsCapped (project evs)
project-IsCapped evs = rw project-foldl (foldl-IsCapped no_plan evs no_plan-IsCapped)

abbrev comment_of : Op → ProjectEvent → List Comment
comment_of comment ev = to_comment ev ∷ []
comment_of set ev = []
comment_of clear ev = []
comment_of (other s) ev = []

-- The comments of a log, oldest first.
abbrev pub comments_of : List ProjectEvent → List Comment
comments_of [] = []
comments_of (ev ∷ evs) = comment_of ev.op ev ++ comments_of evs

abbrev pub NoBoundary : List ProjectEvent → Type 0
NoBoundary = All (λ ev. is_boundary ev.op ≡ false)

retain-eq-last_n : (cs : List Comment) → retain cs ≡ last_n max_comments cs
unfolding retain
retain-eq-last_n cs = cut-eq-last_n max_comments cs

dispatch-comments :
    (o : Op) (p : Plan) (ev : ProjectEvent)
    → is_boundary o ≡ false
    → p.active ≡ true
    → length p.comments ≤ max_comments
    → ((dispatch o p ev).comments ≡ last_n max_comments (p.comments ++ comment_of o ev))
      × ((dispatch o p ev).active ≡ true)
unfolding dispatch apply_comment
dispatch-comments set p ev h a c = cc
dispatch-comments clear p ev h a c = cc
dispatch-comments comment p ev h a c = (simp a (retain-eq-last_n _), simp a)
dispatch-comments (other s) p ev h a c = (rw append-nil (sym (last_n-of-le max_comments _ c)), a)

foldl-comments :
    (p : Plan) (evs : List ProjectEvent)
    → NoBoundary evs
    → p.active ≡ true
    → length p.comments ≤ max_comments
    → (foldl apply p evs).comments ≡ last_n max_comments (p.comments ++ comments_of evs)
unfolding apply
foldl-comments p [] n a c = rw append-nil (sym (last_n-of-le max_comments _ c))
foldl-comments p (ev ∷ evs) n a c =
    let (d, a') = dispatch-comments ev.op p ev n.0 a c in
    foldl-comments (dispatch ev.op p ev) evs n.1 a'
      (rw d (omega (arith, length-last_n max_comments (p.comments ++ comment_of ev.op ev))))
    ∙ rw (d, last_n-append max_comments (p.comments ++ comment_of ev.op ev) (comments_of evs))
        (rw append_assoc)

-- After a set event and any events that neither set nor clear, the projection holds exactly the
-- last 30 comments made since, in the order in which they were made.
pub comments_since_set :
    (before : List ProjectEvent) (ev : ProjectEvent) (since : List ProjectEvent)
    → ev.op ≡ set
    → NoBoundary since
    → (project (before ++ ev ∷ since)).comments ≡ last_n max_comments (comments_of since)
comments_since_set before ev since h n =
    rw (project-foldl, foldl-append apply no_plan before (ev ∷ since))
      (foldl-comments (apply (foldl apply no_plan before) ev) since n
          (unfold apply set_plan in rw h) (unfold apply set_plan in rw h (omega arith))
        ∙ (unfold apply set_plan in rw h))
