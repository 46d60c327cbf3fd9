-- ===== src/Plan/Replay.antt =====
-- `Project` and `Apply` agree: the batch replay is the step-by-step one.
use hugen.Prelude.{
  ℕ, zero, suc, ◌+◌, ◌<◌, ◌≡◌, ◌∙◌, refl, ap, ◌⊎◌, inl, inr, true, false, Option, none, some, List,
  [], ◌∷◌, ◌++◌, arith, length, drop, drop-append, get_elem?, if◌then◌else◌, Bool-cases,
}
use native.Mathlib.Nat.{zero-add}
use mathlib.Core.List.{foldl, append-nil, append_assoc}
use hugen.Plan.{
  Plan, ProjectEvent, Op, set, clear, comment, other, apply, project, is_boundary, last_boundary,
  add_comments, set_plan, no_plan, apply_comment, project_from, at_boundary, from_boundary,
  comment_step,
}

last_boundary-snoc :
    (i : ℕ) (b : Option ℕ) (evs : List ProjectEvent) (ev : ProjectEvent)
    → last_boundary i b (evs ++ ev ∷ [])
      ≡ (if is_boundary ev.op then some (i + length evs) else last_boundary i b evs)
unfolding last_boundary
last_boundary-snoc i b [] ev = ground arith
last_boundary-snoc i b (e ∷ evs) ev =
    ground (arith, last_boundary-snoc (suc i) (if is_boundary e.op then some i else b) evs ev)

-- The boundary is an index of the list, or the one that the search began with.
last_boundary-lt :
    (i j : ℕ) (b : Option ℕ) (evs : List ProjectEvent)
    → last_boundary i b evs ≡ some j
    → (b ≡ some j) ⊎ (j < i + length evs)
unfolding last_boundary
last_boundary-lt i j b [] h = inl h
last_boundary-lt i j b (e ∷ evs) h =
    ground (arith, last_boundary-lt (suc i) j (if is_boundary e.op then some i else b) evs)

add_comments-append :
    (p : Plan) (xs ys : List ProjectEvent)
    → add_comments p (xs ++ ys) ≡ add_comments (add_comments p xs) ys
unfolding add_comments
add_comments-append p [] ys = refl
add_comments-append p (x ∷ xs) ys = add_comments-append (comment_step x.op p x) xs ys

get_elem?-append_left :
    (xs ys : List ProjectEvent) (i : ℕ) → i < length xs → get_elem? (xs ++ ys) i ≡ get_elem? xs i
get_elem?-append_left [] ys i h = absurd (omega arith)
get_elem?-append_left (x ∷ xs) ys zero h = refl
get_elem?-append_left (x ∷ xs) ys (suc i) h = get_elem?-append_left xs ys i (omega arith)

get_elem?-snoc :
    (xs : List ProjectEvent) (x : ProjectEvent) → get_elem? (xs ++ x ∷ []) (length xs) ≡ some x
get_elem?-snoc [] x = refl
get_elem?-snoc (y ∷ xs) x = get_elem?-snoc xs x

drop-snoc : (xs : List ProjectEvent) (x : ProjectEvent) → drop (suc (length xs)) (xs ++ x ∷ []) ≡ []
drop-snoc [] x = refl
drop-snoc (y ∷ xs) x = drop-snoc xs x

abbrev alone : ProjectEvent → Plan
alone ev = from_boundary ev.op ev []

-- A set or clear event at the end is the boundary, and nothing follows it.
project-boundary :
    (evs : List ProjectEvent) (ev : ProjectEvent)
    → is_boundary ev.op ≡ true
    → project (evs ++ ev ∷ []) ≡ alone ev
unfolding project
project-boundary evs ev h =
    rw (last_boundary-snoc 0 none evs ev, h, zero-add)
      (rw (get_elem?-snoc evs ev, drop-snoc evs ev))

active-add_comments : (p : Plan) (evs : List ProjectEvent) → (add_comments p evs).active ≡ p.active
unfolding add_comments apply_comment
active-add_comments p [] = refl
active-add_comments p (e ∷ evs) = ground (arith, active-add_comments (comment_step e.op p e) evs)

-- A later comment, or an event of another kind, is a step of `Apply`.
apply-active :
    (p : Plan) (ev : ProjectEvent)
    → is_boundary ev.op ≡ false
    → p.active ≡ true
    → comment_step ev.op p ev ≡ apply p ev
unfolding apply comment_step
apply-active p ev h a = ground arith

apply-add_comments :
    (b : ProjectEvent) (rest : List ProjectEvent) (ev : ProjectEvent)
    → is_boundary ev.op ≡ false
    → add_comments (set_plan b) (rest ++ ev ∷ []) ≡ apply (add_comments (set_plan b) rest) ev
apply-add_comments b rest ev h =
    rw (add_comments-append (set_plan b) rest (ev ∷ []))
      (unfold add_comments set_plan in apply-active _ ev h (active-add_comments (set_plan b) rest))

apply-no_plan : (ev : ProjectEvent) → is_boundary ev.op ≡ false → no_plan ≡ apply no_plan ev
unfolding apply
apply-no_plan ev h = ground arith

apply-from_boundary :
    (o : Op) (b : ProjectEvent) (rest : List ProjectEvent) (ev : ProjectEvent)
    → is_boundary ev.op ≡ false
    → from_boundary o b (rest ++ ev ∷ []) ≡ apply (from_boundary o b rest) ev
unfolding from_boundary
apply-from_boundary set b rest ev h = apply-add_comments b rest ev h
apply-from_boundary clear b rest ev h = apply-no_plan ev h
apply-from_boundary comment b rest ev h = apply-add_comments b rest ev h
apply-from_boundary (other s) b rest ev h = apply-add_comments b rest ev h

at_boundary-snoc :
    (o : Option ProjectEvent) (rest : List ProjectEvent) (ev : ProjectEvent)
    → is_boundary ev.op ≡ false
    → at_boundary o (rest ++ ev ∷ []) ≡ apply (at_boundary o rest) ev
unfolding at_boundary
at_boundary-snoc none rest ev h = apply-no_plan ev h
at_boundary-snoc (some b) rest ev h = apply-from_boundary b.op b rest ev h

-- `Apply` of a set or clear event forgets the plan.
alone-apply : (p : Plan) (ev : ProjectEvent) → is_boundary ev.op ≡ true → alone ev ≡ apply p ev
unfolding apply from_boundary add_comments
alone-apply p ev h = ground arith

apply-project_from :
    (b : Option ℕ) (evs : List ProjectEvent) (ev : ProjectEvent)
    → last_boundary 0 none evs ≡ b
    → is_boundary ev.op ≡ false
    → project_from b (evs ++ ev ∷ []) ≡ apply (project_from b evs) ev
unfolding project_from
apply-project_from none evs ev e h = apply-no_plan ev h
apply-project_from (some i) evs ev e h = elim (last_boundary-lt 0 i none evs e) [
  | inl none-eq ↦ cc
  | inr lt ↦
      rw
        (
          get_elem?-append_left evs (ev ∷ []) i (omega arith),
          drop-append (suc i) evs (ev ∷ []) (omega arith),
        )
        (at_boundary-snoc (get_elem? evs i) (drop (suc i) evs) ev h)
]

-- Projecting one more event is one step of `Apply` on the projection of the events before it.
pub project-snoc :
    (evs : List ProjectEvent) (ev : ProjectEvent)
    → project (evs ++ ev ∷ []) ≡ apply (project evs) ev
project-snoc evs ev = elim (Bool-cases (is_boundary ev.op)) [
  | inl h ↦ project-boundary evs ev h ∙ alone-apply (project evs) ev h
  | inr h ↦
      unfold project in
      rw (last_boundary-snoc 0 none evs ev, h) (apply-project_from _ evs ev refl h)
]

pub project_nil : project [] ≡ no_plan
unfolding project last_boundary
project_nil = refl

project-append :
    (pre post : List ProjectEvent) → project (pre ++ post) ≡ foldl apply (project pre) post
project-append pre [] = rw append-nil
project-append pre (ev ∷ post) = rw (← append_assoc pre (ev ∷ []) post) (
    project-append (pre ++ ev ∷ []) post
    ∙ ap (λ (p : Plan). foldl apply p post) (project-snoc pre ev))

-- The batch replay of a log, which looks for the last boundary first, is the fold of `Apply` over
-- the log from the empty plan.
pub project-foldl : (evs : List ProjectEvent) → project evs ≡ foldl apply no_plan evs
project-foldl evs = project-append [] evs ∙ ap (λ (p : Plan). foldl apply p evs) project_nil
