-- ===== src/Runner/Firing.antt =====
-- When a registration fires.
use hugen.Prelude.{
  ℕ, suc, ◌+◌, ◌≤◌, ◌<◌, ◌==◌, ltb, ◌≡◌, refl, ◌∙◌, inl, inr, Bool, true, false, Option, none, some,
  List, [], ◌∷◌, arith, All, Bool-cases,
}
use hugen.Runner.{
  Schedule, every, once, Registration, Outcome, Fire, next, pause, resume, should_fire,
  prepare_fire, tick_once, mark_idle, record_outcome,
}

abbrev pub is_fired : Option Fire → Bool
is_fired none = false
is_fired (some f) = true

-- `prepareFire` starts a fire exactly if `shouldFire` holds at that time.
prepare_fire_iff :
    (now : ℕ) (r : Registration) → is_fired (prepare_fire now r).1 ≡ should_fire now r
unfolding prepare_fire should_fire
prepare_fire_iff now r = ground arith

-- A fire that a round starts is the one planned, not before its time by the second reading of the
-- clock, with the next number, and never while the registration is paused or another
-- of its fires runs.
pub fire_is_due :
    (now now' : ℕ) (r : Registration) (f : Fire)
    → (tick_once now now' r).1 ≡ some f
    → (f.planned_at ≡ r.next_fire_at)
      × (f.planned_at ≤ now')
      × (f.seq ≡ suc r.fire_count)
      × (r.paused ≡ false)
      × (r.in_flight ≡ false)
unfolding tick_once prepare_fire should_fire
fire_is_due now now' r f e = ground arith

-- What may happen between two fires beside a `Reschedule`.
pub data Act : Type 0 where
  paused idled : Act
  resumed : ℕ → Act
  recorded : ℕ → Outcome → Bool → Act

unfoldable pub perform : Act → Registration → Registration
perform paused r = pause r
perform idled r = mark_idle r
perform (resumed now) r = resume now r
perform (recorded at o success) r = record_outcome at o success r

unfoldable pub perform_all : List Act → Registration → Registration
perform_all [] r = r
perform_all (a ∷ acts) r = perform_all acts (perform a r)

-- The act does not lie before `now`.
abbrev pub IsSince : ℕ → Act → Type 0
IsSince now paused = Unit
IsSince now idled = Unit
IsSince now (resumed t) = now ≤ t
IsSince now (recorded at o success) = Unit

-- A property of a schedule and a next instant that `Resume` gives too is kept.
perform_all-keeps :
    (P : Schedule → ℕ → Type 0) (now : ℕ)
    → ((t : ℕ) (sched : Schedule) (at : ℕ) → now ≤ t → P sched at → P sched (next sched t))
    → (acts : List Act) (r : Registration) → All (IsSince now) acts
    → P r.sched r.next_fire_at
    → P (perform_all acts r).sched (perform_all acts r).next_fire_at
unfolding perform_all perform pause mark_idle resume record_outcome
perform_all-keeps P now k [] r h p = p
perform_all-keeps P now k (paused ∷ acts) r h p = perform_all-keeps P now k acts (pause r) h.1 p
perform_all-keeps P now k (idled ∷ acts) r h p = perform_all-keeps P now k acts (mark_idle r) h.1 p
perform_all-keeps P now k (resumed t ∷ acts) r h p =
    perform_all-keeps P now k acts (resume t r) h.1 (k t r.sched r.next_fire_at h.0 p)
perform_all-keeps P now k (recorded at o true ∷ acts) r h p =
    perform_all-keeps P now k acts (record_outcome at o true r) h.1 p
perform_all-keeps P now k (recorded at o false ∷ acts) r h p =
    perform_all-keeps P now k acts (record_outcome at o false r) h.1 p

fired-next :
    (now : ℕ) (r : Registration)
    → is_fired (prepare_fire now r).1 ≡ true
    → ((prepare_fire now r).0.next_fire_at ≡ next r.sched now)
      × ((prepare_fire now r).0.sched ≡ r.sched)
unfolding prepare_fire
fired-next now r e = (ground arith, ground arith)

should_fire-due :
    (now : ℕ) (r : Registration)
    → should_fire now r ≡ true
    → (r.next_fire_at ≤ now) × (r.next_fire_at ≡ 0 → ⊥)
unfolding should_fire
should_fire-due now r e = ground arith

next-every : (d t : ℕ) (s : Schedule) → s ≡ every d → 0 < d → next s t ≡ t + d
unfolding next
next-every d t s e pos =
    rw e
      (elim (Bool-cases (d == 0)) [ inl z ↦ absurd (ground (arith, z, pos)) | inr z ↦ rw z refl ])

next-once : (at t : ℕ) (s : Schedule) → s ≡ once at → at < t → next s t ≡ 0
unfolding next
next-once at t s e late =
    rw e (elim (Bool-cases (ltb at t)) [
      | inl l ↦ rw l refl
      | inr l ↦ absurd (ground (arith, l, late))
    ])

next_once_at : (at : ℕ) (s : Schedule) → s ≡ once at → next s at ≡ at
unfolding next
next_once_at at s e =
    rw e (elim (Bool-cases (ltb at at)) [ inl l ↦ absurd (ground (arith, l)) | inr l ↦ rw l refl ])

fired-paused :
    (now : ℕ) (r : Registration)
    → is_fired (prepare_fire now r).1 ≡ true
    → (prepare_fire now r).0.paused ≡ false
unfolding prepare_fire
fired-paused now r e = ground arith

idle-due :
    (now : ℕ) (r : Registration)
    → r.paused ≡ false
    → 0 < r.next_fire_at
    → r.next_fire_at ≤ now
    → should_fire now (mark_idle r) ≡ true
unfolding should_fire mark_idle
idle-due now r e pos late = ground arith

-- After a fire of an `Every(d)` registration with a positive `d` at `now`, whatever pauses, later
-- resumptions and outcomes follow, the next fire is due at `now + d` at the earliest.
pub every_spacing :
    (d now now' : ℕ) (r : Registration) (acts : List Act)
    → r.sched ≡ every d
    → 0 < d
    → is_fired (prepare_fire now r).1 ≡ true
    → All (IsSince now) acts
    → should_fire now' (perform_all acts (prepare_fire now r).0) ≡ true
    → now + d ≤ now'
every_spacing d now now' r acts e pos fired since due =
    let (n, s) = fired-next now r fired in
    let kept =
      perform_all-keeps (λ sched at. (sched ≡ every d) × (now + d ≤ at)) now
        (λ t sched at h p. (p.0, omega (arith, next-every d t sched p.0 pos, h))) acts
        (prepare_fire now r).0 since (s ∙ e, omega (arith, n, next-every d now r.sched e pos)) in
    omega (arith, kept.1, (should_fire-due now' (perform_all acts (prepare_fire now r).0) due).0)

-- After a fire of a `Once(at)` registration later than `at`, it never fires again, whatever pauses,
-- later resumptions and outcomes follow.
pub once_only :
    (at now now' : ℕ) (r : Registration) (acts : List Act)
    → r.sched ≡ once at
    → at < now
    → is_fired (prepare_fire now r).1 ≡ true
    → All (IsSince now) acts
    → should_fire now' (perform_all acts (prepare_fire now r).0) ≡ false
once_only at now now' r acts e late fired since =
    let (n, s) = fired-next now r fired in
    let kept =
      perform_all-keeps (λ sched at'. (sched ≡ once at) × (at' ≡ 0)) now
        (λ t sched at' h p. (p.0, next-once at t sched p.0 (omega (arith, late, h)))) acts
        (prepare_fire now r).0 since (s ∙ e, n ∙ next-once at now r.sched e late) in
    elim (Bool-cases (should_fire now' (perform_all acts (prepare_fire now r).0))) [
      | inl due ↦
          absurd ((should_fire-due now' (perform_all acts (prepare_fire now r).0) due).1 kept.1)
      | inr idle ↦ idle
    ]

-- A `Once(at)` registration that fires exactly at `at` is due once more at every later time, as soon
-- as its fire has ended.
pub once_again :
    (at now : ℕ) (r : Registration)
    → r.sched ≡ once at
    → 0 < at
    → at ≤ now
    → is_fired (prepare_fire at r).1 ≡ true
    → should_fire now (mark_idle (prepare_fire at r).0) ≡ true
once_again at now r e pos late fired =
    let p : (prepare_fire at r).0.next_fire_at ≡ at =
      (fired-next at r fired).0 ∙ next_once_at at r.sched e in
    idle-due now (prepare_fire at r).0 (fired-paused at r fired) (omega (arith, p, pos))
      (omega (arith, p, late))
