-- ===== src/Runner/Overlap.antt =====
-- The fires of one registration: never two at a time, and numbered one after the other.
use hugen.Prelude.{
  ℕ, suc, ◌≤◌, ◌==◌, ltb, ◌≡◌, refl, sym, ap, subst, length-append, ◌∙◌, inl, inr, Bool, true,
  false, ◌||◌, Option, none, some, List, [], ◌∷◌, ◌++◌, arith, length, if◌then◌else◌, Bool-cases,
}
use hugen.Runner.{
  Schedule, Registration, Outcome, Options, Fire, new_registration, pause, resume, reschedule,
  should_fire, prepare_fire, tick_once, mark_idle, record_outcome,
}

-- A registration, the fires whose goroutine runs, and all fires so far, the newest first.
pub record World : Type 0 where
  pub reg : Registration
  pub running : List Fire
  pub fired : List Fire

abbrev pub started : World → Registration × Option Fire → World
started w (r, none) = record w { reg = r }
started w (r, some f) = record { reg = r; running = f ∷ w.running; fired = f ∷ w.fired }

-- The steps that may interleave. A goroutine records its outcome while it runs, and marks the
-- registration idle as its last act.
pub data Step (w : World) : World → Type 0 where
  ticks : (now now' : ℕ) → Step w (started w (tick_once now now' w.reg))
  pauses : Step w (record w { reg = pause w.reg })
  resumes : (now : ℕ) → Step w (record w { reg = resume now w.reg })
  reschedules : (at : ℕ) → Step w (record w { reg = reschedule at w.reg })
  records :
      (pre : List Fire) (f : Fire) (rest : List Fire) (at : ℕ) (o : Outcome) (success : Bool)
      → w.running ≡ pre ++ f ∷ rest
      → Step w (record w { reg = record_outcome at o success w.reg })
  ends :
      (pre : List Fire) (f : Fire) (rest : List Fire)
      → w.running ≡ pre ++ f ∷ rest
      → Step w (record w { reg = mark_idle w.reg; running = pre ++ rest })

pub data Steps : World → World → Type 0 where
  stay : (w : World) → Steps w w
  then_step : (w w' w'' : World) → Steps w w' → Step w' w'' → Steps w w''

abbrev pub fresh : Registration → World
fresh r = record { reg = r; running = []; fired = [] }

-- The newest fire has the number `n`, and the ones before it the numbers down to `base + 1`.
abbrev pub IsNumbered : ℕ → ℕ → List Fire → Type 0
IsNumbered base n [] = n ≡ base
IsNumbered base n (f ∷ fs) = (m : ℕ) × (n ≡ suc m) × (f.seq ≡ n) × IsNumbered base m fs

-- The mark says whether a fire runs, no two run, and the fires are numbered without a gap.
pub record IsExclusive (base : ℕ) (w : World) : Type 0 where
  pub marked : length w.running ≡ (if w.reg.in_flight then 1 else 0)
  pub numbered : IsNumbered base w.reg.fire_count w.fired

at_most_one : (b : Bool) (n : ℕ) → n ≡ (if b then 1 else 0) → n ≤ 1
at_most_one true n e = omega (arith, e)
at_most_one false n e = omega (arith, e)

-- A registration in the same place of its fires.
same_fires :
    (base : ℕ) (w : World) (r : Registration)
    → r.in_flight ≡ w.reg.in_flight
    → r.fire_count ≡ w.reg.fire_count
    → IsExclusive base w
    → IsExclusive base (record w { reg = r })
same_fires base w r e e' h = record {
  marked = h.marked ∙ ap (λ (b : Bool). if b then 1 else 0) (sym e);
  numbered = subst (λ (n : ℕ). IsNumbered base n w.fired) (sym e') h.numbered;
}

not_in_flight : (p q r : Bool) → (p || (q || r)) ≡ false → q ≡ false
not_in_flight p q r e = ground arith

prepared :
    (base now : ℕ) (w : World)
    → IsExclusive base w
    → IsExclusive base (started w (prepare_fire now w.reg))
unfolding prepare_fire
prepared base now w h =
    elim (Bool-cases (w.reg.paused || (w.reg.in_flight || w.reg.next_fire_at == 0))) [
      | inl e ↦ simp e h
      | inr e ↦ elim (Bool-cases (ltb now w.reg.next_fire_at)) [
        | inl l ↦ simp (e, l) h
        | inr l ↦
            (let idle : length w.running ≡ 0 =
                h.marked
                ∙ ap (λ (b : Bool). if b then 1 else 0)
                    (not_in_flight w.reg.paused w.reg.in_flight _ e) in
              simp (e, l)
                (record {
                  marked = ap suc idle;
                  numbered = (w.reg.fire_count, refl, refl, h.numbered);
                }))
      ]
    ]

Step-IsExclusive : (base : ℕ) (w w' : World) → IsExclusive base w → Step w w' → IsExclusive base w'
unfolding tick_once pause resume reschedule record_outcome mark_idle
Step-IsExclusive base w w' h (ticks now now') = elim (Bool-cases (should_fire now w.reg)) [
  | inl f ↦ simp (f, tick_once) (prepared base now' w h)
  | inr f ↦ simp (f, tick_once) h
]
Step-IsExclusive base w w' h pauses = same_fires base w (pause w.reg) refl refl h
Step-IsExclusive base w w' h (resumes now) = same_fires base w (resume now w.reg) refl refl h
Step-IsExclusive base w w' h (reschedules at) = same_fires base w (reschedule at w.reg) refl refl h
Step-IsExclusive base w w' h (records pre f rest at o success e) =
    same_fires base w (record_outcome at o success w.reg) (ground arith) (ground arith) h
Step-IsExclusive base w w' h (ends pre f rest e) = record {
  marked = omega (
    arith,
    at_most_one w.reg.in_flight (length w.running) h.marked,
    ap length e,
    length-append pre (f ∷ rest),
    length-append pre rest,
  );
  numbered = h.numbered;
}

Steps-IsExclusive :
    (base : ℕ) (w w' : World) → IsExclusive base w → Steps w w' → IsExclusive base w'
Steps-IsExclusive base w _ h (stay _) = h
Steps-IsExclusive base w w'' h (then_step _ w' _ s t) =
    Step-IsExclusive base w' w'' (Steps-IsExclusive base w w' h s) t

-- Whatever ticks, goroutines and calls on a new registration interleave, at most one of its fires
-- runs at a time, and its fires are numbered one after the other from its first sequence number.
pub no_overlap :
    (sched : Schedule) (o : Options) (now : ℕ) (w : World)
    → Steps (fresh (new_registration sched o now)) w
    → (length w.running ≤ 1)
      × IsNumbered (new_registration sched o now).fire_count w.reg.fire_count w.fired
unfolding new_registration
no_overlap sched o now w s =
    let h =
      Steps-IsExclusive (new_registration sched o now).fire_count _ w
        (record { marked = refl; numbered = refl }) s in
    (at_most_one w.reg.in_flight (length w.running) h.marked, h.numbered)
