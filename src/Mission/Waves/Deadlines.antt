-- ===== src/Mission/Waves/Deadlines.antt =====
-- The waiting loop and the deadlines: whom it times out, and when it is over.
use hugen.Prelude.{
  ℕ, zero, suc, ◌+◌, ◌≤◌, ◌<◌, ◌==◌, ◌≡◌, refl, sym, ap, subst, ◌∙◌, inl, inr, Bool, true, false,
  some, List, [], ◌∷◌, arith, Bool-cases, All, get_elem?,
}
use hugen.Prelude.Text.{Text, text_eq, text_eq_iff}
use hugen.Mission.Handoffs.{get}
use hugen.Mission.Waves.{
  is_some, PendingWorker, Instant, Verdicts, no_verdicts, has, settled, landed, is_hitl_waiting,
  credit_block, poll_one, poll, Waited, finished, interrupted, waiting, wait_rounds,
  wait_for_workers,
}
use hugen.Mission.Waves.Clock.{
  look, clock, InTime, blocked_time, IsFresh, clock-blocked, clock-deadline,
}
use hugen.Mission.Waves.Rounds.{
  looks, unwind, Ordered, InTime-looks, Tracked, Ways, passed, lands, blocks, overruns, goes_on,
  ways, settled_mono, cancel-sets, credit-kept, ticked, all_later-Tracked, poll-Tracked,
}

-- A worker of the wave whose deadline, moved by the time for which it was seen waiting for a human,
-- had passed in a round that saw neither its hand-off nor it waiting.
pub record Overran (workers : List PendingWorker) (rounds : List Instant) (ref : Text)
    : Type 0 where
  pub worker : PendingWorker
  pub index : ℕ
  pub there : get_elem? workers index ≡ some worker
  pub same_ref : worker.ref ≡ ref
  pub past : List Instant
  pub round : Instant
  pub later : List Instant
  pub split : unwind past (round ∷ later) ≡ rounds
  pub not_landed : landed round worker ≡ false
  pub not_waiting : is_hitl_waiting worker.session_id round.hitl_waiting ≡ false
  pub over : worker.deadline + blocked_time (looks worker.session_id (round ∷ past)) < round.now

abbrev pub verdicts : Waited → Verdicts
verdicts (finished v) = v
verdicts (interrupted v) = v
verdicts (waiting v) = v

-- The rounds go on in time after the instant `t`.
abbrev pub Rising : ℕ → List Instant → Type 0
Rising t [] = Unit
Rising t (i ∷ is) = (t ≤ i.now) × Rising i.now is

abbrev pub last_now : List Instant → ℕ
last_now [] = 1
last_now (i ∷ h) = i.now

pub cons-Ordered :
    (h : List Instant) (i : Instant) → Ordered h → last_now h ≤ i.now → Ordered (i ∷ h)
cons-Ordered [] i o l = l
cons-Ordered (j ∷ h) i o l = (l, o)

pub All-get :
    {A : Type 0} (P : A → Type 0) (xs : List A) (k : ℕ) (a : A)
    → All P xs
    → get_elem? xs k ≡ some a
    → P a
All-get P [] k a h e = cc
All-get P (x ∷ xs) zero a h e = (let p : x ≡ a = cc in subst P p h.0)
All-get P (x ∷ xs) (suc k) a h e = All-get P xs k a h.1 e

All-has : (P : Text → Type 0) (xs : List Text) (r : Text) → All P xs → has r xs ≡ true → P r
unfolding has
All-has P [] r h e = cc
All-has P (x ∷ xs) r h e = elim (Bool-cases (text_eq x r)) [
  | inl f ↦ subst P ((text_eq_iff x r).0 f) h.0
  | inr f ↦ All-has P xs r h.1 (rw f at e)
]

module _ (workers : List PendingWorker) where
  -- In a round that does not see it waiting, the worker's clock shows its moved deadline.
  pub shown :
      (h : List Instant) (i : Instant) (v : Verdicts) (w : PendingWorker)
      (k : Tracked workers h v w)
      → Ordered (i ∷ h)
      → settled w.ref v ≡ false
      → is_hitl_waiting w.session_id i.hitl_waiting ≡ false
      → (credit_block i.now w).deadline + (credit_block i.now w).block_accum
        ≡ k.origin.deadline + blocked_time (looks k.origin.session_id (i ∷ h))
  unfolding look
  shown h i v w k o a c =
      let s : is_hitl_waiting k.origin.session_id i.hitl_waiting ≡ false =
        ap (λ (x : Text). is_hitl_waiting x i.hitl_waiting) (sym k.session_kept) ∙ c in
      let e : credit_block i.now w ≡ clock (looks k.origin.session_id (i ∷ h)) k.origin =
        ticked workers h i false v v w k a c in
      let ls = looks k.origin.session_id h in
      let time : InTime ((i.now, false) ∷ ls) =
        subst (λ (b : Bool). InTime ((i.now, b) ∷ ls)) s
          (InTime-looks k.origin.session_id (i ∷ h) o) in
      let d = clock-deadline ((i.now, false) ∷ ls) k.origin in
      let c' = clock-blocked i.now ls k.origin time k.fresh in
      let e' : credit_block i.now w ≡ clock ((i.now, false) ∷ ls) k.origin =
        e ∙ ap (λ (b : Bool). clock ((i.now, b) ∷ ls) k.origin) s in
      rw (e', s) (omega (arith, d, c'))

  step-Overran :
      (t : Bool) (h : List Instant) (i : Instant) (later rounds : List Instant) (v : Verdicts)
      (w : PendingWorker) (p : PendingWorker × Verdicts × ℕ)
      → Ways t i w v p
      → Tracked workers h v w
      → Ordered (i ∷ h)
      → unwind h (i ∷ later) ≡ rounds
      → All (Overran workers rounds) v.timed_out
      → All (Overran workers rounds) p.1.timed_out
  step-Overran t h i later rounds v w _ (passed a) k o s g = g
  step-Overran t h i later rounds v w _ (lands a) k o s g = g
  step-Overran t h i later rounds v w _ (blocks a b) k o s g = g
  step-Overran t h i later rounds v w _ (goes_on a b c) k o s g = g
  step-Overran t h i later rounds v w _ (overruns a b c d) k o s g =
      let w' = credit_block i.now w in
      let e = cancel-sets t w' (record v { timed_out = w'.ref ∷ v.timed_out }) in
      let q = shown h i v w k o a c in
      rw e.1 (
        record {
          worker = k.origin;
          index = k.index;
          there = k.there;
          same_ref = sym ((credit-kept i.now w).0 ∙ k.ref_kept);
          past = h;
          round = i;
          later = later;
          split = s;
          not_landed = ap (λ (x : Text). is_some (get x i.handoffs)) (sym k.ref_kept) ∙ b;
          not_waiting =
              ap (λ (x : Text). is_hitl_waiting x i.hitl_waiting) (sym k.session_kept) ∙ c;
          over = omega (arith, d, q);
        },
        g,
      )

  poll-Overran :
      (t : Bool) (h : List Instant) (i : Instant) (later rounds : List Instant)
      (ws : List PendingWorker) (v : Verdicts)
      → All (Tracked workers h v) ws
      → Ordered (i ∷ h)
      → unwind h (i ∷ later) ≡ rounds
      → All (Overran workers rounds) v.timed_out
      → All (Overran workers rounds) (poll t i ws v).1.timed_out
  unfolding poll
  poll-Overran t h i later rounds [] v k o s g = g
  poll-Overran t h i later rounds (w ∷ ws) v k o s g =
      let p = poll_one t i w v in
      poll-Overran t h i later rounds ws p.1
        (all_later-Tracked workers h v p.1 ws (λ r. settled_mono t i w v p r (ways t i w v)) k.1) o
        s (step-Overran t h i later rounds v w p (ways t i w v) k.0 o s g)

  wait_rounds-Overran :
      (t : Bool) (h is rounds : List Instant) (ws : List PendingWorker) (v : Verdicts)
      → All (Tracked workers h v) ws
      → Ordered h
      → Rising (last_now h) is
      → unwind h is ≡ rounds
      → All (Overran workers rounds) v.timed_out
      → All (Overran workers rounds) (verdicts (wait_rounds t is ws v)).timed_out
  unfolding wait_rounds
  wait_rounds-Overran t h [] rounds ws v k o r s g = g
  wait_rounds-Overran t h (i ∷ is) rounds ws v k o r s g =
      let o' = cons-Ordered h i o r.0 in
      let now = poll-Overran t h i is rounds ws v k o' s g in
      elim (Bool-cases ((poll t i ws v).2 == 0)) [
        | inl e ↦ rw e now
        | inr e ↦ rw e (elim (Bool-cases i.ctx_done) [
          | inl f ↦ rw f now
          | inr f ↦ rw f (
              wait_rounds-Overran t (i ∷ h) is rounds (poll t i ws v).0 (poll t i ws v).1
                (poll-Tracked workers t h i ws v k) o' r.1 s now)
        ])
      ]

pub start-Tracked :
    (full ws : List PendingWorker) (f : ℕ → ℕ)
    → ((k : ℕ) (w : PendingWorker) → get_elem? ws k ≡ some w → get_elem? full (f k) ≡ some w)
    → All IsFresh ws
    → All (Tracked full [] no_verdicts) ws
unfolding clock
start-Tracked full [] f h g = tt
start-Tracked full (w ∷ ws) f h g = (
  record {
    origin = w;
    index = f 0;
    there = h 0 w refl;
    fresh = g.0;
    ref_kept = refl;
    session_kept = refl;
    state = inr refl;
  },
  start-Tracked full ws (λ k. f (suc k)) (λ k x e. h (suc k) x e) g.1,
)

wait-Overran :
    (t : Bool) (rounds : List Instant) (ws : List PendingWorker)
    → All IsFresh ws
    → Rising 1 rounds
    → All (Overran ws rounds) (verdicts (wait_for_workers t rounds ws)).timed_out
unfolding wait_for_workers
wait-Overran t rounds [] f r = tt
wait-Overran t rounds (w ∷ ws) f r =
    wait_rounds-Overran (w ∷ ws) t [] rounds rounds (w ∷ ws) no_verdicts
      (start-Tracked (w ∷ ws) (w ∷ ws) (λ k. k) (λ k x e. e) f) tt r refl tt

-- Over rounds whose times do not fall, and none is 0: whatever worker the loop times out has overrun
-- in some round, which saw neither its hand-off nor it waiting for a human, while its deadline, moved by
-- the whole time for which the rounds before saw it waiting, had passed.
pub timed_out-Overran :
    (terminator : Bool) (rounds : List Instant) (workers : List PendingWorker) (ref : Text)
    → All IsFresh workers
    → Rising 1 rounds
    → has ref (verdicts (wait_for_workers terminator rounds workers)).timed_out ≡ true
    → Overran workers rounds ref
timed_out-Overran terminator rounds workers ref f r h =
    All-has (Overran workers rounds) _ ref (wait-Overran terminator rounds workers f r) h
