-- ===== src/Mission/Waves/Ending.antt =====
-- The waiting loop ends.
use hugen.Prelude.{
  ℕ, ◌+◌, ◌<◌, ◌==◌, ◌≡◌, refl, ap, ◌∙◌, inl, inr, Bool, true, false, List, [], ◌∷◌, ◌++◌, arith,
  Bool-cases, All,
}
use hugen.Prelude.Text.{Text}
use hugen.Mission.Waves.{
  PendingWorker, Instant, Verdicts, no_verdicts, is_hitl_waiting, poll_one, poll, Waited, finished,
  interrupted, waiting, wait_rounds, wait_for_workers,
}
use hugen.Mission.Waves.Clock.{blocked_time, IsFresh}
use hugen.Mission.Waves.Rounds.{
  looks, unwind, Ordered, Tracked, Ways, passed, lands, blocks, overruns, goes_on, ways,
  settled_mono, all_later-Tracked, poll-Tracked,
}
use hugen.Mission.Waves.Deadlines.{Rising, last_now, cons-Ordered, All-get, shown, start-Tracked}

abbrev pub is_over : Waited → Bool
is_over (finished v) = true
is_over (interrupted v) = true
is_over (waiting v) = false

-- The round, behind the past ones, does not see the worker waiting for a human, and comes after its
-- deadline, moved by the time for which it was seen waiting.
abbrev pub IsDue : List Instant → Instant → PendingWorker → Type 0
IsDue past round w =
    (is_hitl_waiting w.session_id round.hitl_waiting ≡ false)
    × (w.deadline + blocked_time (looks w.session_id (round ∷ past)) < round.now)

module _ (workers : List PendingWorker) where
  step-ends :
      (t : Bool) (h : List Instant) (i : Instant) (v : Verdicts) (w : PendingWorker)
      (p : PendingWorker × Verdicts × ℕ)
      → Ways t i w v p
      → Tracked workers h v w
      → Ordered (i ∷ h)
      → All (IsDue h i) workers
      → p.2 ≡ 0
  step-ends t h i v w _ (passed a) k o d = refl
  step-ends t h i v w _ (lands a) k o d = refl
  step-ends t h i v w _ (overruns a b c e) k o d = refl
  step-ends t h i v w _ (blocks a b) k o d =
      let due = All-get (IsDue h i) workers k.index k.origin d k.there in
      let s = ap (λ (x : Text). is_hitl_waiting x i.hitl_waiting) k.session_kept ∙ due.0 in
      absurd (cc)
  step-ends t h i v w _ (goes_on a b c) k o d =
      let due = All-get (IsDue h i) workers k.index k.origin d k.there in
      let s = shown workers h i v w k o a b in absurd (omega (arith, due.1, s, c))

  poll-ends :
      (t : Bool) (h : List Instant) (i : Instant) (ws : List PendingWorker) (v : Verdicts)
      → All (Tracked workers h v) ws
      → Ordered (i ∷ h)
      → All (IsDue h i) workers
      → (poll t i ws v).2 ≡ 0
  unfolding poll
  poll-ends t h i [] v k o d = refl
  poll-ends t h i (w ∷ ws) v k o d =
      let p = poll_one t i w v in
      let a = step-ends t h i v w p (ways t i w v) k.0 o d in
      let b =
        poll-ends t h i ws p.1
          (all_later-Tracked workers h v p.1 ws (λ r. settled_mono t i w v p r (ways t i w v)) k.1)
          o d in
      omega (arith, a, b)

  wait_rounds-ends :
      (t : Bool) (h before : List Instant) (i : Instant) (ws : List PendingWorker) (v : Verdicts)
      → All (Tracked workers h v) ws
      → Ordered h
      → Rising (last_now h) (before ++ i ∷ [])
      → All (IsDue (unwind before h) i) workers
      → is_over (wait_rounds t (before ++ i ∷ []) ws v) ≡ true
  unfolding wait_rounds
  wait_rounds-ends t h [] i ws v k o r d =
      let e = poll-ends t h i ws v k (cons-Ordered h i o r.0) d in rw e refl
  wait_rounds-ends t h (j ∷ before) i ws v k o r d =
      let o' = cons-Ordered h j o r.0 in
      elim (Bool-cases ((poll t j ws v).2 == 0)) [
        | inl e ↦ rw e refl
        | inr e ↦ rw e (elim (Bool-cases j.ctx_done) [
          | inl f ↦ rw f refl
          | inr f ↦ rw f (
              wait_rounds-ends t (j ∷ h) before i (poll t j ws v).0 (poll t j ws v).1
                (poll-Tracked workers t h j ws v k) o' r.1 d)
        ])
      ]

-- The loop is over at the latest with the first round that sees no worker waiting for a human and
-- comes after every deadline, each moved by the time for which the worker was seen waiting, whatever
-- the hand-offs, over rounds whose times do not fall, and none is 0.
pub wait_for_workers-ends :
    (terminator : Bool) (before : List Instant) (round : Instant) (workers : List PendingWorker)
    → All IsFresh workers
    → Rising 1 (before ++ round ∷ [])
    → All (IsDue (unwind before []) round) workers
    → is_over (wait_for_workers terminator (before ++ round ∷ []) workers) ≡ true
unfolding wait_for_workers
wait_for_workers-ends terminator before round [] f r d = refl
wait_for_workers-ends terminator before round (w ∷ ws) f r d =
    wait_rounds-ends (w ∷ ws) terminator [] before round (w ∷ ws) no_verdicts
      (start-Tracked (w ∷ ws) (w ∷ ws) (λ k. k) (λ k x e. e) f) tt r d
