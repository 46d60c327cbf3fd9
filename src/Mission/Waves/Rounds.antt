-- ===== src/Mission/Waves/Rounds.antt =====
-- The rounds of the waiting loop: what each does with a worker, and that the workers' clocks follow.
use hugen.Prelude.{
  ℕ, ◌+◌, ◌≤◌, ◌<◌, ltb, ◌≡◌, sym, ap, ◌∙◌, ◌⊎◌, inl, inr, Bool, true, false, ◌||◌, some, List, [],
  ◌∷◌, arith, Bool-cases, All, get_elem?,
}
use hugen.Prelude.Text.{Text, text_eq_refl}
use hugen.Mission.Waves.{
  PendingWorker, Instant, Verdicts, has, settled, landed, is_hitl_waiting, start_block,
  credit_block, cancel_timed_out_worker, poll_one, poll,
}
use hugen.Mission.Waves.Clock.{Look, look, clock, InTime, IsFresh}

-- What the rounds, the newest first, see of a session.
abbrev pub looks : Text → List Instant → List Look
looks id [] = []
looks id (i ∷ older) = (i.now, is_hitl_waiting id i.hitl_waiting) ∷ looks id older

-- The rounds in the order in which they came, from the past ones and those to come.
abbrev pub unwind : List Instant → List Instant → List Instant
unwind [] rest = rest
unwind (i ∷ older) rest = unwind older (i ∷ rest)

abbrev pub Ordered : List Instant → Type 0
Ordered [] = Unit
Ordered (i ∷ []) = 0 < i.now
Ordered (i ∷ j ∷ older) = (j.now ≤ i.now) × Ordered (j ∷ older)

pub InTime-looks : (id : Text) (h : List Instant) → Ordered h → InTime (looks id h)
InTime-looks id [] o = tt
InTime-looks id (i ∷ []) o = o
InTime-looks id (i ∷ j ∷ older) o = (o.0, InTime-looks id (j ∷ older) o.1)

-- A worker in the loop, behind the rounds `h`.
pub record Tracked (workers : List PendingWorker) (h : List Instant) (v : Verdicts)
    (w : PendingWorker) : Type 0 where
  pub origin : PendingWorker
  pub index : ℕ
  pub there : get_elem? workers index ≡ some origin
  pub fresh : IsFresh origin
  pub ref_kept : w.ref ≡ origin.ref
  pub session_kept : w.session_id ≡ origin.session_id
  pub state : (settled w.ref v ≡ true) ⊎ (w ≡ clock (looks origin.session_id h) origin)

has_cons : (r x : Text) (xs : List Text) → has r xs ≡ true → has r (x ∷ xs) ≡ true
unfolding has
has_cons r x xs e = ground arith

pub cancel-sets :
    (t : Bool) (w : PendingWorker) (v : Verdicts)
    → ((cancel_timed_out_worker t w v).done ≡ v.done)
      × ((cancel_timed_out_worker t w v).timed_out ≡ v.timed_out)
unfolding cancel_timed_out_worker
cancel-sets t w v = (ground arith, ground arith)

start-kept :
    (now : ℕ) (w : PendingWorker)
    → ((start_block now w).ref ≡ w.ref) × ((start_block now w).session_id ≡ w.session_id)
unfolding start_block
start-kept now w = (ground arith, ground arith)

pub credit-kept :
    (now : ℕ) (w : PendingWorker)
    → ((credit_block now w).ref ≡ w.ref) × ((credit_block now w).session_id ≡ w.session_id)
unfolding credit_block
credit-kept now w = (ground arith, ground arith)

-- The four ways of a round with a worker.
pub data Ways (t : Bool) (i : Instant) (w : PendingWorker) (v : Verdicts)
    : PendingWorker × Verdicts × ℕ → Type 0 where
  passed : settled w.ref v ≡ true → Ways t i w v (w, v, 0)
  lands : landed i w ≡ true → Ways t i w v (w, record v { done = w.ref ∷ v.done }, 0)
  blocks :
      settled w.ref v ≡ false
      → is_hitl_waiting w.session_id i.hitl_waiting ≡ true
      → Ways t i w v (start_block i.now w, v, 1)
  overruns :
      settled w.ref v ≡ false
      → landed i w ≡ false
      → is_hitl_waiting w.session_id i.hitl_waiting ≡ false
      → (credit_block i.now w).deadline + (credit_block i.now w).block_accum < i.now
      → Ways t i w v (
        credit_block i.now w,
        cancel_timed_out_worker t
            (credit_block i.now w)
            (record v { timed_out = (credit_block i.now w).ref ∷ v.timed_out }),
        0,
      )
  goes_on :
      settled w.ref v ≡ false
      → is_hitl_waiting w.session_id i.hitl_waiting ≡ false
      → i.now ≤ (credit_block i.now w).deadline + (credit_block i.now w).block_accum
      → Ways t i w v (credit_block i.now w, v, 1)

pub ways :
    (t : Bool) (i : Instant) (w : PendingWorker) (v : Verdicts) → Ways t i w v (poll_one t i w v)
unfolding poll_one
ways t i w v = elim (Bool-cases (settled w.ref v)) [
  | inl a ↦ rw a (passed a)
  | inr a ↦ rw a (elim (Bool-cases (landed i w)) [
    | inl b ↦ rw b (lands b)
    | inr b ↦ rw b (elim (Bool-cases (is_hitl_waiting w.session_id i.hitl_waiting)) [
      | inl c ↦ rw c (blocks a c)
      | inr c ↦
          rw c
            (elim (Bool-cases
              (ltb ((credit_block i.now w).deadline + (credit_block i.now w).block_accum) i.now)) [
                | inl d ↦ rw d (overruns a b c (ground arith))
                | inr d ↦ rw d (goes_on a c (ground arith))
              ])
    ])
  ])
]

pub settled_mono :
    (t : Bool) (i : Instant) (w : PendingWorker) (v : Verdicts) (p : PendingWorker × Verdicts × ℕ)
    (r : Text)
    → Ways t i w v p
    → settled r v ≡ true
    → settled r p.1 ≡ true
unfolding has
settled_mono t i w v _ r (passed a) h = h
settled_mono t i w v _ r (lands a) h = ground arith
settled_mono t i w v _ r (blocks a b) h = h
settled_mono t i w v _ r (overruns a b c d) h =
    let e =
      cancel-sets t (credit_block i.now w)
        (record v { timed_out = (credit_block i.now w).ref ∷ v.timed_out }) in
    rw (e.0, e.1) (ground arith)
settled_mono t i w v _ r (goes_on a b c) h = h

pub poll_mono :
    (t : Bool) (i : Instant) (ws : List PendingWorker) (v : Verdicts) (r : Text)
    → settled r v ≡ true
    → settled r (poll t i ws v).1 ≡ true
unfolding poll
poll_mono t i [] v r h = h
poll_mono t i (w ∷ ws) v r h =
    poll_mono t i ws (poll_one t i w v).1 r
      (settled_mono t i w v (poll_one t i w v) r (ways t i w v) h)

module _ (workers : List PendingWorker) where
  -- A step of the worker's clock.
  pub unsettled-state :
      (h : List Instant) (v : Verdicts) (w : PendingWorker) (k : Tracked workers h v w)
      → settled w.ref v ≡ false
      → w ≡ clock (looks k.origin.session_id h) k.origin
  unsettled-state h v w k a = elim k.state [ inl e ↦ absurd (cc) | inr e ↦ e ]

  pub ticked :
      (h : List Instant) (i : Instant) (b : Bool) (v v' : Verdicts) (w : PendingWorker)
      (k : Tracked workers h v w)
      → settled w.ref v ≡ false
      → is_hitl_waiting w.session_id i.hitl_waiting ≡ b
      → look (i.now, b) w ≡ clock (looks k.origin.session_id (i ∷ h)) k.origin
  unfolding clock
  ticked h i b v v' w k a c =
      let e = unsettled-state h v w k a in
      let s : is_hitl_waiting k.origin.session_id i.hitl_waiting ≡ b =
        ap (λ (x : Text). is_hitl_waiting x i.hitl_waiting) (sym k.session_kept) ∙ c in
      rw s (ap (look (i.now, b)) e)

  has_self : (r : Text) (xs ys : List Text) → (has r xs || has r (r ∷ ys)) ≡ true
  unfolding has
  has_self r xs ys = let e = text_eq_refl r in ground arith

  pub step-Tracked :
      (t : Bool) (h : List Instant) (i : Instant) (v : Verdicts) (w : PendingWorker)
      (p : PendingWorker × Verdicts × ℕ)
      → Ways t i w v p
      → Tracked workers h v w
      → Tracked workers (i ∷ h) p.1 p.0
  unfolding has look
  step-Tracked t h i v w _ (passed a) k = record {
    origin = k.origin;
    index = k.index;
    there = k.there;
    fresh = k.fresh;
    ref_kept = k.ref_kept;
    session_kept = k.session_kept;
    state = inl a;
  }
  step-Tracked t h i v w _ (lands a) k =
      let e = text_eq_refl w.ref in
      record {
        origin = k.origin;
        index = k.index;
        there = k.there;
        fresh = k.fresh;
        ref_kept = k.ref_kept;
        session_kept = k.session_kept;
        state = inl (ground arith);
      }
  step-Tracked t h i v w _ (blocks a b) k =
      let s = start-kept i.now w in
      record {
        origin = k.origin;
        index = k.index;
        there = k.there;
        fresh = k.fresh;
        ref_kept = s.0 ∙ k.ref_kept;
        session_kept = s.1 ∙ k.session_kept;
        state = inr (ticked h i true v v w k a b);
      }
  step-Tracked t h i v w _ (overruns a b c d) k =
      let s = credit-kept i.now w in
      let w' = credit_block i.now w in
      let e = cancel-sets t w' (record v { timed_out = w'.ref ∷ v.timed_out }) in
      record {
        origin = k.origin;
        index = k.index;
        there = k.there;
        fresh = k.fresh;
        ref_kept = s.0 ∙ k.ref_kept;
        session_kept = s.1 ∙ k.session_kept;
        state = inl (rw (e.0, e.1) (has_self w'.ref v.done v.timed_out));
      }
  step-Tracked t h i v w _ (goes_on a b c) k =
      let s = credit-kept i.now w in
      record {
        origin = k.origin;
        index = k.index;
        there = k.there;
        fresh = k.fresh;
        ref_kept = s.0 ∙ k.ref_kept;
        session_kept = s.1 ∙ k.session_kept;
        state = inr (ticked h i false v v w k a b);
      }

  later-Tracked :
      (h : List Instant) (v v' : Verdicts) (w : PendingWorker)
      → ((r : Text) → settled r v ≡ true → settled r v' ≡ true)
      → Tracked workers h v w
      → Tracked workers h v' w
  later-Tracked h v v' w m k = record {
    origin = k.origin;
    index = k.index;
    there = k.there;
    fresh = k.fresh;
    ref_kept = k.ref_kept;
    session_kept = k.session_kept;
    state = elim k.state [ inl e ↦ inl (m w.ref e) | inr e ↦ inr e ];
  }

  pub all_later-Tracked :
      (h : List Instant) (v v' : Verdicts) (ws : List PendingWorker)
      → ((r : Text) → settled r v ≡ true → settled r v' ≡ true)
      → All (Tracked workers h v) ws
      → All (Tracked workers h v') ws
  all_later-Tracked h v v' [] m k = tt
  all_later-Tracked h v v' (w ∷ ws) m k =
      (later-Tracked h v v' w m k.0, all_later-Tracked h v v' ws m k.1)

  pub poll-Tracked :
      (t : Bool) (h : List Instant) (i : Instant) (ws : List PendingWorker) (v : Verdicts)
      → All (Tracked workers h v) ws
      → All (Tracked workers (i ∷ h) (poll t i ws v).1) (poll t i ws v).0
  unfolding poll
  poll-Tracked t h i [] v k = tt
  poll-Tracked t h i (w ∷ ws) v k =
      let p = poll_one t i w v in
      let one : Tracked workers (i ∷ h) p.1 p.0 = step-Tracked t h i v w p (ways t i w v) k.0 in
      (
        later-Tracked (i ∷ h) p.1 (poll t i ws p.1).1 p.0 (poll_mono t i ws p.1) one,
        poll-Tracked t h i ws p.1
            (all_later-Tracked h v p.1 ws (λ r. settled_mono t i w v p r (ways t i w v)) k.1),
      )
