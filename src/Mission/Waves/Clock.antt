-- ===== src/Mission/Waves/Clock.antt =====
-- The time that a worker's budget is charged: the bookkeeping of its blocks against the sum of the time
-- for which it was seen waiting for a human.
use hugen.Prelude.{
  ℕ, ◌+◌, ◌-◌, ◌≤◌, ◌<◌, ◌≡◌, refl, Bool, true, false, List, [], ◌∷◌, arith, if◌then◌else◌,
}
use hugen.Mission.Waves.{PendingWorker, start_block, credit_block}

-- What a round sees of a worker that it does not settle: the time, and whether it waits for a human.
abbrev pub Look : Type 0
Look = ℕ × Bool

-- The worker behind a round.
unfoldable pub look : Look → PendingWorker → PendingWorker
unfolding start_block credit_block
look (now, true) w = start_block now w
look (now, false) w = credit_block now w

-- The worker behind all rounds, of which the list has the newest first.
unfoldable pub clock : List Look → PendingWorker → PendingWorker
unfolding look
clock [] w = w
clock (l ∷ older) w = look l (clock older w)

-- The looks came in the order of time, none at the time 0.
abbrev pub InTime : List Look → Type 0
InTime [] = Unit
InTime (l ∷ []) = 0 < l.0
InTime (l ∷ l' ∷ older) = (l'.0 ≤ l.0) × InTime (l' ∷ older)

-- The sum of the times from each look that saw it waiting to the next look.
unfoldable pub blocked_time : List Look → ℕ
blocked_time [] = 0
blocked_time (l ∷ []) = 0
blocked_time (l ∷ l' ∷ older) = blocked_time (l' ∷ older) + (if l'.1 then l.0 - l'.0 else 0)

-- Behind a look at `t`: `total` is the time blocked so far, the running block's part included.
abbrev IsClock : ℕ → Bool → ℕ → PendingWorker → Type 0
IsClock t true total w =
    (0 < w.block_start) × (w.block_start ≤ t) × (w.block_accum + (t - w.block_start) ≡ total)
IsClock t false total w = (w.block_start ≡ 0) × (w.block_accum ≡ total)

look-IsClock :
    (t now : ℕ) (b b' : Bool) (total : ℕ) (w : PendingWorker)
    → 0 < t
    → t ≤ now
    → IsClock t b total w
    → IsClock now b' (total + (if b then now - t else 0)) (look (now, b') w)
unfolding look start_block credit_block
look-IsClock t now true true total w p q h = ground arith
look-IsClock t now true false total w p q h = ground arith
look-IsClock t now false true total w p q h = ground arith
look-IsClock t now false false total w p q h = ground arith

-- A worker before its first round.
abbrev pub IsFresh : PendingWorker → Type 0
IsFresh w = (w.block_accum ≡ 0) × (w.block_start ≡ 0)

InTime-pos : (l : Look) (older : List Look) → InTime (l ∷ older) → 0 < l.0
InTime-pos l [] h = h
InTime-pos l (l' ∷ older) h = let p = InTime-pos l' older h.1 in omega (arith, h.0)

clock-IsClock :
    (l : Look) (older : List Look) (w : PendingWorker)
    → InTime (l ∷ older)
    → IsFresh w
    → IsClock l.0 l.1 (blocked_time (l ∷ older)) (clock (l ∷ older) w)
unfolding clock blocked_time
clock-IsClock (now, b) [] w h f = look-IsClock now now false b 0 w h (omega arith) (f.1, f.0)
clock-IsClock (now, b) ((t, b') ∷ older) w h f =
    look-IsClock t now b' b (blocked_time ((t, b') ∷ older)) (clock ((t, b') ∷ older) w)
      (InTime-pos (t, b') older h.1) h.0 (clock-IsClock (t, b') older w h.1 f)

-- Where the newest look does not see the worker waiting, the time credited to it is the time for which
-- it was seen waiting.
pub clock-blocked :
    (now : ℕ) (older : List Look) (w : PendingWorker)
    → InTime ((now, false) ∷ older)
    → IsFresh w
    → (clock ((now, false) ∷ older) w).block_accum ≡ blocked_time ((now, false) ∷ older)
clock-blocked now older w h f = (clock-IsClock (now, false) older w h f).1

pub clock-deadline : (ls : List Look) (w : PendingWorker) → (clock ls w).deadline ≡ w.deadline
unfolding clock look start_block credit_block
clock-deadline [] w = refl
clock-deadline ((now, true) ∷ older) w = let e = clock-deadline older w in ground arith
clock-deadline ((now, false) ∷ older) w = let e = clock-deadline older w in ground arith
