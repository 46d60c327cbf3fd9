-- ===== src/Whiteboard/Eviction.antt =====
-- What `evictExcess` keeps: the oldest messages go, and no more of them than the caps demand.
use mathlib.Core.Bool.{false≢true}
use hugen.Prelude.{
  ℕ, ◌+◌, ◌-◌, ◌≤◌, ◌≡◌, ◌∙◌, sym, refl, ◌⊎◌, inl, inr, Bool, true, false, ◌&&◌, List, [], ◌∷◌,
  ◌++◌, arith, length, length-append, length-take, take, ltb, leb, All, Bool-cases, leb→le,
}
use hugen.Whiteboard.{
  Message, evict_count, evict_bytes, evict_excess, truncate, max_message_bytes, max_messages,
  max_total_bytes, truncation_marker,
}
use hugen.Prelude.Text.{Text}

abbrev pub size : List Message → ℕ
size [] = 0
size (m ∷ ms) = length m.text + size ms

abbrev pub fits : List Message → Bool
fits ms = leb (length ms) max_messages && leb (size ms) max_total_bytes

abbrev pub IsShort : Message → Type 0
IsShort m = length m.text ≤ max_message_bytes

-- `Evicted kept ms`: `kept` is the longest end of `ms` that fits, all longer ends do not.
pub data Evicted (kept : List Message) : List Message → Type 0 where
  stop : fits kept ≡ true → Evicted kept kept
  oldest :
      {m : Message} {ms : List Message}
      → fits (m ∷ ms) ≡ false
      → Evicted kept ms
      → Evicted kept (m ∷ ms)

-- The result of an eviction: the messages that fit, and their size.
abbrev pub Evicts : List Message → ℕ × List Message → Type 0
Evicts ms r = Evicted r.1 ms × (r.0 ≡ size r.1)

step-Evicts :
    (m : Message) (ms : List Message) (r : ℕ × List Message)
    → fits (m ∷ ms) ≡ false
    → Evicts ms r
    → Evicts (m ∷ ms) r
step-Evicts m ms r f e = (oldest f e.0, e.1)

fits-of_le :
    (ms : List Message) → length ms ≤ max_messages → size ms ≤ max_total_bytes → fits ms ≡ true
fits-of_le ms h k = ground arith

not-fits-of_count : (ms : List Message) → ltb max_messages (length ms) ≡ true → fits ms ≡ false
not-fits-of_count ms h = ground arith

not-fits-of_size : (ms : List Message) → ltb max_total_bytes (size ms) ≡ true → fits ms ≡ false
not-fits-of_size ms h = ground arith

evict_bytes-Evicts :
    (total : ℕ) (ms : List Message)
    → total ≡ size ms
    → All IsShort ms
    → length ms ≤ max_messages
    → Evicts ms (evict_bytes total ms)
unfolding evict_bytes
evict_bytes-Evicts total [] t h c = (stop (fits-of_le [] c (omega arith)), t)
evict_bytes-Evicts total (m ∷ []) t h c = (stop (fits-of_le (m ∷ []) c (omega arith)), t)
evict_bytes-Evicts total (m ∷ n ∷ ms) t h c = elim (Bool-cases (ltb max_total_bytes total)) [
  | inl e ↦ rw e (
      step-Evicts m (n ∷ ms) _ (not-fits-of_size (m ∷ n ∷ ms) (rw t at e))
        (evict_bytes-Evicts (total - length m.text) (n ∷ ms) (omega arith) h.1 (omega arith)))
  | inr e ↦ rw e (stop (fits-of_le (m ∷ n ∷ ms) c (ground arith)), t)
]

evict_excess-step :
    (total : ℕ) (m : Message) (ms : List Message)
    → ltb max_messages (length (m ∷ ms)) ≡ true
    → evict_excess total (m ∷ ms) ≡ evict_excess (total - length m.text) ms
unfolding evict_excess evict_count
evict_excess-step total m ms e = rw e

evict_excess-stop :
    (total : ℕ) (ms : List Message)
    → ltb max_messages (length ms) ≡ false
    → evict_excess total ms ≡ evict_bytes total ms
unfolding evict_excess evict_count
evict_excess-stop total [] e = refl
evict_excess-stop total (m ∷ ms) e = rw e

-- On messages of at most 4096 bytes and their right total, `evictExcess` removes the oldest messages
-- until the rest has at most 100 messages and 32768 bytes, and stops there; the total stays right.
pub evict_excess-Evicts :
    (total : ℕ) (ms : List Message)
    → total ≡ size ms
    → All IsShort ms
    → Evicts ms (evict_excess total ms)
evict_excess-Evicts total [] t h =
    rw evict_excess-stop (evict_bytes-Evicts total [] t h (omega arith))
evict_excess-Evicts total (m ∷ ms) t h = elim (Bool-cases (ltb max_messages (length (m ∷ ms)))) [
  | inl e ↦ rw (evict_excess-step total m ms e) (
      step-Evicts m ms _ (not-fits-of_count (m ∷ ms) e)
        (evict_excess-Evicts (total - length m.text) ms (omega arith) h.1))
  | inr e ↦
      rw (evict_excess-stop total (m ∷ ms) e) (evict_bytes-Evicts total (m ∷ ms) t h (ground arith))
]

pub Evicted-fits : {kept ms : List Message} → Evicted kept ms → fits kept ≡ true
Evicted-fits (stop f) = f
Evicted-fits (oldest f e) = Evicted-fits e

-- What holds of every message holds of those that are kept.
pub Evicted-All :
    {kept ms : List Message} (P : Message → Type 0) → Evicted kept ms → All P ms → All P kept
Evicted-All P (stop f) h = h
Evicted-All P (oldest f e) h = Evicted-All P e h.1

cut_length :
    (n : ℕ) (text : Text)
    → n + length truncation_marker ≤ max_message_bytes
    → length (take n text ++ truncation_marker) ≤ max_message_bytes
cut_length n text h =
    omega (arith, length-append (take n text) truncation_marker, length-take n text)

pub length-truncate-le : (text : Text) → length (truncate text).0 ≤ max_message_bytes
unfolding truncate
length-truncate-le text = elim (Bool-cases (leb (length text) max_message_bytes)) [
  | inl e ↦ rw e (leb→le _ _ e)
  | inr e ↦ rw e (cut_length (max_message_bytes - length truncation_marker) text (omega arith))
]

pub size-append : (xs ys : List Message) → size (xs ++ ys) ≡ size xs + size ys
size-append [] ys = omega arith
size-append (x ∷ xs) ys = omega (arith, size-append xs ys)

Evicted-inv :
    (kept : List Message) (m : Message) (ms : List Message)
    → Evicted kept (m ∷ ms)
    → (kept ≡ m ∷ ms) ⊎ ((fits (m ∷ ms) ≡ false) × Evicted kept ms)
Evicted-inv kept m ms (stop f) = inl refl
Evicted-inv kept m ms (oldest f e) = inr (f, e)

-- A newest message that fits by itself is never evicted.
pub Evicted-newest :
    (kept xs : List Message) (m : Message)
    → fits (m ∷ []) ≡ true
    → Evicted kept (xs ++ m ∷ [])
    → (older : List Message) × (kept ≡ older ++ m ∷ [])
Evicted-newest kept [] m f e = elim (Evicted-inv kept m [] e) [
  | inl p ↦ ([], p)
  | inr (g, _) ↦ absurd (false≢true (sym g ∙ f))
]
Evicted-newest kept (x ∷ xs) m f e = elim (Evicted-inv kept x (xs ++ m ∷ []) e) [
  | inl p ↦ (x ∷ xs, p)
  | inr (_, e') ↦ Evicted-newest kept xs m f e'
]
