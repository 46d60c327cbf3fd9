-- ===== src/Whiteboard/Bounds.antt =====
-- The invariant of a projected board, and what one write does.
use mathlib.Core.List.{foldl}
use hugen.Prelude.{
  ℕ, ◌+◌, ◌≤◌, ◌<◌, ◌≡◌, refl, inl, inr, true, List, [], ◌∷◌, ◌++◌, arith, length, leb,
  if◌then◌else◌, All, All-append, Bool-cases,
}
use hugen.Whiteboard.{
  Whiteboard, Message, ProjectEvent, Op, init, write, stop, other, dispatch, apply, project,
  no_board, append_message, to_message, max_messages, max_total_bytes,
}
use hugen.Whiteboard.Eviction.{
  size, fits, IsShort, Evicted, Evicted-fits, Evicted-newest, Evicted-All, evict_excess-Evicts,
  length-truncate-le, size-append,
}

pub record IsBounded (wb : Whiteboard) : Type 0 where
  pub count : length wb.messages ≤ max_messages
  pub bytes : wb.total_bytes ≤ max_total_bytes
  pub total : wb.total_bytes ≡ size wb.messages
  pub short : All IsShort wb.messages
  pub fresh : All (λ (m : Message). m.seq < wb.next_seq) wb.messages

All-weaken :
    (a b : ℕ) (ms : List Message)
    → a ≤ b
    → All (λ (m : Message). m.seq < a) ms
    → All (λ (m : Message). m.seq < b) ms
All-weaken a b [] h f = tt
All-weaken a b (m ∷ ms) h f = (omega arith, All-weaken a b ms h f.1)

to_message-IsShort : (ev : ProjectEvent) → IsShort (to_message ev)
unfolding to_message
to_message-IsShort ev = length-truncate-le ev.text

seq-to_message : (ev : ProjectEvent) → (to_message ev).seq ≡ ev.seq
unfolding to_message
seq-to_message ev = refl

abbrev next : ℕ → ℕ → ℕ
next n s = if leb n s then s + 1 else n

module _ (wb : Whiteboard) (ev : ProjectEvent) (h : IsBounded wb) where
  abbrev extended : List Message
  extended = wb.messages ++ to_message ev ∷ []

  extended-IsShort : All IsShort extended
  extended-IsShort = All-append IsShort wb.messages _ h.short (to_message-IsShort ev, tt)

  size-extended : wb.total_bytes + length (to_message ev).text ≡ size extended
  size-extended = omega (arith, h.total, size-append wb.messages (to_message ev ∷ []))

  -- A write keeps the longest end of the messages, the new one behind them, that fits.
  pub append_message-Evicted :
      Evicted (append_message wb ev).messages extended
      × ((append_message wb ev).total_bytes ≡ size (append_message wb ev).messages)
  unfolding append_message
  append_message-Evicted = evict_excess-Evicts _ extended size-extended extended-IsShort

  extended-fresh : All (λ (m : Message). m.seq < next wb.next_seq ev.seq) extended
  extended-fresh =
      All-append _ wb.messages _ (All-weaken wb.next_seq _ wb.messages (ground arith) h.fresh)
        (ground (arith, seq-to_message ev), tt)

  append_message-IsBounded : IsBounded (append_message wb ev)
  append_message-IsBounded =
      let (e, t) = append_message-Evicted in
      record {
        count = ground (arith, Evicted-fits e);
        bytes = ground (arith, Evicted-fits e, t);
        total = t;
        short = Evicted-All IsShort e extended-IsShort;
        fresh = Evicted-All _ e (unfold append_message in extended-fresh);
      }

no_board-IsBounded : IsBounded no_board
no_board-IsBounded = record {
  count = omega arith;
  bytes = omega arith;
  total = refl;
  short = tt;
  fresh = tt;
}

dispatch-IsBounded :
    (o : Op) (wb : Whiteboard) (ev : ProjectEvent) → IsBounded wb → IsBounded (dispatch o wb ev)
unfolding dispatch
dispatch-IsBounded init wb ev h = record {
  count = omega arith;
  bytes = omega arith;
  total = refl;
  short = tt;
  fresh = tt;
}
dispatch-IsBounded stop wb ev h = record {
  count = h.count;
  bytes = h.bytes;
  total = h.total;
  short = h.short;
  fresh = h.fresh;
}
dispatch-IsBounded write wb ev h = elim (Bool-cases wb.active) [
  | inl a ↦ simp a (append_message-IsBounded wb ev h)
  | inr a ↦ simp a h
]
dispatch-IsBounded (other s) wb ev h = h

foldl-IsBounded :
    (wb : Whiteboard) (evs : List ProjectEvent) → IsBounded wb → IsBounded (foldl apply wb evs)
unfolding apply
foldl-IsBounded wb [] h = h
foldl-IsBounded wb (ev ∷ evs) h =
    foldl-IsBounded (dispatch ev.op wb ev) evs (dispatch-IsBounded ev.op wb ev h)

-- Whatever the events: a projected board has at most 100 messages, at most 32768 bytes, which its
-- counter gives exactly, no message above 4096 bytes, and sequence numbers below `NextSeq`.
pub project-IsBounded : (evs : List ProjectEvent) → IsBounded (project evs)
unfolding project
project-IsBounded evs = foldl-IsBounded no_board evs no_board-IsBounded

fits_alone : (m : Message) → IsShort m → fits (m ∷ []) ≡ true
fits_alone m h = ground arith

-- A write to an active board that was projected from a log shows: the new message is the last one,
-- and what was evicted before it is no more than the caps demand.
pub write_visible :
    (evs : List ProjectEvent) (ev : ProjectEvent)
    → ev.op ≡ write
    → (project evs).active ≡ true
    → let wb = apply (project evs) ev in
      ((older : List Message) × (wb.messages ≡ older ++ to_message ev ∷ []))
      × Evicted wb.messages ((project evs).messages ++ to_message ev ∷ [])
unfolding apply dispatch
write_visible evs ev o a =
    let (e, _) = append_message-Evicted (project evs) ev (project-IsBounded evs) in
    let alone = fits_alone (to_message ev) (to_message-IsShort ev) in
    simp (o, a) (Evicted-newest _ (project evs).messages (to_message ev) alone e, e)
