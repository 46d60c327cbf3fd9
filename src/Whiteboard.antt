-- ===== src/Whiteboard.antt =====
-- The whiteboard's projection: pkg/extension/whiteboard/whiteboard_core.go.
-- A `time.Time` is the number of its instant, 0 for the zero time. `Seq` is an int64 that counts the
-- board's messages and is taken not to reach 2^63; `totalBytes` is a natural number, which is what
-- the last test of `evictExcess` makes of it.
pub mod Eviction
pub mod Bounds
mod Tests
use mathlib.Core.List.{foldl}
use hugen.Prelude.{
  ℕ, zero, suc, ◌+◌, ◌-◌, ◌*◌, Bool, true, false, ◌||◌, List, [], ◌∷◌, ◌++◌, length, take, ltb, leb,
  ◌==◌, if◌then◌else◌,
}
use hugen.Prelude.Text.{Text, codes}

abbrev pub max_message_bytes : ℕ
max_message_bytes = 4096

abbrev pub max_messages : ℕ
max_messages = 100

abbrev pub max_total_bytes : ℕ
max_total_bytes = 32 * 1024

abbrev pub truncation_marker : Text
truncation_marker = 10 ∷ b'[' ∷ 0xe2 ∷ 0x80 ∷ 0xa6 ∷ codes "truncated]"

pub record Message : Type 0 where
  pub seq : ℕ
  pub at : ℕ
  pub from_session_id : Text
  pub from_role : Text
  pub from_name : Text
  pub text : Text
  pub truncated : Bool

pub record Whiteboard : Type 0 where
  pub active : Bool
  pub started_at : ℕ
  pub stopped_at : ℕ
  pub next_seq : ℕ
  pub messages : List Message
  pub total_bytes : ℕ

-- `OpInit`, `OpWrite`, `OpStop`, and any other string.
pub data Op : Type 0 where
  init write stop : Op
  other : Text → Op

pub record ProjectEvent : Type 0 where
  pub at : ℕ
  pub op : Op
  pub seq : ℕ
  pub from_session_id : Text
  pub from_role : Text
  pub from_name : Text
  pub text : Text
  pub truncated : Bool

-- `var wb Whiteboard`
abbrev pub no_board : Whiteboard
no_board = record {
  active = false;
  started_at = 0;
  stopped_at = 0;
  next_seq = 0;
  messages = [];
  total_bytes = 0;
}

pub truncate : Text → Text × Bool
truncate text =
    if leb (length text) max_message_bytes
    then (text, false)
    else (take (max_message_bytes - length truncation_marker) text ++ truncation_marker, true)

-- The first loop of `evictExcess`, on the total and the messages.
pub evict_count : ℕ → List Message → ℕ × List Message
evict_count total [] = (total, [])
evict_count total (m ∷ ms) =
    let rest = evict_count (total - length m.text) ms in
    if ltb max_messages (length (m ∷ ms)) then rest else (total, m ∷ ms)

-- The second loop, which keeps the last message.
pub evict_bytes : ℕ → List Message → ℕ × List Message
evict_bytes total [] = (total, [])
evict_bytes total (m ∷ []) = (total, m ∷ [])
evict_bytes total (m ∷ n ∷ ms) =
    let rest = evict_bytes (total - length m.text) (n ∷ ms) in
    if ltb max_total_bytes total then rest else (total, m ∷ n ∷ ms)

pub evict_excess : ℕ → List Message → ℕ × List Message
evict_excess total ms = let (total', ms') = evict_count total ms in evict_bytes total' ms'

pub to_message : ProjectEvent → Message
unfolding truncate
to_message ev =
    let (text, truncated) = truncate ev.text in
    record {
      seq = ev.seq;
      at = ev.at;
      from_session_id = ev.from_session_id;
      from_role = ev.from_role;
      from_name = ev.from_name;
      text = text;
      truncated = ev.truncated || truncated;
    }

pub append_message : Whiteboard → ProjectEvent → Whiteboard
append_message wb ev =
    let msg = to_message ev in
    let (total, messages) =
      evict_excess (wb.total_bytes + length msg.text) (wb.messages ++ msg ∷ []) in
    record wb {
      messages = messages;
      total_bytes = total;
      next_seq = if leb wb.next_seq ev.seq then ev.seq + 1 else wb.next_seq;
    }

dispatch : Op → Whiteboard → ProjectEvent → Whiteboard
dispatch init wb ev = record wb {
  active = true;
  started_at = ev.at;
  stopped_at = 0;
  messages = [];
  total_bytes = 0;
  next_seq = if wb.next_seq == 0 then 1 else wb.next_seq;
}
dispatch stop wb ev = record wb { active = false; stopped_at = ev.at }
dispatch write wb ev = if wb.active then append_message wb ev else wb
dispatch (other s) wb ev = wb

pub apply : Whiteboard → ProjectEvent → Whiteboard
unfolding dispatch
apply wb ev = dispatch ev.op wb ev

pub project : List ProjectEvent → Whiteboard
project events = foldl apply no_board events
