-- ===== src/Whiteboard/Tests.antt =====
-- The theorems on the board at concrete logs.
use hugen.Prelude.{ℕ, ◌≡◌, refl, true, false, List, [], ◌∷◌, ◌++◌, length, arith}
use hugen.Prelude.Text.{codes}
use hugen.Whiteboard.{
  Message, ProjectEvent, Op, init, write, apply, project, evict_excess, to_message, append_message,
  truncate, evict_count, evict_bytes,
}
use hugen.Whiteboard.Eviction.{Evicts, Evicted, evict_excess-Evicts}
use hugen.Whiteboard.Bounds.{IsBounded, project-IsBounded, write_visible}

abbrev event : Op → ℕ → ProjectEvent
event op n = record {
  at = n;
  op = op;
  seq = n;
  from_session_id = codes "s";
  from_role = codes "r";
  from_name = [];
  text = codes "hi";
  truncated = false;
}

abbrev log : List ProjectEvent
log = event write 7 ∷ event init 1 ∷ event write 1 ∷ event write 2 ∷ []

two_messages : length (project log).messages ≡ 2
unfolding project apply append_message to_message truncate evict_excess evict_count evict_bytes
two_messages = refl

next_is_three : (project log).next_seq ≡ 3
unfolding project apply append_message to_message truncate evict_excess evict_count evict_bytes
next_is_three = refl

log_active : (project log).active ≡ true
unfolding project apply append_message
log_active = refl

project-IsBounded_example : IsBounded (project log)
project-IsBounded_example = project-IsBounded log

write_visible_test :
    let wb = apply (project log) (event write 3) in
    ((older : List Message) × (wb.messages ≡ older ++ to_message (event write 3) ∷ []))
    × Evicted wb.messages ((project log).messages ++ to_message (event write 3) ∷ [])
write_visible_test = write_visible log (event write 3) refl log_active

evict_excess-Evicts_example :
    Evicts (to_message (event write 1) ∷ []) (evict_excess 2 (to_message (event write 1) ∷ []))
unfolding to_message truncate
evict_excess-Evicts_example =
    evict_excess-Evicts 2 (to_message (event write 1) ∷ []) refl (omega arith, tt)
