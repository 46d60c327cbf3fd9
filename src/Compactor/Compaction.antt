-- ===== src/Compactor/Compaction.antt =====
-- When a turn ends: the trigger (trigger.go) and compactWithConfig (compactor.go) of
-- pkg/extension/compactor. What the summariser makes of a range, the classification of its rows among
-- it, and the answers of the model are arguments.
use hugen.Prelude.{
  ℕ, suc, ◌==◌, ltb, leb, Bool, true, false, not, ◌&&◌, ◌||◌, Option, none, some, List, [], ◌∷◌,
  length, if◌then◌else◌,
}
use hugen.Prelude.Text.{Text, codes}
use hugen.Compactor.{CompactorState, prune_to_cutoff}
use hugen.Compactor.Digests.{Digest, Config, Classified, new_cutoff, next_digest, capped, cutoff_of}
use hugen.Compactor.Frames.{extension_frame, Frame, EventRow}
use hugen.Compactor.Emission.{off, window, summarize, Env, Session, emit}

-- The completed turns since a number.
unfoldable pub completed_since : ℕ → List ℕ → ℕ
completed_since seq [] = 0
completed_since seq (b ∷ bs) =
    let later = completed_since seq bs in
    if later == length bs then (if leb b seq then later else suc later) else later

abbrev pub gap_holds : Config → Option Digest → List ℕ → Bool
gap_holds cfg none boundaries = true
gap_holds cfg (some d) boundaries =
    leb cfg.min_turn_gap (completed_since d.compacted_at_seq boundaries)

-- With a model router and a store.
unfoldable pub should_compact : Env → CompactorState → Bool
unfolding completed_since
should_compact env s =
    let cfg = env.config in
    cfg.enabled
    && elim env.strategy [ off ↦ false | window ↦ false | summarize ↦ true ]
    && ltb cfg.preserved_recent_turns (length s.user_message_seqs)
    && gap_holds cfg s.digest s.user_message_seqs
    && (not (cfg.max_turns == 0) && ltb cfg.max_turns (length s.user_message_seqs)
        || not (cfg.max_tokens == 0) && ltb cfg.max_tokens s.estimated_tokens)

-- What the models answer in one compaction: the summary, and the blocks collapsed, if that succeeds.
pub record Answers : Type 0 where
  pub classify : List EventRow → Classified
  pub summary : Text
  pub collapse : Option Text

unfoldable pub select : ℕ → ℕ → List EventRow → List EventRow
select low high [] = []
select low high (r ∷ rs) =
    if ltb low r.seq && leb r.seq high then r ∷ select low high rs else select low high rs

abbrev pub last_seq : List EventRow → Option ℕ
last_seq [] = none
last_seq (r ∷ rs) = elim (last_seq rs) [ none ↦ some r.seq | some n ↦ some n ]

abbrev pub provider_name : Text
provider_name = codes "compactor"

-- The digest that is emitted, set, and cut to. The panic of `capped` leaves the session as it is.
abbrev pub stored : Env → Frame → Option Digest → Session → Session
stored env f none s = s
stored env f (some d) s =
    let (sent, s') =
      emit env
        (record f {
          payload = extension_frame provider_name (codes "digest_set") [] (env.decode_digest d);
        })
        s in
    if sent
    then record s' { state = prune_to_cutoff d.cutoff_seq (record s'.state { digest = some d }) }
    else s'

abbrev pub built : Env → Answers → ℕ → Session → Option Digest
built env a cutoff s =
    let rows = select (cutoff_of s.state.digest) cutoff s.log in
    capped env.config a.collapse
      (next_digest env.config s.state.digest cutoff (last_seq rows) (a.classify rows) a.summary)

-- compactWithConfig; `f` is the envelope of its frame.
unfoldable pub compact : Env → Answers → Frame → Session → Session
unfolding new_cutoff next_digest capped select emit prune_to_cutoff
compact env a f s = elim (new_cutoff env.config s.state.user_message_seqs s.state.digest) [
  | none ↦ s
  | some cutoff ↦ stored env f (built env a cutoff s) s
]

unfoldable pub on_turn_boundary : Env → Answers → Frame → Session → Session
unfolding should_compact compact
on_turn_boundary env a f s = if should_compact env s.state then compact env a f s else s
