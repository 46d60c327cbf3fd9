-- ===== src/Compactor/Digests.antt =====
-- The digest of a compaction: the payload of pkg/extension/compactor/state.go and what compactor.go
-- builds it with, behind the classification of the rows. The times are left out.
use hugen.Prelude.{
  ℕ, suc, ◌+◌, ◌-◌, ◌/◌, ◌==◌, ltb, leb, Bool, not, ◌&&◌, ◌||◌, Option, none, some, List, [], ◌∷◌,
  ◌++◌, length, get_elem?, drop, any, if◌then◌else◌,
}
use hugen.Prelude.Text.{Text, codes, text_eq}

pub record KeptSection : Type 0 where
  pub kind : Text
  pub author : Text
  pub seq : ℕ
  pub text : Text

pub record SummaryBlock : Type 0 where
  pub iter : ℕ
  pub from : ℕ
  pub to : ℕ
  pub text : Text

pub record SubagentRef : Type 0 where
  pub session_id : Text
  pub reason : Text

-- `DigestPayload`
pub record Digest : Type 0 where
  pub version : ℕ
  pub iteration : ℕ
  pub cutoff_seq : ℕ
  pub compacted_at_seq : ℕ
  pub kept_verbatim : List KeptSection
  pub summary_blocks : List SummaryBlock
  pub subagent_refs : List SubagentRef

abbrev pub current_payload_version : ℕ
current_payload_version = 1

-- The first user message, or the first entry.
unfoldable pub pin_of : KeptSection → List KeptSection → KeptSection
pin_of first [] = first
pin_of first (k ∷ ks) = if text_eq k.kind (codes "user_message") then k else pin_of first ks

unfoldable pub without_seq : ℕ → List KeptSection → List KeptSection
without_seq seq [] = []
without_seq seq (k ∷ ks) = if k.seq == seq then without_seq seq ks else k ∷ without_seq seq ks

unfoldable pub prune_kept : ℕ → List KeptSection → List KeptSection
unfolding pin_of without_seq
prune_kept max_entries [] = []
prune_kept max_entries (k ∷ ks) =
    if max_entries == 0 || leb (length (k ∷ ks)) max_entries
    then k ∷ ks
    else let pin = pin_of k (k ∷ ks) in
      pin ∷ without_seq pin.seq (drop (length (k ∷ ks) - (max_entries - 1)) (k ∷ ks))

-- `out[idx] = r`
unfoldable pub put_ref : SubagentRef → List SubagentRef → List SubagentRef
put_ref r [] = []
put_ref r (x ∷ xs) = if text_eq x.session_id r.session_id then r ∷ xs else x ∷ put_ref r xs

abbrev pub is_ref_of : Text → SubagentRef → Bool
is_ref_of id r = text_eq r.session_id id

-- The loop, `out` being what is collected; an id that is there has been seen.
unfoldable pub dedup_loop : List SubagentRef → List SubagentRef → List SubagentRef
unfolding put_ref
dedup_loop out [] = out
dedup_loop out (r ∷ rs) =
    dedup_loop
      (if text_eq r.session_id []
        then out ++ r ∷ []
        else if any (is_ref_of r.session_id) out
        then put_ref r out
        else out ++ r ∷ [])
      rs

unfoldable pub dedup_refs : List SubagentRef → List SubagentRef
unfolding dedup_loop
dedup_refs refs = if leb (length refs) 1 then refs else dedup_loop [] refs

blocks_tokens : List SummaryBlock → ℕ
blocks_tokens [] = 0
blocks_tokens (b ∷ bs) = (length b.text + 3) / 4 + blocks_tokens bs

kept_tokens : List KeptSection → ℕ
kept_tokens [] = 0
kept_tokens (k ∷ ks) = (length k.text + 3) / 4 + kept_tokens ks

refs_tokens : List SubagentRef → ℕ
refs_tokens [] = 0
refs_tokens (r ∷ rs) = (length r.reason + length r.session_id + 7) / 4 + refs_tokens rs

unfoldable pub estimate_digest_tokens : Digest → ℕ
unfolding blocks_tokens kept_tokens refs_tokens
estimate_digest_tokens d =
    blocks_tokens d.summary_blocks + kept_tokens d.kept_verbatim + refs_tokens d.subagent_refs

-- The fields of `Config` that a compaction reads, the trigger's among them.
pub record Config : Type 0 where
  pub enabled : Bool
  pub preserved_recent_turns : ℕ
  pub min_turn_gap : ℕ
  pub max_turns : ℕ
  pub max_tokens : ℕ
  pub digest_max_tokens : ℕ
  pub kept_verbatim_max : ℕ

-- `classified`, with `tool_pairs` and `inquiries` counted.
pub record Classified : Type 0 where
  pub kept : List KeptSection
  pub tool_pairs : ℕ
  pub inquiries : ℕ
  pub refs : List SubagentRef

abbrev pub cutoff_of : Option Digest → ℕ
cutoff_of none = 0
cutoff_of (some d) = d.cutoff_seq

-- The cut behind the digest before, none where there is nothing to compact.
unfoldable pub new_cutoff : Config → List ℕ → Option Digest → Option ℕ
new_cutoff cfg boundaries prior =
    if ltb (length boundaries) (cfg.preserved_recent_turns + 1)
    then none
    else elim (get_elem? boundaries (length boundaries - cfg.preserved_recent_turns - 1)) [
      | none ↦ none
      | some seq ↦ if leb (seq - 1) (cutoff_of prior) then none else some (seq - 1)
    ]

abbrev pub blocks_of : Option Digest → List SummaryBlock
blocks_of none = []
blocks_of (some d) = d.summary_blocks

abbrev pub iteration_of : Option Digest → ℕ
iteration_of none = 0
iteration_of (some d) = d.iteration

abbrev pub kept_of : Option Digest → List KeptSection
kept_of none = []
kept_of (some d) = d.kept_verbatim

abbrev pub refs_of : Option Digest → List SubagentRef
refs_of none = []
refs_of (some d) = d.subagent_refs

-- The digest before its cap is checked; `last` is the number of the last row of the range.
unfoldable pub next_digest : Config → Option Digest → ℕ → Option ℕ → Classified → Text → Digest
unfolding prune_kept dedup_refs
next_digest cfg prior cutoff last c summary = record {
  version = current_payload_version;
  iteration = suc (iteration_of prior);
  cutoff_seq = cutoff;
  compacted_at_seq = elim last [
    | none ↦ cutoff
    | some seq ↦ if ltb cutoff seq then seq else cutoff
  ];
  kept_verbatim =
      if cfg.kept_verbatim_max == 0
      then kept_of prior ++ c.kept
      else prune_kept cfg.kept_verbatim_max (kept_of prior ++ c.kept);
  summary_blocks =
      if c.tool_pairs == 0 && c.inquiries == 0
      then blocks_of prior
      else blocks_of prior
        ++ record {
          iter = suc (iteration_of prior);
          from = cutoff_of prior + 1;
          to = cutoff;
          text = summary;
        }
          ∷ [];
  subagent_refs = dedup_refs (refs_of prior ++ c.refs);
}

-- By what the model answers; the panic on no block is `none`.
abbrev pub collapsed : Digest → Option Text → List SummaryBlock → Option Digest
collapsed d none blocks = some d
collapsed d (some text) [] = none
collapsed d (some text) (first ∷ rest) = some (record d {
  summary_blocks =
      record { iter = d.iteration; from = first.from; to = d.cutoff_seq; text = text } ∷ [];
})

-- The cap: the blocks become one, where the model answers.
unfoldable pub capped : Config → Option Text → Digest → Option Digest
unfolding estimate_digest_tokens
capped cfg answer d =
    if not (cfg.digest_max_tokens == 0) && ltb cfg.digest_max_tokens (estimate_digest_tokens d)
    then collapsed d answer d.summary_blocks
    else some d
