-- ===== src/Compactor/Restart/Cuts.antt =====
-- A compaction and a reset keep the session and its log in step; so does any run.
use hugen.Prelude.{
  ℕ, suc, zero, ◌+◌, ◌-◌, ◌≤◌, ◌<◌, ◌≡◌, refl, sym, ap, subst, ◌∙◌, inl, inr, ltb, ◌==◌, true,
  false, not, ◌&&◌, Option, none, some, Option-cases, List, [], ◌∷◌, Bool-cases, arith, All,
  get_elem?, length,
}
use hugen.Prelude.{take-whole}
use hugen.Prelude.Text.{Text, codes, text_eq}
use hugen.Compactor.{CompactorState, past, prune_to_cutoff}
use hugen.Compactor.Digests.{
  Digest, Config, cutoff_of, new_cutoff, next_digest, capped, collapsed, SummaryBlock,
  estimate_digest_tokens, current_payload_version,
}
use hugen.Compactor.Frames.{extension_frame, Frame, EventRow, row_of, metadata_of}
use hugen.Compactor.Rows.{metadata_string}
use hugen.Compactor.Recovery.{Op, sets, clears, applied, op_of_kind, latest_from, recover, rebuilt}
use hugen.Compactor.Compaction.{Answers, provider_name, built}
use hugen.Compactor.Emission.{Env, Session, max_seq}
use hugen.Compactor.Restart.Log.{
  entries, boundaries, past-entries, recover-history, recover-boundaries, recover-digest,
}
use hugen.Compactor.Restart.{
  keeps, trim-keeps, InSync, next_max, next_boundaries, next_history, next_seq_bound, next_latest,
}
use hugen.Compactor.Emitted.{Added}

All-get : (n i b : ℕ) (l : List ℕ) → All (λ (x : ℕ). x ≤ n) l → get_elem? l i ≡ some b → b ≤ n
All-get n i b [] h g = cc
All-get n zero b (x ∷ l) h g = ground arith
All-get n (suc i) b (x ∷ l) h g = All-get n i b l h.1 g

-- A cut lies behind the one before and before the last row.
pub new_cutoff-bounds :
    (cfg : Config) (bs : List ℕ) (prior : Option Digest) (n c : ℕ)
    → All (λ (b : ℕ). b ≤ n) bs
    → new_cutoff cfg bs prior ≡ some c
    → (cutoff_of prior < c) × (c ≤ n)
unfolding new_cutoff
new_cutoff-bounds cfg bs prior n c h e =
    elim (Bool-cases (ltb (length bs) (cfg.preserved_recent_turns + 1))) [
      | inl few ↦ absurd (let e' = rw few at e in cc)
      | inr enough ↦
          elim (Option-cases (get_elem? bs (length bs - cfg.preserved_recent_turns - 1))) [
            | inl g ↦ absurd (let e' = rw (enough, g) at e in cc)
            | inr (b, g) ↦
                (let e' = rw (enough, g) at e in
                  let le : b ≤ n = All-get n _ b bs h g in ground arith)
          ]
    ]

collapsed-kept :
    (d d' : Digest) (text : Option Text) (blocks : List SummaryBlock)
    → collapsed d text blocks ≡ some d'
    → (d'.version ≡ d.version) × (d'.cutoff_seq ≡ d.cutoff_seq)
collapsed-kept d d' none blocks e = (cc, cc)
collapsed-kept d d' (some t) [] e = cc
collapsed-kept d d' (some t) (b ∷ bs) e = (cc, cc)

capped-kept :
    (cfg : Config) (text : Option Text) (d d' : Digest)
    → capped cfg text d ≡ some d'
    → (d'.version ≡ d.version) × (d'.cutoff_seq ≡ d.cutoff_seq)
unfolding capped
capped-kept cfg text d d' e =
    elim (Bool-cases
      (not (cfg.digest_max_tokens == 0) && ltb cfg.digest_max_tokens (estimate_digest_tokens d))) [
        | inr fits ↦ (let e' = rw fits at e in (cc, cc))
        | inl over ↦ collapsed-kept d d' text d.summary_blocks (rw over at e)
      ]

pub next-kept :
    (env : Env) (a : Answers) (c : ℕ) (s : Session) (d : Digest)
    → built env a c s ≡ some d
    → (ltb current_payload_version d.version ≡ false) × (d.cutoff_seq ≡ c)
unfolding next_digest
next-kept env a c s d e = let (v, k) = capped-kept env.config a.collapse _ d e in (rw v refl, k)

abbrev pub set_frame : Env → Frame → Digest → Frame
set_frame env f d = record f {
  payload = extension_frame provider_name (codes "digest_set") [] (env.decode_digest d);
}

abbrev pub clear_frame : Frame → Frame
clear_frame f = record f { payload = extension_frame provider_name (codes "digest_clear") [] none }

set_op :
    (env : Env) (seq : ℕ) (f : Frame) (d : Digest)
    → env.decode_digest d ≡ some d
    → ltb current_payload_version d.version ≡ false
    → op_of_kind
        (row_of seq f (set_frame env f d).payload).event_type
        (row_of seq f (set_frame env f d).payload)
      ≡ sets d
unfolding metadata_of metadata_string text_eq
set_op env seq f d same v = rw (same, v) refl

clear_op :
    (seq : ℕ) (f : Frame)
    → op_of_kind
        (row_of seq f (clear_frame f).payload).event_type
        (row_of seq f (clear_frame f).payload)
      ≡ clears
unfolding metadata_of metadata_string text_eq
clear_op seq f = refl

module _ (env : Env) (k : keeps env.strategy ≡ true) (f : Frame) (s s' : Session)
    (row : EventRow) where
  pub cut-InSync :
      (d : Digest)
      → Added env (set_frame env f d) s s' row
      → InSync env s
      → env.decode_digest d ≡ some d
      → ltb current_payload_version d.version ≡ false
      → (cutoff_of s.state.digest < d.cutoff_seq) × (d.cutoff_seq ≤ max_seq s.log)
      → InSync env
          (record s' { state = prune_to_cutoff d.cutoff_seq (record s'.state { digest = some d }) })
  unfolding prune_to_cutoff
  cut-InSync d a i same v (later, behind) =
      let ours : op_of_kind row.event_type row ≡ sets d =
        subst (λ (x : EventRow). op_of_kind x.event_type x ≡ sets d) (sym a.is_row)
          (set_op env (suc (max_seq s.log)) (set_frame env f d) d same v) in
      let m = next_max env k (set_frame env f d) s s' row a i in
      record {
        digest = sym (
            next_latest env k (set_frame env f d) s s' row a i
            ∙ ap (λ (o : Op). applied o (latest_from none s.log)) ours);
        seqs = next_boundaries env k (set_frame env f d) s s' row a i;
        history =
            ap (past d.cutoff_seq) (next_history env k (set_frame env f d) s s' row a i tt)
            ∙ past-entries env.renderer (cutoff_of s.state.digest) d.cutoff_seq s'.log
                (omega arith);
        cut_bound = omega arith;
        seq_bound = next_seq_bound env k (set_frame env f d) s s' row a i;
      }

  recovered-InSync :
      Added env (clear_frame f) s s' row
      → InSync env s
      → InSync env (record s' { state = recover env s'.log (record s'.state { digest = none }) })
  recovered-InSync a i =
      let t : CompactorState = record s'.state { digest = none } in
      let ours : op_of_kind row.event_type row ≡ clears =
        subst (λ (x : EventRow). op_of_kind x.event_type x ≡ clears) (sym a.is_row)
          (clear_op (suc (max_seq s.log)) (clear_frame f)) in
      let gone : latest_from none s'.log ≡ none =
        next_latest env k (clear_frame f) s s' row a i
        ∙ ap (λ (o : Op). applied o (latest_from none s.log)) ours in
      let digest : (recover env s'.log t).digest ≡ latest_from none s'.log =
        recover-digest env s'.log t in
      let seqs : (recover env s'.log t).user_message_seqs ≡ boundaries s'.log =
        recover-boundaries env s'.log t in
      record {
        digest = digest;
        seqs = seqs;
        history =
            recover-history env s'.log t
            ∙ trim-keeps env.strategy env.window_size _ k
            ∙ ap (λ (d : Option Digest). entries env.renderer (cutoff_of d) s'.log) (sym digest);
        cut_bound =
            subst (λ (d : Option Digest). cutoff_of d ≤ max_seq s'.log) (sym (digest ∙ gone))
              (omega arith);
        seq_bound =
            subst (All (λ (b : ℕ). b ≤ max_seq s'.log))
              (next_boundaries env k (clear_frame f) s s' row a i ∙ sym seqs)
              (next_seq_bound env k (clear_frame f) s s' row a i);
      }

  pub reset-InSync :
      Added env (clear_frame f) s s' row
      → InSync env s
      → length s'.log ≤ 100000
      → InSync env (record s' { state = rebuilt env true s'.log s'.state })
  unfolding rebuilt
  reset-InSync a i fits =
      let whole : rebuilt env true s'.log s'.state
          ≡ recover env s'.log (record s'.state { digest = none }) =
        ap (λ (l : List EventRow). recover env l (record s'.state { digest = none }))
          (take-whole 100000 s'.log fits) in
      subst (λ (x : CompactorState). InSync env (record s' { state = x })) (sym whole)
        (recovered-InSync a i)
