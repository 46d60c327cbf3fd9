-- ===== src/Runner/Log/History.antt =====
-- What the log holds.
use mathlib.Core.List.{append_assoc, append-nil}
use hugen.Prelude.{
  ℕ, suc, ◌-◌, ◌≤◌, ◌<◌, ◌==◌, ◌≡◌, refl, sym, ap, ◌∙◌, inl, inr, true, false, Option, none, some,
  List, [], ◌∷◌, ◌++◌, arith, length, drop, last_n, length-append, length-last_n, last_n-append,
  last_n-of-le, cut-eq-last_n, drop-append, if◌then◌else◌, Bool-cases,
}
use hugen.Prelude.Text.{Text, text_eq, text_eq_refl, text_eq_iff}
use hugen.Runner.Log.{
  Entry, RunLog, Run, append, merge, merge_last, or_here, or_append, finalize, opened, closed,
  log_run,
}

merge_last-snoc :
    (seq : ℕ) (fin : Entry) (rows : List Entry) (e : Entry)
    → (e.fire_seq == seq) ≡ true
    → merge_last seq fin (rows ++ e ∷ []) ≡ some (rows ++ merge fin e ∷ [])
unfolding merge_last or_here
merge_last-snoc seq fin [] e h = rw h refl
merge_last-snoc seq fin (x ∷ rows) e h = rw (merge_last-snoc seq fin rows e h) refl

merge-opened : (r : Run) → merge (closed r) (opened r) ≡ closed r
unfolding merge closed opened
merge-opened r = refl

entries-append :
    (e : Entry) (l : RunLog)
    → (append e l).entries e.name ≡ last_n l.cap_per (l.entries e.name ++ e ∷ [])
unfolding append
entries-append e l = rw (text_eq_refl e.name) (cut-eq-last_n l.cap_per (l.entries e.name ++ e ∷ []))

-- Behind a cap that is positive, the newest row is never cut.
last_n-snoc :
    (n : ℕ) (rows : List Entry) (e : Entry)
    → 0 < n
    → last_n n (rows ++ e ∷ []) ≡ drop (suc (length rows) - n) rows ++ e ∷ []
last_n-snoc n rows e pos =
    ap (λ (k : ℕ). drop k (rows ++ e ∷ [])) (omega (arith, length-append rows (e ∷ [])))
    ∙ drop-append (suc (length rows) - n) rows (e ∷ []) (omega arith)

entries-finalize :
    (name : Text) (seq : ℕ) (fin : Entry) (l : RunLog) (rows : List Entry)
    → merge_last seq fin (l.entries name) ≡ some rows
    → (finalize name seq fin l).entries name ≡ rows
unfolding finalize or_append
entries-finalize name seq fin l rows e = rw (e, text_eq_refl name) refl

other-finalize :
    (name n : Text) (seq : ℕ) (fin : Entry) (l : RunLog)
    → text_eq n name ≡ false
    → fin.name ≡ name
    → (finalize name seq fin l).entries n ≡ l.entries n
unfolding finalize or_append append
other-finalize name n seq fin l ne e = go (merge_last seq fin (l.entries name))
  where
    go : (o : Option (List Entry)) → (or_append name fin l o).entries n ≡ l.entries n
    go none = rw (e, ne) refl
    go (some rows) = rw ne refl

same_seq : (n : ℕ) → (n == n) ≡ true
same_seq n = ground arith

seq-opened : (r : Run) → ((opened r).fire_seq == r.fire.seq) ≡ true
unfolding opened
seq-opened r = same_seq r.fire.seq

entries-log_run :
    (r : Run) (l : RunLog)
    → 0 < l.cap_per
    → (log_run r l).entries r.name ≡ last_n l.cap_per (l.entries r.name ++ closed r ∷ [])
unfolding log_run opened
entries-log_run r l pos =
    let old = l.entries r.name in
    let kept = drop (suc (length old) - l.cap_per) old in
    let shown : (append (opened r) l).entries r.name ≡ kept ++ opened r ∷ [] =
      entries-append (opened r) l ∙ last_n-snoc l.cap_per old (opened r) pos in
    entries-finalize r.name r.fire.seq (closed r) (append (opened r) l) (kept ++ closed r ∷ []) (
      ap (merge_last r.fire.seq (closed r)) shown
      ∙ merge_last-snoc r.fire.seq (closed r) kept (opened r) (seq-opened r)
      ∙ ap (λ (e : Entry). some (kept ++ e ∷ [])) (merge-opened r))
    ∙ sym (last_n-snoc l.cap_per old (closed r) pos)

other-log_run :
    (r : Run) (n : Text) (l : RunLog)
    → text_eq n r.name ≡ false
    → (log_run r l).entries n ≡ l.entries n
unfolding log_run opened closed append
other-log_run r n l ne =
    other-finalize r.name n r.fire.seq (closed r) (append (opened r) l) ne refl ∙ rw ne refl

entries_at :
    (r : Run) (n : Text) (l : RunLog)
    → 0 < l.cap_per
    → text_eq n r.name ≡ true
    → (log_run r l).entries n ≡ last_n l.cap_per (l.entries n ++ closed r ∷ [])
entries_at r n l pos e =
    let p = (text_eq_iff n r.name).0 e in
    ap (log_run r l).entries p
    ∙ entries-log_run r l pos
    ∙ ap (λ (m : Text). last_n l.cap_per (l.entries m ++ closed r ∷ [])) (sym p)

pub log_runs : List Run → RunLog → RunLog
log_runs [] l = l
log_runs (r ∷ rs) l = log_runs rs (log_run r l)

pub rows_of : Text → List Run → List Entry
rows_of n [] = []
rows_of n (r ∷ rs) = if text_eq n r.name then closed r ∷ rows_of n rs else rows_of n rs

cap-log_run : (r : Run) (l : RunLog) → (log_run r l).cap_per ≡ l.cap_per
unfolding log_run finalize or_append append opened
cap-log_run r l = go (merge_last r.fire.seq (closed r) ((append (opened r) l).entries r.name))
  where
    go :
        (o : Option (List Entry))
        → (or_append r.name (closed r) (append (opened r) l) o).cap_per ≡ l.cap_per
    go none = refl
    go (some rows) = refl

-- After fires of any names that run one after the other, the log of a name with a positive cap holds
-- exactly the last rows, as many as the cap lets, of what was there and the closed rows of its fires,
-- if it was within the cap before.
pub entries-log_runs :
    (rs : List Run) (l : RunLog) (n : Text)
    → 0 < l.cap_per
    → length (l.entries n) ≤ l.cap_per
    → (log_runs rs l).entries n ≡ last_n l.cap_per (l.entries n ++ rows_of n rs)
unfolding log_runs rows_of
entries-log_runs [] l n pos h = rw append-nil (sym (last_n-of-le l.cap_per (l.entries n) h))
entries-log_runs (r ∷ rs) l n pos h = elim (Bool-cases (text_eq n r.name)) [
  | inl e ↦
      (let seen = l.entries n ++ closed r ∷ [] in
        let now = entries_at r n l pos e in
        rw e (
          entries-log_runs rs (log_run r l) n (rw (cap-log_run r l) pos)
            (rw (cap-log_run r l, now) (omega (arith, length-last_n l.cap_per seen)))
          ∙ ap (λ (k : ℕ). last_n k ((log_run r l).entries n ++ rows_of n rs)) (cap-log_run r l)
          ∙ ap (λ (x : List Entry). last_n l.cap_per (x ++ rows_of n rs)) now
          ∙ last_n-append l.cap_per seen (rows_of n rs)
          ∙ ap (last_n l.cap_per) (append_assoc (l.entries n) (closed r ∷ []) (rows_of n rs))))
  | inr e ↦
      (let now = other-log_run r n l e in
        rw e (
          entries-log_runs rs (log_run r l) n (rw (cap-log_run r l) pos)
            (rw (cap-log_run r l, now) h)
          ∙ ap (λ (k : ℕ). last_n k ((log_run r l).entries n ++ rows_of n rs)) (cap-log_run r l)
          ∙ ap (λ (x : List Entry). last_n l.cap_per (x ++ rows_of n rs)) now))
]
