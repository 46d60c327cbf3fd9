-- ===== src/Compactor/Window.antt =====
-- The window strategy: what it keeps is paired, and does not depend on when it prunes.
use hugen.Prelude.{
  ℕ, zero, suc, ◌-◌, ◌≤◌, ◌≡◌, refl, subst, ◌⊎◌, inl, inr, ltb, leb, ◌==◌, true, false, Option,
  none, some, Option-cases, List, [], ◌∷◌, Bool-cases, arith, get_elem?, drop, length,
}
use hugen.Prelude.Text.{Text}
use hugen.Compactor.{
  Role, user, assistant, system, tool, is_tool, is_user, Message, HistoryEntry,
  snap_to_pair_safe_head, first_user_message, pinned, prune_window,
}
use hugen.Compactor.History.{messages}
use hugen.Compactor.Pairs.{after, well_paired, well_paired-head}

-- No tool result stands at the index.
abbrev pub IsWhole : List HistoryEntry → ℕ → Type 0
IsWhole es i =
    (i ≡ 0)
    ⊎ (get_elem? es i ≡ none)
    ⊎ ((e : HistoryEntry) × (get_elem? es i ≡ some e) × (is_tool e.message.role ≡ false))

pub snap-IsWhole : (es : List HistoryEntry) (h : ℕ) → IsWhole es (snap_to_pair_safe_head es h)
unfolding snap_to_pair_safe_head
snap-IsWhole es zero = inl refl
snap-IsWhole es (suc h) = elim (Option-cases (get_elem? es (suc h))) [
  | inl e ↦ rw (e, snap_to_pair_safe_head) (inr (inl e))
  | inr (x, e) ↦
      rw (e, snap_to_pair_safe_head)
        (elim (Bool-cases (is_tool x.message.role)) [
          | inl t ↦ rw t (snap-IsWhole es h)
          | inr f ↦ rw f (inr (inr (x, e, f)))
        ])
]

pub snap-le : (es : List HistoryEntry) (h : ℕ) → snap_to_pair_safe_head es h ≤ h
unfolding snap_to_pair_safe_head
snap-le es zero = omega arith
snap-le es (suc h) = ground (arith, snap-le es h)

drop-none : (es : List HistoryEntry) (i : ℕ) → get_elem? es i ≡ none → drop i es ≡ []
drop-none [] zero h = refl
drop-none [] (suc i) h = refl
drop-none (e ∷ es) zero h = cc
drop-none (e ∷ es) (suc i) h = drop-none es i h

no_call_asked :
    (r : Role) (m : Message) (asked asked' : List Text)
    → is_tool r ≡ false
    → after r m asked ≡ some asked'
    → asked ≡ []
no_call_asked tool m asked asked' n e = cc
no_call_asked assistant m [] asked' n e = refl
no_call_asked assistant m (a ∷ as') asked' n e = cc
no_call_asked user m [] asked' n e = refl
no_call_asked user m (a ∷ as') asked' n e = cc
no_call_asked system m [] asked' n e = refl
no_call_asked system m (a ∷ as') asked' n e = cc

drop-paired :
    (asked : List Text) (i : ℕ) (es : List HistoryEntry) (e : HistoryEntry)
    → get_elem? es i ≡ some e
    → is_tool e.message.role ≡ false
    → well_paired asked (messages es) ≡ true
    → well_paired [] (messages (drop i es)) ≡ true
drop-paired asked i [] e g n h = cc
drop-paired asked zero (x ∷ es) e g n h =
    let (asked', step, tail) = well_paired-head asked x.message (messages es) h in
    let same : x ≡ e = cc in
    let none_asked : asked ≡ [] =
      no_call_asked x.message.role x.message asked asked' (rw same n) step in
    subst (λ (l : List Text). well_paired l (messages (x ∷ es)) ≡ true) none_asked h
drop-paired asked (suc i) (x ∷ es) e g n h =
    let (asked', step, tail) = well_paired-head asked x.message (messages es) h in
    drop-paired asked' i es e g n tail

snapped-paired :
    (es : List HistoryEntry) (h : ℕ)
    → well_paired [] (messages es) ≡ true
    → well_paired [] (messages (drop (snap_to_pair_safe_head es h) es)) ≡ true
unfolding well_paired
snapped-paired es h p = elim (snap-IsWhole es h) [
  | inl z ↦ rw z p
  | inr (inl n) ↦ rw (drop-none es (snap_to_pair_safe_head es h) n) refl
  | inr (inr (e, g, n)) ↦ drop-paired [] (snap_to_pair_safe_head es h) es e g n p
]

first-is_user :
    (es : List HistoryEntry) (i : ℕ) (u : HistoryEntry)
    → first_user_message es ≡ some (i, u)
    → is_user u.message.role ≡ true
unfolding first_user_message
first-is_user [] i u h = cc
first-is_user (e ∷ es) i u h = elim (Bool-cases (is_user e.message.role)) [
  | inl y ↦ ground arith
  | inr n ↦ elim (Option-cases (first_user_message es)) [
    | inl f ↦ ground arith
    | inr ((j, v), f) ↦ ground (arith, first-is_user es j v f)
  ]
]

user-paired :
    (r : Role) (m : Message) (ms : List Message)
    → m.role ≡ r
    → is_user r ≡ true
    → well_paired [] ms ≡ true
    → well_paired [] (m ∷ ms) ≡ true
unfolding well_paired
user-paired user m ms e y h = rw (e, well_paired) h
user-paired assistant m ms e y h = cc
user-paired system m ms e y h = cc
user-paired tool m ms e y h = cc

pinned-paired :
    (o : Option (ℕ × HistoryEntry)) (head : ℕ) (es : List HistoryEntry)
    → ((i : ℕ) (u : HistoryEntry) → o ≡ some (i, u) → is_user u.message.role ≡ true)
    → well_paired [] (messages (drop head es)) ≡ true
    → well_paired [] (messages (pinned o head es)) ≡ true
pinned-paired none head es y h = h
pinned-paired (some (i, u)) head es y h = elim (Bool-cases (ltb i head)) [
  | inl b ↦ rw b (user-paired u.message.role u.message _ refl (y i u refl) h)
  | inr b ↦ rw b h
]

-- A window of an owned history in which calls and results are paired is paired.
pub prune_window-paired :
    (limit : ℕ) (es : List HistoryEntry)
    → well_paired [] (messages es) ≡ true
    → well_paired [] (messages (prune_window limit es)) ≡ true
unfolding prune_window
prune_window-paired limit es h = elim (Bool-cases (limit == 0)) [
  | inl off ↦ rw off h
  | inr on ↦ rw on (elim (Bool-cases (leb (length es) limit)) [
    | inl fits ↦ rw fits h
    | inr over ↦ rw over (
        pinned-paired (first_user_message es) (snap_to_pair_safe_head es (length es - (limit - 1)))
          es (first-is_user es) (snapped-paired es (length es - (limit - 1)) h))
  ])
]
