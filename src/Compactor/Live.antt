-- ===== src/Compactor/Live.antt =====
-- The window that each append prunes is the window of the whole history, which a restart prunes once.
use hugen.Prelude.{
  ℕ, zero, suc, ◌+◌, ◌-◌, ◌≤◌, ◌<◌, ◌≡◌, refl, sym, ap, subst, ◌∙◌, inl, inr, ltb, leb, ◌==◌, true,
  false, none, some, Option-cases, List, [], ◌∷◌, ◌++◌, Bool-cases, arith, get_elem?, drop, length,
  length-append, length-drop, drop-append, drop-drop,
}
use hugen.Compactor.{
  is_tool, is_user, HistoryEntry, snap_to_pair_safe_head, first_user_message, pinned, prune_window,
}
use hugen.Compactor.Window.{IsWhole, snap-IsWhole, snap-le}

-- Behind an entry that is no tool result, the snap of a shifted list is the shifted snap.
snap-shift :
    (l l' : List HistoryEntry) (k : ℕ) (e : HistoryEntry)
    → ((i : ℕ) → get_elem? l (suc i) ≡ get_elem? l' (suc (i + k)))
    → get_elem? l 1 ≡ some e
    → is_tool e.message.role ≡ false
    → (j : ℕ)
    → (1 ≤ snap_to_pair_safe_head l (suc j))
      × (snap_to_pair_safe_head l' (suc (j + k)) ≡ snap_to_pair_safe_head l (suc j) + k)
unfolding snap_to_pair_safe_head
snap-shift l l' k e same g n zero =
    let g' : get_elem? l' (suc (0 + k)) ≡ some e = sym (same 0) ∙ g in
    (
      rw (g, snap_to_pair_safe_head, n) (omega arith),
      rw (g', g, snap_to_pair_safe_head, n) (omega arith),
    )
snap-shift l l' k e same g n (suc j) =
    let (pos, ih) = snap-shift l l' k e same g n j in
    let at : get_elem? l (suc (suc j)) ≡ get_elem? l' (suc (suc j + k)) = same (suc j) in
    let back : suc j + k ≡ suc (j + k) = omega arith in
    elim (Option-cases (get_elem? l (suc (suc j)))) [
      | inl f ↦
          (let f' : get_elem? l' (suc (suc j + k)) ≡ none = sym at ∙ f in
            (
              rw (f, snap_to_pair_safe_head) (omega arith),
              rw (f', f, snap_to_pair_safe_head) (omega arith),
            ))
      | inr (x, f) ↦
          (let f' : get_elem? l' (suc (suc j + k)) ≡ some x = sym at ∙ f in
            elim (Bool-cases (is_tool x.message.role)) [
              | inl t ↦ (
                rw (f, snap_to_pair_safe_head, t) pos,
                rw (f', f, snap_to_pair_safe_head, t) (ap (snap_to_pair_safe_head l') back ∙ ih),
              )
              | inr t ↦ (
                rw (f, snap_to_pair_safe_head, t) (omega arith),
                rw (f', f, snap_to_pair_safe_head, t) (omega arith),
              )
            ])
    ]

get-drop : (xs : List HistoryEntry) (k i : ℕ) → get_elem? (drop k xs) i ≡ get_elem? xs (i + k)
get-drop [] zero i = refl
get-drop (x ∷ xs) zero i = let e : i + 0 ≡ i = omega arith in rw e refl
get-drop [] (suc k) i = refl
get-drop (x ∷ xs) (suc k) i =
    let e : i + suc k ≡ suc (i + k) = omega arith in rw e (get-drop xs k i)

get-append :
    (xs ys : List HistoryEntry) (i : ℕ) → i < length xs → get_elem? (xs ++ ys) i ≡ get_elem? xs i
get-append [] ys i h = absurd (omega arith)
get-append (x ∷ xs) ys zero h = refl
get-append (x ∷ xs) ys (suc i) h = get-append xs ys i (omega arith)

none-ge : (xs : List HistoryEntry) (i : ℕ) → get_elem? xs i ≡ none → length xs ≤ i
none-ge [] i h = omega arith
none-ge (x ∷ xs) zero h = cc
none-ge (x ∷ xs) (suc i) h = omega (arith, none-ge xs i h)

module _ (u : HistoryEntry) (is_brief : is_user u.message.role ≡ true) (l : ℕ) where
  abbrev limit : ℕ
  limit = suc (suc l)

  abbrev cut : List HistoryEntry → ℕ
  cut xs = snap_to_pair_safe_head (u ∷ xs) (suc (length xs) - suc l)

  fits : (xs : List HistoryEntry) → length xs ≤ suc l → prune_window limit (u ∷ xs) ≡ u ∷ xs
  unfolding prune_window
  fits xs h =
      let on : (limit == 0) ≡ false = ground arith in
      let e : leb (suc (length xs)) limit ≡ true = ground arith in rw (on, e) refl

  pinned-drop :
      (h : ℕ) (xs : List HistoryEntry) → pinned (some (0, u)) h (u ∷ xs) ≡ u ∷ drop (h - 1) xs
  pinned-drop zero xs = refl
  pinned-drop (suc h) xs =
      let e : suc h - 1 ≡ h = omega arith in
      let b : ltb 0 (suc h) ≡ true = ground arith in rw (e, b) refl

  over :
      (xs : List HistoryEntry)
      → suc l < length xs
      → prune_window limit (u ∷ xs) ≡ u ∷ drop (cut xs - 1) xs
  unfolding prune_window first_user_message
  over xs h =
      let e : leb (suc (length xs)) limit ≡ false = ground arith in
      let on : (limit == 0) ≡ false = ground arith in
      let m : limit - 1 ≡ suc l = omega arith in rw (on, e, is_brief, m) (pinned-drop (cut xs) xs)

  -- The entry that the window begins with, when it leaves some out.
  begins :
      (xs : List HistoryEntry) (k : ℕ)
      → suc l < length xs
      → cut xs ≡ suc k
      → (e : HistoryEntry) × (get_elem? xs k ≡ some e) × (is_tool e.message.role ≡ false)
  begins xs k h c =
      let b : suc k ≤ suc (length xs) - suc l =
        subst (λ (n : ℕ). n ≤ suc (length xs) - suc l) c (snap-le (u ∷ xs) _) in
      elim (subst (IsWhole (u ∷ xs)) c (snap-IsWhole (u ∷ xs) _)) [
        | inl z ↦ absurd (omega arith)
        | inr (inl n) ↦ absurd (omega (arith, none-ge xs k n))
        | inr (inr found) ↦ found
      ]

  shifted :
      (xs' : List HistoryEntry) (k : ℕ) (e : HistoryEntry)
      → suc k + l < length xs'
      → get_elem? xs' k ≡ some e
      → is_tool e.message.role ≡ false
      → k + (cut (drop k xs') - 1) ≡ cut xs' - 1
  shifted xs' k e h g n =
      let j : ℕ = length xs' - k - suc l in
      let (pos, moved) =
        snap-shift (u ∷ drop k xs') (u ∷ xs') k e (get-drop xs' k)
          (get-drop xs' k 0 ∙ (let z : 0 + k ≡ k = omega arith in rw z g)) n j in
      let near : suc (length (drop k xs')) - suc l ≡ suc j = omega (arith, length-drop k xs') in
      let far : suc (length xs') - suc l ≡ suc (j + k) = omega arith in rw (near, far) (omega arith)

  step-over :
      (xs : List HistoryEntry) (x : HistoryEntry) (k : ℕ)
      → suc l < length xs
      → cut xs ≡ suc k
      → prune_window limit (u ∷ (drop k xs ++ x ∷ [])) ≡ prune_window limit (u ∷ (xs ++ x ∷ []))
  step-over xs x k h c =
      let b : suc k ≤ suc (length xs) - suc l =
        subst (λ (n : ℕ). n ≤ suc (length xs) - suc l) c (snap-le (u ∷ xs) _) in
      let xs' : List HistoryEntry = xs ++ x ∷ [] in
      let shorter : drop k xs ++ x ∷ [] ≡ drop k xs' =
        sym (drop-append k xs (x ∷ []) (omega arith)) in
      let n' : length xs' ≡ suc (length xs) = omega (arith, length-append xs (x ∷ [])) in
      let n : length (drop k xs') ≡ suc (length xs) - k = omega (arith, n', length-drop k xs') in
      let (e, g, whole) = begins xs k h c in
      rw shorter (
        over (drop k xs') (omega arith)
        ∙ ap (λ (r : List HistoryEntry). u ∷ r)
            (drop-drop (cut (drop k xs') - 1) k xs'
              ∙ ap (λ (m : ℕ). drop m xs')
                  (shifted xs' k e (omega arith) (get-append xs (x ∷ []) k (omega arith) ∙ g)
                    whole))
        ∙ sym (over xs' (omega arith)))

  -- Pruning before an append changes nothing of the window behind it.
  pub step :
      (xs : List HistoryEntry) (x : HistoryEntry)
      → prune_window limit (prune_window limit (u ∷ xs) ++ x ∷ [])
        ≡ prune_window limit (u ∷ (xs ++ x ∷ []))
  step xs x = elim (Bool-cases (ltb (suc l) (length xs))) [
    | inr small ↦ rw (fits xs (ground arith)) refl
    | inl big ↦
        (let h : suc l < length xs = ground arith in rw (over xs h) (split xs x h (cut xs) refl))
  ]
    where
      split :
          (xs : List HistoryEntry) (x : HistoryEntry)
          → suc l < length xs
          → (c : ℕ) → cut xs ≡ c
          → prune_window limit (u ∷ (drop (c - 1) xs ++ x ∷ []))
            ≡ prune_window limit (u ∷ (xs ++ x ∷ []))
      split xs x h zero e = refl
      split xs x h (suc k) e = let d : suc k - 1 ≡ k = omega arith in rw d (step-over xs x k h e)
