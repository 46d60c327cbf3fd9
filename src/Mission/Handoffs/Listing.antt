-- ===== src/Mission/Handoffs/Listing.antt =====
-- The order of the listed hand-offs: by time and then by ref, whatever the map's iteration gives.
use hugen.Prelude.{
  ◌≡◌, refl, ap, subst, ◌∙◌, inl, inr, true, false, List, [], ◌∷◌, reverse, arith, Bool-cases, All,
  All-append, ◌++◌,
}
use mathlib.Core.List.{Permᴰ, reverse-cons}
use mathlib.Core.List.Permᴰ
use hugen.Prelude.Text.{Text, text_eq}
use hugen.Mission.Handoffs.{
  Handoff, text_lt, listed_before, insert_handoff, insert_all, list_handoffs,
}

text_lt_total : (s t : Text) → text_lt s t ≡ false → text_eq s t ≡ false → text_lt t s ≡ true
unfolding text_lt text_eq
text_lt_total [] [] h e = cc
text_lt_total [] (b ∷ t) h e = cc
text_lt_total (a ∷ s) [] h e = refl
text_lt_total (a ∷ s) (b ∷ t) h e = ground (arith, text_lt_total s t)

text_lt_asym : (s t : Text) → text_lt s t ≡ true → text_lt t s ≡ false
unfolding text_lt
text_lt_asym [] [] h = cc
text_lt_asym [] (b ∷ t) h = refl
text_lt_asym (a ∷ s) [] h = cc
text_lt_asym (a ∷ s) (b ∷ t) h = ground (arith, text_lt_asym s t)

text_lt_trans : (s t u : Text) → text_lt s t ≡ true → text_lt t u ≡ true → text_lt s u ≡ true
unfolding text_lt
text_lt_trans s [] u h k = cc
text_lt_trans s (b ∷ t) [] h k = cc
text_lt_trans [] (b ∷ t) (c ∷ u) h k = refl
text_lt_trans (a ∷ s) (b ∷ t) (c ∷ u) h k = ground (arith, text_lt_trans s t u)

listed_before_total :
    (a b : Handoff)
    → text_eq a.ref b.ref ≡ false
    → listed_before a b ≡ false
    → listed_before b a ≡ true
unfolding listed_before
listed_before_total a b e h = ground (arith, text_lt_total a.ref b.ref)

listed_before_asym : (a b : Handoff) → listed_before a b ≡ true → listed_before b a ≡ false
unfolding listed_before
listed_before_asym a b h = ground (arith, text_lt_asym a.ref b.ref)

listed_before_trans :
    (a b c : Handoff)
    → listed_before a b ≡ true
    → listed_before b c ≡ true
    → listed_before a c ≡ true
unfolding listed_before
listed_before_trans a b c h k = ground (arith, text_lt_trans a.ref b.ref c.ref)

insert_handoff_comm :
    (a b : Handoff) (l : List Handoff)
    → text_eq a.ref b.ref ≡ false
    → text_eq b.ref a.ref ≡ false
    → insert_handoff a (insert_handoff b l) ≡ insert_handoff b (insert_handoff a l)
unfolding insert_handoff
insert_handoff_comm a b [] e e' = elim (Bool-cases (listed_before a b)) [
  | inl f ↦ (let g = listed_before_asym a b f in rw (f, g) refl)
  | inr f ↦ (let g = listed_before_total a b e f in rw (f, g) refl)
]
insert_handoff_comm a b (h ∷ l) e e' = elim (Bool-cases (listed_before h a)) [
  | inl p ↦ elim (Bool-cases (listed_before h b)) [
    | inl q ↦ elim (Bool-cases (listed_before a b)) [
      | inl f ↦ (let g = listed_before_asym a b f in simp (p, q, f, g, insert_handoff) refl)
      | inr f ↦ (let g = listed_before_total a b e f in simp (p, q, f, g, insert_handoff) refl)
    ]
    | inr q ↦ elim (Bool-cases (listed_before a b)) [
      | inl f ↦ (let g = listed_before_trans h a b p f in absurd (cc))
      | inr f ↦ simp (p, q, f, insert_handoff) refl
    ]
  ]
  | inr p ↦ elim (Bool-cases (listed_before h b)) [
    | inl q ↦ elim (Bool-cases (listed_before b a)) [
      | inl f ↦ (let g = listed_before_trans h b a q f in absurd (cc))
      | inr f ↦ simp (p, q, f, insert_handoff) refl
    ]
    | inr q ↦ simp (p, q, insert_handoff) (ap (λ r. h ∷ r) (insert_handoff_comm a b l e e'))
  ]
]

-- Refs that differ.
abbrev pub Apart : Handoff → List Handoff → Type 0
Apart a [] = Unit
Apart a (b ∷ l) = (text_eq a.ref b.ref ≡ false) × (text_eq b.ref a.ref ≡ false) × Apart a l

-- The values of a map under their refs: no two of them have the same.
abbrev pub Distinct : List Handoff → Type 0
Distinct [] = Unit
Distinct (a ∷ l) = Apart a l × Distinct l

Apart-perm : (c : Handoff) (l l' : List Handoff) → Permᴰ l l' → Apart c l → Apart c l'
Apart-perm c _ _ Permᴰ.nil h = tt
Apart-perm c _ _ (Permᴰ.cons {a = a} {b = b} {l₁ = l} {l₂ = l'} e p) h =
    rw⁻¹ e (h.0, h.1, Apart-perm c l l' p h.2)
Apart-perm c _ _ (Permᴰ.swap {a = a} {b = b} {a' = a'} {b' = b'} {l = l} e f) h =
    rw⁻¹ (e, f) (h.2.0, h.2.1, (h.0, h.1, h.2.2))
Apart-perm c l l'' (Permᴰ.trans {l₂ = l'} p q) h = Apart-perm c l' l'' q (Apart-perm c l l' p h)

Distinct-perm : (l l' : List Handoff) → Permᴰ l l' → Distinct l → Distinct l'
Distinct-perm _ _ Permᴰ.nil h = tt
Distinct-perm _ _ (Permᴰ.cons {a = a} {b = b} {l₁ = l} {l₂ = l'} e p) h =
    rw⁻¹ e (Apart-perm a l l' p h.0, Distinct-perm l l' p h.1)
Distinct-perm _ _ (Permᴰ.swap {a = a} {b = b} {a' = a'} {b' = b'} {l = l} e f) h =
    subst (λ y. Distinct (a' ∷ y ∷ l)) e
      (subst (λ x. Distinct (x ∷ a ∷ l)) f ((h.0.1, h.0.0, h.1.0), (h.0.2, h.1.1)))
Distinct-perm l l'' (Permᴰ.trans {l₂ = l'} p q) h = Distinct-perm l' l'' q (Distinct-perm l l' p h)

insert_all-perm :
    (l l' earlier : List Handoff)
    → Permᴰ l l'
    → Distinct l
    → insert_all earlier l ≡ insert_all earlier l'
unfolding insert_all
insert_all-perm _ _ earlier Permᴰ.nil h = refl
insert_all-perm _ _ earlier (Permᴰ.cons {a = a} {b = b} {l₁ = l} {l₂ = l'} e p) h =
    rw⁻¹ e (insert_all-perm l l' (insert_handoff a earlier) p h.1)
insert_all-perm _ _ earlier (Permᴰ.swap {a = a} {b = b} {a' = a'} {b' = b'} {l = l} e f) h =
    rw⁻¹ (e, f) (ap (λ x. insert_all x l) (insert_handoff_comm b a earlier (h.0.1) (h.0.0)))
insert_all-perm l l'' earlier (Permᴰ.trans {l₂ = l'} p q) h =
    insert_all-perm l l' earlier p h ∙ insert_all-perm l' l'' earlier q (Distinct-perm l l' p h)

-- Each comes listed_before all that follow; and the same of the reversed list.
abbrev pub Sorted : List Handoff → Type 0
Sorted [] = Unit
Sorted (a ∷ l) = All (λ b. listed_before a b ≡ true) l × Sorted l

abbrev Falling : List Handoff → Type 0
Falling [] = Unit
Falling (a ∷ l) = All (λ b. listed_before b a ≡ true) l × Falling l

insert_handoff-All :
    (P : Handoff → Type 0) (b : Handoff) (l : List Handoff)
    → P b
    → All P l
    → All P (insert_handoff b l)
unfolding insert_handoff
insert_handoff-All P b [] h k = (h, tt)
insert_handoff-All P b (a ∷ l) h k = elim (Bool-cases (listed_before a b)) [
  | inl e ↦ rw e (h, (k.0, k.1))
  | inr e ↦ rw e (k.0, insert_handoff-All P b l h k.1)
]

All-trans :
    (a b : Handoff) (l : List Handoff)
    → listed_before a b ≡ true
    → All (λ c. listed_before c a ≡ true) l
    → All (λ c. listed_before c b ≡ true) l
All-trans a b [] e h = tt
All-trans a b (c ∷ l) e h = (listed_before_trans c a b h.0 e, All-trans a b l e h.1)

insert_handoff-Falling :
    (b : Handoff) (l : List Handoff) → Apart b l → Falling l → Falling (insert_handoff b l)
unfolding insert_handoff
insert_handoff-Falling b [] p h = (tt, tt)
insert_handoff-Falling b (a ∷ l) p h = elim (Bool-cases (listed_before a b)) [
  | inl e ↦ rw e ((e, All-trans a b l e h.0), h)
  | inr e ↦
      (let g = listed_before_total a b p.1 e in
        rw e (
          insert_handoff-All (λ c. listed_before c a ≡ true) b l g h.0,
          insert_handoff-Falling b l p.2 h.1,
        ))
]

insert_handoff-Apart :
    (c b : Handoff) (l : List Handoff)
    → text_eq c.ref b.ref ≡ false
    → text_eq b.ref c.ref ≡ false
    → Apart c l
    → Apart c (insert_handoff b l)
unfolding insert_handoff
insert_handoff-Apart c b [] e f h = (e, f, tt)
insert_handoff-Apart c b (a ∷ l) e f h = elim (Bool-cases (listed_before a b)) [
  | inl g ↦ rw g (e, f, h)
  | inr g ↦ rw g (h.0, h.1, insert_handoff-Apart c b l e f h.2)
]

all_insert-Apart :
    (b : Handoff) (earlier rest : List Handoff)
    → Apart b rest
    → All (λ c. Apart c earlier) rest
    → All (λ c. Apart c (insert_handoff b earlier)) rest
all_insert-Apart b earlier [] p h = tt
all_insert-Apart b earlier (c ∷ rest) p h =
    (insert_handoff-Apart c b earlier p.1 p.0 h.0, all_insert-Apart b earlier rest p.2 h.1)

insert_all-Falling :
    (earlier rest : List Handoff)
    → Falling earlier
    → Distinct rest
    → All (λ c. Apart c earlier) rest
    → Falling (insert_all earlier rest)
unfolding insert_all
insert_all-Falling earlier [] f d h = f
insert_all-Falling earlier (b ∷ rest) f d h =
    insert_all-Falling (insert_handoff b earlier) rest (insert_handoff-Falling b earlier h.0 f) d.1
      (all_insert-Apart b earlier rest d.0 h.1)

all-Apart : (l : List Handoff) → All (λ c. Apart c []) l
all-Apart [] = tt
all-Apart (a ∷ l) = (tt, all-Apart l)

snoc-Sorted :
    (l : List Handoff) (x : Handoff)
    → All (λ b. listed_before b x ≡ true) l
    → Sorted l
    → Sorted (l ++ x ∷ [])
snoc-Sorted [] x h s = (tt, tt)
snoc-Sorted (a ∷ l) x h s =
    (All-append (λ b. listed_before a b ≡ true) l (x ∷ []) s.0 (h.0, tt), snoc-Sorted l x h.1 s.1)

reverse-All : (P : Handoff → Type 0) (l : List Handoff) → All P l → All P (reverse l)
reverse-All P [] h = tt
reverse-All P (a ∷ l) h =
    rw (reverse-cons a l) (All-append P (reverse l) (a ∷ []) (reverse-All P l h.1) (h.0, tt))

reverse-Sorted : (l : List Handoff) → Falling l → Sorted (reverse l)
reverse-Sorted [] h = tt
reverse-Sorted (a ∷ l) h = rw (reverse-cons a l) (
    snoc-Sorted (reverse l) a (reverse-All (λ b. listed_before b a ≡ true) l h.0)
      (reverse-Sorted l h.1))

insert_handoff-perm : (b : Handoff) (l : List Handoff) → Permᴰ (insert_handoff b l) (b ∷ l)
unfolding insert_handoff
insert_handoff-perm b [] = Permᴰ.refl (b ∷ [])
insert_handoff-perm b (a ∷ l) = elim (Bool-cases (listed_before a b)) [
  | inl e ↦ rw e (Permᴰ.refl (b ∷ a ∷ l))
  | inr e ↦ rw e (Permᴰ.trans (Permᴰ.cons refl (insert_handoff-perm b l)) (Permᴰ.swap refl refl))
]

insert_all-elements :
    (earlier rest : List Handoff) → Permᴰ (insert_all earlier rest) (earlier ++ rest)
unfolding insert_all
insert_all-elements earlier [] = Permᴰ.symm (Permᴰ.append-nil earlier)
insert_all-elements earlier (b ∷ rest) =
    Permᴰ.trans (insert_all-elements (insert_handoff b earlier) rest) (
      Permᴰ.trans (Permᴰ.append_right rest (insert_handoff-perm b earlier))
        (Permᴰ.symm (Permᴰ.middle b earlier rest)))

-- The list of the hand-offs of a map, whose refs differ, has each of them as often as the map, by time
-- and then by ref, and it is the same whatever the order in which the iteration gives them.
pub list_handoffs-Sorted :
    (values values' : List Handoff)
    → Permᴰ values values'
    → Distinct values
    → Permᴰ (list_handoffs values) values
      × Sorted (list_handoffs values)
      × (list_handoffs values ≡ list_handoffs values')
unfolding list_handoffs
list_handoffs-Sorted values values' p h = (
  Permᴰ.trans (Permᴰ.reverse (insert_all [] values)) (insert_all-elements [] values),
  reverse-Sorted (insert_all [] values) (insert_all-Falling [] values tt h (all-Apart values)),
  ap reverse (insert_all-perm values values' [] p h),
)
