-- ===== src/Session/FreeName.antt =====
-- The search for a free name ends, and the name it ends with is free.
use hugen.Prelude.{
  ℕ, zero, suc, ◌+◌, ◌/◌, ◌%◌, ◌≤◌, ◌<◌, ◌==◌, ltb, ◌≡◌, ◌≢◌, refl, sym, ap, ◌∙◌, inl, inr, Bool,
  true, false, Option, none, some, List, [], ◌∷◌, ◌++◌, if◌then◌else◌, length, any, map, take,
  arith, Bool-cases, length-append, length-map, ◌-◌,
}
use hugen.Prelude.Text.{Text, text_eq, text_eq_iff, HasNo}
use hugen.Mission.Criteria.Types.{itoa, digits_loop}
use hugen.Mission.Criteria.Numbers.{itoa-injective}
use hugen.Session.{
  Child, name_in_use, candidate, probe, resolve_child_name, sanitize_name, subagent_name_max,
}

-- The text behind the last dash.
after_dash : Text → Option Text
after_dash [] = none
after_dash (r ∷ s) = elim (after_dash s) [
  | some t ↦ some t
  | none ↦ if r == b'-' then some s else none
]

after_dash-none : (s : Text) → HasNo b'-' s → after_dash s ≡ none
unfolding after_dash
after_dash-none [] h = refl
after_dash-none (r ∷ s) h = (let e = after_dash-none s h.1 in simp (e, after_dash) (ground arith))

after_dash-append : (p s : Text) → HasNo b'-' s → after_dash (p ++ b'-' ∷ s) ≡ some s
unfolding after_dash
after_dash-append [] s h = (let e = after_dash-none s h in simp (e, after_dash) refl)
after_dash-append (r ∷ p) s h = (let e = after_dash-append p s h in simp (e, after_dash) refl)

digits-HasNo : (fuel n : ℕ) (acc : Text) → HasNo b'-' acc → HasNo b'-' (digits_loop fuel n acc)
unfolding digits_loop
digits-HasNo zero n acc h = h
digits-HasNo (suc fuel) n acc h = elim (Bool-cases (n == 0)) [
  | inl e ↦ rw e h
  | inr e ↦
      rw e
        (digits-HasNo fuel (n / 10) ((b'0' + n % 10) ∷ acc) ((λ q. absurd (omega (arith, q))), h))
]

itoa-HasNo : (n : ℕ) → HasNo b'-' (itoa n)
unfolding itoa
itoa-HasNo n = elim (Bool-cases (n == 0)) [
  | inl e ↦ rw e ((λ q. absurd (omega (arith, q))), tt)
  | inr e ↦ rw e (digits-HasNo n n [] tt)
]

candidate-tail : (base : Text) (i : ℕ) → after_dash (candidate base i) ≡ some (itoa i)
unfolding candidate
candidate-tail base i = elim (Bool-cases (ltb subagent_name_max (length (base ++ b'-' ∷ itoa i)))) [
  | inl e ↦ rw e (
      after_dash-append (take (subagent_name_max - length (b'-' ∷ itoa i)) base) (itoa i)
        (itoa-HasNo i))
  | inr e ↦ rw e (after_dash-append base (itoa i) (itoa-HasNo i))
]

-- No two numbers have the same candidate.
candidate-injective : (base : Text) (i j : ℕ) → candidate base i ≡ candidate base j → i ≡ j
candidate-injective base i j e =
    let p : some (itoa i) ≡ some (itoa j) =
      sym (candidate-tail base i) ∙ ap after_dash e ∙ candidate-tail base j in
    itoa-injective i j (cc)

-- The names in use, as one list.
abbrev member : Text → List Text → Bool
member name used = any (λ (u : Text). text_eq u name) used

abbrev used_names : List Child → List Text → List Text
used_names children pending = map (λ (c : Child). c.name) children ++ pending

in_use-member :
    (children : List Child) (pending : List Text) (name : Text)
    → name_in_use children pending name ≡ member name (used_names children pending)
unfolding name_in_use
in_use-member [] pending name = refl
in_use-member (c ∷ children) pending name =
    let e = in_use-member children pending name in ground arith

-- The loop over one list of names.
search : ℕ → List Text → Text → ℕ → Option Text
search zero used base i = none
search (suc fuel) used base i =
    let rest = search fuel used base (suc i) in
    if member (candidate base i) used then rest else some (candidate base i)

probe-search :
    (fuel : ℕ) (children : List Child) (pending : List Text) (base : Text) (i : ℕ)
    → probe fuel children pending base i ≡ search fuel (used_names children pending) base i
unfolding probe search
probe-search zero children pending base i = refl
probe-search (suc fuel) children pending base i =
    rw
      (
        in_use-member children pending (candidate base i),
        probe-search fuel children pending base (suc i),
      )
      refl

without : Text → List Text → List Text
without name [] = []
without name (u ∷ used) = if text_eq u name then without name used else u ∷ without name used

length-without_le : (name : Text) (used : List Text) → length (without name used) ≤ length used
unfolding without
length-without_le name [] = omega arith
length-without_le name (u ∷ used) = elim (Bool-cases (text_eq u name)) [
  | inl e ↦ rw e (omega (arith, length-without_le name used))
  | inr e ↦ rw e (omega (arith, length-without_le name used))
]

length-without :
    (name : Text) (used : List Text)
    → member name used ≡ true
    → length (without name used) < length used
unfolding without
length-without name [] h = cc
length-without name (u ∷ used) h = elim (Bool-cases (text_eq u name)) [
  | inl e ↦ rw e (omega (arith, length-without_le name used))
  | inr e ↦ (let h' = rw e at h in rw e (omega (arith, length-without name used h')))
]

member-without :
    (name x : Text) (used : List Text) → (x ≢ name) → member x (without name used) ≡ member x used
unfolding without
member-without name x [] n = refl
member-without name x (u ∷ used) n = elim (Bool-cases (text_eq u name)) [
  | inl e ↦
      (let p : u ≡ name = (text_eq_iff u name).0 e in
        elim (Bool-cases (text_eq u x)) [
          | inl f ↦ absurd (n (sym ((text_eq_iff u x).0 f) ∙ p))
          | inr f ↦ rw (e, f) (member-without name x used n)
        ])
  | inr e ↦ rw (e, member-without name x used n) refl
]

-- A name whose number has passed may be forgotten.
search-without :
    (fuel : ℕ) (used : List Text) (base : Text) (i j : ℕ)
    → i < j
    → search fuel (without (candidate base i) used) base j ≡ search fuel used base j
unfolding search
search-without zero used base i j h = refl
search-without (suc fuel) used base i j h =
    rw
      (
        member-without (candidate base i) (candidate base j) used
            (λ e. absurd (omega (arith, candidate-injective base j i e))),
        search-without fuel used base i (suc j) (omega arith),
      )
      refl

search-finds :
    (n : ℕ) (used : List Text) (base : Text) (i : ℕ)
    → length used ≤ n
    → (name : Text) × (search (suc n) used base i ≡ some name)
unfolding search
search-finds zero [] base i h = (candidate base i, refl)
search-finds zero (u ∷ used) base i h = absurd (omega arith)
search-finds (suc n) used base i h = elim (Bool-cases (member (candidate base i) used)) [
  | inr e ↦ (candidate base i, rw e refl)
  | inl e ↦
      (let l : length (without (candidate base i) used) ≤ n =
          omega (arith, length-without (candidate base i) used e) in
        let (name, p) = search-finds n (without (candidate base i) used) base (suc i) l in
        (name, rw e (sym (search-without (suc n) used base i (suc i) (omega arith)) ∙ p)))
]

search-free :
    (fuel : ℕ) (used : List Text) (base : Text) (i : ℕ) (name : Text)
    → search fuel used base i ≡ some name
    → member name used ≡ false
unfolding search
search-free zero used base i name h = cc
search-free (suc fuel) used base i name h = elim (Bool-cases (member (candidate base i) used)) [
  | inl e ↦ search-free fuel used base (suc i) name (rw e at h)
  | inr e ↦
      (let k : some (candidate base i) ≡ some name = rw e at h in
        let p : candidate base i ≡ name = cc in ap (λ (x : Text). member x used) (sym p) ∙ e)
]

length-used :
    (children : List Child) (pending : List Text)
    → length (used_names children pending) ≡ length children + length pending
length-used children pending = omega (
  arith,
  length-append (map (λ (c : Child). c.name) children) pending,
  length-map (λ (c : Child). c.name) children,
)

-- A child always gets a name that no live child and no pending spawn has: one try more than there are
-- names in use is enough.
pub resolve_child_name-ends :
    (fuel : ℕ) (lower : Text → List ℕ) (children : List Child) (pending : List Text) (raw : Text)
    → length children + length pending < fuel
    → (name : Text) × (resolve_child_name fuel lower children pending raw ≡ some name)
      × (name_in_use children pending name ≡ false)
unfolding resolve_child_name
resolve_child_name-ends zero lower children pending raw h = absurd (omega arith)
resolve_child_name-ends (suc n) lower children pending raw h =
    let base = sanitize_name lower raw in
    let used = used_names children pending in
    elim (Bool-cases (name_in_use children pending base)) [
      | inr e ↦ (base, rw e refl, e)
      | inl e ↦
          (let (name, p) =
              search-finds n used base 2 (omega (arith, h, length-used children pending)) in
            (
              name,
              rw e (probe-search (suc n) children pending base 2 ∙ p),
              in_use-member children pending name ∙ search-free (suc n) used base 2 name p,
            ))
    ]
