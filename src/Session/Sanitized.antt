-- ===== src/Session/Sanitized.antt =====
-- Every text becomes a name: its length and its characters.
use hugen.Prelude.{
  ℕ, zero, suc, ◌≤◌, ◌<◌, ◌==◌, ltb, ◌≡◌, refl, inl, inr, Bool, true, false, ◌||◌, List, [], ◌∷◌,
  reverse, length, take, All, All-append, length-append, length-take, arith, Bool-cases,
}
use mathlib.Core.List.{reverse-cons}
use hugen.Prelude.Text.{Text, codes, text_eq}
use hugen.Session.{
  is_letter, is_digit, replaced, collapse_dashes, trim_left, trim_right, trim, name_fallback,
  cut_to_max, pad_to_min, sanitize_name, or_fallback,
}

abbrev pub is_name_char : ℕ → Bool
is_name_char r = is_letter r || (is_digit r || r == b'-')

-- `[a-z0-9-]{2,32}`
abbrev pub IsName : Text → Type 0
IsName s = (2 ≤ length s) × (length s ≤ 32) × All (λ r. is_name_char r ≡ true) s

abbrev AreNameChars : Text → Type 0
AreNameChars s = All (λ r. is_name_char r ≡ true) s

replaced-AreNameChars : (runes : List ℕ) → AreNameChars (replaced runes)
unfolding replaced
replaced-AreNameChars [] = tt
replaced-AreNameChars (r ∷ runes) = (ground arith, replaced-AreNameChars runes)

collapse-AreNameChars : (b : Bool) (s : Text) → AreNameChars s → AreNameChars (collapse_dashes b s)
unfolding collapse_dashes
collapse-AreNameChars b [] h = tt
collapse-AreNameChars b (r ∷ s) h = elim (Bool-cases (r == b'-')) [
  | inr e ↦ rw e (h.0, collapse-AreNameChars false s h.1)
  | inl e ↦ rw e (elim (Bool-cases b) [
    | inl f ↦ rw f (collapse-AreNameChars true s h.1)
    | inr f ↦ rw f (h.0, collapse-AreNameChars true s h.1)
  ])
]

trim_left-AreNameChars : (s : Text) → AreNameChars s → AreNameChars (trim_left s)
unfolding trim_left
trim_left-AreNameChars [] h = tt
trim_left-AreNameChars (r ∷ s) h = elim (Bool-cases (r == b'-')) [
  | inl e ↦ rw e (trim_left-AreNameChars s h.1)
  | inr e ↦ rw e h
]

reverse-AreNameChars : (s : Text) → AreNameChars s → AreNameChars (reverse s)
reverse-AreNameChars [] h = tt
reverse-AreNameChars (r ∷ s) h = rw (reverse-cons r s) (
    All-append (λ c. is_name_char c ≡ true) (reverse s) (r ∷ []) (reverse-AreNameChars s h.1)
      (h.0, tt))

trim_right-AreNameChars : (s : Text) → AreNameChars s → AreNameChars (trim_right s)
unfolding trim_right
trim_right-AreNameChars s h =
    reverse-AreNameChars (trim_left (reverse s))
      (trim_left-AreNameChars (reverse s) (reverse-AreNameChars s h))

take-AreNameChars : (n : ℕ) (s : Text) → AreNameChars s → AreNameChars (take n s)
take-AreNameChars zero s h = tt
take-AreNameChars (suc n) [] h = tt
take-AreNameChars (suc n) (r ∷ s) h = (h.0, take-AreNameChars n s h.1)

length-reverse : (s : Text) → length (reverse s) ≡ length s
length-reverse [] = refl
length-reverse (r ∷ s) =
    rw (reverse-cons r s) (omega (arith, length-reverse s, length-append (reverse s) (r ∷ [])))

length-trim_left : (s : Text) → length (trim_left s) ≤ length s
unfolding trim_left
length-trim_left [] = omega arith
length-trim_left (r ∷ s) = elim (Bool-cases (r == b'-')) [
  | inl e ↦ rw e (omega (arith, length-trim_left s))
  | inr e ↦ rw e (omega arith)
]

length-trim_right : (s : Text) → length (trim_right s) ≤ length s
unfolding trim_right
length-trim_right s =
    omega (
      arith,
      length-reverse (trim_left (reverse s)),
      length-trim_left (reverse s),
      length-reverse s,
    )

pos : (s : Text) → text_eq s [] ≡ false → 1 ≤ length s
unfolding text_eq
pos [] e = cc
pos (r ∷ s) e = omega arith

-- Not empty, and of the characters.
abbrev Body : Text → Type 0
Body s = (1 ≤ length s) × AreNameChars s

fallback-Body : Body name_fallback
fallback-Body = (omega arith, (refl, (refl, (refl, (refl, (refl, (refl, (refl, (refl, tt)))))))))

or_fallback-Body : (s : Text) → AreNameChars s → Body (or_fallback s)
or_fallback-Body s h = elim (Bool-cases (text_eq s [])) [
  | inl e ↦ rw e fallback-Body
  | inr e ↦ rw e (pos s e, h)
]

or_fallback-length : (s : Text) → length s ≤ 32 → length (or_fallback s) ≤ 32
or_fallback-length s h = elim (Bool-cases (text_eq s [])) [
  | inl e ↦ rw e (omega arith)
  | inr e ↦ rw e h
]

cut-Body : (s : Text) → Body s → Body (cut_to_max s) × (length (cut_to_max s) ≤ 32)
unfolding cut_to_max
cut-Body s h = elim (Bool-cases (ltb 32 (length s))) [
  | inl e ↦
      (let t = trim_right (take 32 s) in
        let l : length t ≤ 32 = omega (arith, length-trim_right (take 32 s), length-take 32 s) in
        rw e (
          or_fallback-Body t (trim_right-AreNameChars (take 32 s) (take-AreNameChars 32 s h.1)),
          or_fallback-length t l,
        ))
  | inr e ↦ rw e (h, ground arith)
]

pad-IsName : (s : Text) → Body s → length s ≤ 32 → IsName (pad_to_min s)
unfolding pad_to_min
pad-IsName s h l = elim (Bool-cases (ltb (length s) 2)) [
  | inl e ↦ rw e (
    omega (arith, h.0, length-append s (codes "-x")),
    (let p : length s < 2 = ground arith in omega (arith, length-append s (codes "-x"))),
    All-append (λ c. is_name_char c ≡ true) s (codes "-x") h.1 (refl, (refl, tt)),
  )
  | inr e ↦ rw e (ground arith, l, h.1)
]

-- Whatever the text and its lower-casing, the name has 2 to 32 characters, all of them small letters,
-- digits or dashes.
pub sanitize_name-IsName : (lower : Text → List ℕ) (raw : Text) → IsName (sanitize_name lower raw)
unfolding sanitize_name trim
sanitize_name-IsName lower raw =
    let s = replaced (lower raw) in
    let c = collapse_dashes false s in
    let chars = trim_right-AreNameChars (trim_left c) (
      trim_left-AreNameChars c
        (collapse-AreNameChars false s (replaced-AreNameChars (lower raw)))) in
    let body = or_fallback-Body (trim_right (trim_left c)) chars in
    let cut = cut-Body (or_fallback (trim_right (trim_left c))) body in
    pad-IsName (cut_to_max (or_fallback (trim_right (trim_left c)))) cut.0 cut.1
