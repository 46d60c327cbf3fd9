-- ===== src/Template/Pieces.antt =====
-- A text as pieces: what is between the tokens is copied, each token is replaced, once.
use hugen.Prelude.{
  ℕ, zero, suc, ◌<◌, ◌==◌, ◌≡◌, refl, ◌⊎◌, inl, inr, false, ◌&&◌, none, some, List, [], ◌∷◌, ◌++◌,
  arith, length, length-append,
}
use hugen.Prelude.Text.{Text, HasNo, split_first, split_first-append}
use hugen.Template.{Context, split_open, replacement, substitute_loop, substitute}

-- No token begins in the text.
abbrev pub NoOpen : Text → Type 0
NoOpen [] = Unit
NoOpen (a ∷ []) = Unit
NoOpen (a ∷ b ∷ s) = ((a == b'[' && b == b'$') ≡ false) × NoOpen (b ∷ s)

-- Literals and tokens in turn, and the rest.
abbrev pub join : List (Text × Text) → Text → Text
join [] rest = rest
join ((literal, token) ∷ pieces) rest = literal ++ b'[' ∷ b'$' ∷ (token ++ b']' ∷ join pieces rest)

abbrev pub with_values : Context → List (Text × Text) → Text → Text
with_values ctx [] rest = rest
with_values ctx ((literal, token) ∷ pieces) rest =
    literal ++ (replacement ctx token ++ with_values ctx pieces rest)

abbrev pub ArePieces : List (Text × Text) → Type 0
ArePieces [] = Unit
ArePieces ((literal, token) ∷ pieces) = NoOpen literal × HasNo b']' token × ArePieces pieces

split_open-append : (s t : Text) → NoOpen s → split_open (s ++ b'[' ∷ b'$' ∷ t) ≡ some (s, t)
unfolding split_open
split_open-append [] t h = refl
split_open-append (a ∷ []) t h = ground arith
split_open-append (a ∷ b ∷ s) t h = (let e = split_open-append (b ∷ s) t h.1 in rw (h.0, e) refl)

split_open-none : (s : Text) → NoOpen s → split_open s ≡ none
unfolding split_open
split_open-none [] h = refl
split_open-none (a ∷ []) h = refl
split_open-none (a ∷ b ∷ s) h = (let e = split_open-none (b ∷ s) h.1 in rw (h.0, e) refl)

-- The text ends without a further token: none begins, or the last one is not closed.
abbrev pub IsRest : Text → Type 0
IsRest rest =
    NoOpen rest
    ⊎ ((before : Text) × (after : Text) × NoOpen before
        × HasNo b']' after
        × (rest ≡ before ++ b'[' ∷ b'$' ∷ after))

split_first-none : (c : ℕ) (s : Text) → HasNo c s → split_first c s ≡ none
unfolding split_first
split_first-none c [] h = refl
split_first-none c (a ∷ s) h = ground (arith, split_first-none c s h.1)

loop-rest :
    (fuel : ℕ) (ctx : Context) (rest : Text)
    → IsRest rest
    → substitute_loop (suc fuel) ctx rest ≡ some rest
unfolding substitute_loop
loop-rest fuel ctx rest (inl h) = (let e = split_open-none rest h in simp (e, substitute_loop) refl)
loop-rest fuel ctx rest (inr (before, after, h, k, e)) =
    (let p : split_open rest ≡ some (before, after) = rw e (split_open-append before after h) in
      let q = split_first-none b']' after k in simp (p, q, substitute_loop) refl)

loop-step :
    (fuel : ℕ) (ctx : Context) (s before after token inner out : Text)
    → split_open s ≡ some (before, after)
    → split_first b']' after ≡ some (token, inner)
    → substitute_loop fuel ctx inner ≡ some out
    → substitute_loop (suc fuel) ctx s ≡ some (before ++ (replacement ctx token ++ out))
unfolding substitute_loop
loop-step fuel ctx s before after token inner out p q e = simp (p, q, e, substitute_loop) refl

shorter :
    (fuel : ℕ) (literal token inner : Text)
    → length (literal ++ b'[' ∷ b'$' ∷ (token ++ b']' ∷ inner)) < suc fuel
    → length inner < fuel
shorter fuel literal token inner l =
    let e = length-append literal (b'[' ∷ b'$' ∷ (token ++ b']' ∷ inner)) in
    let f = length-append token (b']' ∷ inner) in omega (arith, l, e, f)

loop-join :
    (fuel : ℕ) (ctx : Context) (pieces : List (Text × Text)) (rest : Text)
    → ArePieces pieces
    → IsRest rest
    → length (join pieces rest) < fuel
    → substitute_loop fuel ctx (join pieces rest) ≡ some (with_values ctx pieces rest)
loop-join zero ctx pieces rest h k l = absurd (omega arith)
loop-join (suc fuel) ctx [] rest h k l = loop-rest fuel ctx rest k
loop-join (suc fuel) ctx ((literal, token) ∷ pieces) rest h k l =
    let inner = join pieces rest in
    loop-step fuel ctx (join ((literal, token) ∷ pieces) rest) literal (token ++ b']' ∷ inner) token
      inner (with_values ctx pieces rest) (split_open-append literal (token ++ b']' ∷ inner) h.0)
      (split_first-append b']' token inner h.1)
      (loop-join fuel ctx pieces rest h.2 k (shorter fuel literal token inner l))

-- The substitution never runs out of fuel, and is one pass: of a text made of literals and tokens in
-- turn and a rest in which no token is both opened and closed, the literals and the rest are copied, and
-- each token is replaced by its value, or copied where it is not known, whatever is in that value.
pub substitute-join :
    (ctx : Context) (pieces : List (Text × Text)) (rest : Text)
    → ArePieces pieces
    → IsRest rest
    → (substitute_loop (suc (length (join pieces rest))) ctx (join pieces rest)
        ≡ some (with_values ctx pieces rest))
      × (substitute ctx (join pieces rest) ≡ with_values ctx pieces rest)
unfolding substitute
substitute-join ctx pieces rest h k =
    let e = loop-join (suc (length (join pieces rest))) ctx pieces rest h k (omega arith) in
    (e, rw e refl)
