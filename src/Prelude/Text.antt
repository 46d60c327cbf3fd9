-- ===== src/Prelude/Text.antt =====
-- Go strings: sequences of bytes, with the functions of the package `strings` that the source uses.
use Prim.Native.Char.{code}
use Prim.Native.Nat.{ℕ, zero, suc}
use Prim.Native.String.{String}
use mathlib.Core.Path.{◌≡◌, refl}
use mathlib.Core.Logic.{◌↔◌, ◌≢◌}
use mathlib.Core.Bool.{Bool, true, false, ◌&&◌, ◌||◌}
use mathlib.Core.Option
use mathlib.Core.Option.{Option, none, some}
use mathlib.Core.List.{List, [], ◌∷◌, ◌++◌, reverse}
use native.Mathlib.Omega.{arith}
use hugen.Prelude.Tests.{leb, ◌==◌, if◌then◌else◌}

abbrev pub Text : Type 0
Text = List ℕ

-- The bytes of an ASCII literal.
abbrev pub codes : String → Text
codes String.[] = []
codes (String.◌∷◌ c s) = code c ∷ codes s

-- `s == t`
unfoldable pub text_eq : Text → Text → Bool
text_eq [] [] = true
text_eq [] (b ∷ t) = false
text_eq (a ∷ s) [] = false
text_eq (a ∷ s) (b ∷ t) = a == b && text_eq s t

pub text_eq_refl : (s : Text) → text_eq s s ≡ true
unfolding text_eq
text_eq_refl [] = refl
text_eq_refl (a ∷ s) = ground (arith, text_eq_refl s)

pub eq_of_text_eq : (s t : Text) → text_eq s t ≡ true → s ≡ t
unfolding text_eq
eq_of_text_eq [] [] h = refl
eq_of_text_eq [] (b ∷ t) h = cc
eq_of_text_eq (a ∷ s) [] h = cc
eq_of_text_eq (a ∷ s) (b ∷ t) h = ground (arith, eq_of_text_eq s t)

-- The Boolean test is equality.
pub text_eq_iff : (s t : Text) → (text_eq s t ≡ true) ↔ (s ≡ t)
text_eq_iff s t = (eq_of_text_eq s t, λ e. rw e (text_eq_refl t))

-- `strings.HasPrefix`
unfoldable pub has_prefix : Text → Text → Bool
has_prefix s [] = true
has_prefix [] (b ∷ p) = false
has_prefix (a ∷ s) (b ∷ p) = a == b && has_prefix s p

-- `strings.CutPrefix`, with `none` where the prefix is not there.
unfoldable pub cut_prefix : Text → Text → Option Text
cut_prefix s [] = some s
cut_prefix [] (b ∷ p) = none
cut_prefix (a ∷ s) (b ∷ p) = if a == b then cut_prefix s p else none

-- `strings.Index` of a one-byte text, with `none` for -1.
unfoldable pub index_byte : ℕ → Text → Option ℕ
index_byte c [] = none
index_byte c (a ∷ s) = if a == c then some 0 else Option.map suc (index_byte c s)

-- `strings.HasSuffix(s, "c")` and `strings.TrimSuffix(s, "c")` of a one-byte text.
unfoldable pub ends_with_byte : ℕ → Text → Bool
ends_with_byte c [] = false
ends_with_byte c (a ∷ []) = a == c
ends_with_byte c (a ∷ b ∷ s) = ends_with_byte c (b ∷ s)

unfoldable pub drop_last : Text → Text
drop_last [] = []
drop_last (a ∷ []) = []
drop_last (a ∷ b ∷ s) = a ∷ drop_last (b ∷ s)

-- The two sides of the first separator: `strings.SplitN(s, "c", 2)`, with `none` for one part.
unfoldable pub split_first : ℕ → Text → Option (Text × Text)
split_first c [] = none
split_first c (a ∷ s) =
    if a == c
    then some ([], s)
    else Option.map (λ (p : Text × Text). (a ∷ p.0, p.1)) (split_first c s)

abbrev pub HasNo : ℕ → Text → Type 0
HasNo c [] = Unit
HasNo c (a ∷ s) = (a ≢ c) × HasNo c s

pub HasNo-of_index : (c : ℕ) (s : Text) → index_byte c s ≡ none → HasNo c s
unfolding index_byte
HasNo-of_index c [] h = tt
HasNo-of_index c (a ∷ s) h = go (a == c) refl (index_byte c s) refl h (HasNo-of_index c s)
  where
    go :
        (b : Bool)
        → (a == c) ≡ b
        → (o : Option ℕ) → index_byte c s ≡ o
        → (if b then some 0 else Option.map suc o) ≡ none
        → (index_byte c s ≡ none → HasNo c s)
        → HasNo c (a ∷ s)
    go true e o f k ih = cc
    go false e none f k ih = ((λ q. absurd (ground arith)), ih f)
    go false e (some i) f k ih = cc

-- A text without the separator is read back whole, with the rest behind the separator.
pub split_first-append : (c : ℕ) (s t : Text) → HasNo c s → split_first c (s ++ c ∷ t) ≡ some (s, t)
unfolding split_first
split_first-append c [] t h = ground arith
split_first-append c (a ∷ s) t h = ground (arith, split_first-append c s t)

-- What `split_first` returns is a splitting of the text at the first separator.
pub split_first-eq :
    (c : ℕ) (s l r : Text) → split_first c s ≡ some (l, r) → (s ≡ l ++ c ∷ r) × HasNo c l
unfolding split_first
split_first-eq c [] l r h = cc
split_first-eq c (a ∷ s) [] r h = ground arith
split_first-eq c (a ∷ s) (b ∷ l) r h = ground (arith, split_first-eq c s l r)

is_ascii_space : ℕ → Bool
is_ascii_space a = leb 9 a && leb a 13 || a == 32

-- U+0085 and U+00A0 in two bytes; U+1680, U+2000 to U+200A, U+2028, U+2029, U+202F, U+205F and
-- U+3000 in three.
wide_space : ℕ → Text → ℕ
wide_space a (b ∷ c ∷ s) =
    if a == 0xc2 && (b == 0x85 || b == 0xa0)
    then 2
    else if a == 0xe1 && b == 0x9a && c == 0x80
    then 3
    else if a == 0xe2
        && b == 0x80
        && (leb 0x80 c && leb c 0x8a || c == 0xa8 || c == 0xa9 || c == 0xaf)
    then 3
    else if a == 0xe2 && b == 0x81 && c == 0x9f
    then 3
    else if a == 0xe3 && b == 0x80 && c == 0x80
    then 3
    else 0
wide_space a (b ∷ []) = if a == 0xc2 && (b == 0x85 || b == 0xa0) then 2 else 0
wide_space a [] = 0

-- The bytes of the white-space character that a text begins with, 0 where it begins with none:
-- `unicode.IsSpace` over UTF-8.
space_width : Text → ℕ
space_width [] = 0
space_width (a ∷ s) = if is_ascii_space a then 1 else wide_space a s

-- `strings.TrimLeft` by a test for white space: `k` bytes of a character are still to be skipped.
trim_by : (Text → ℕ) → ℕ → Text → Text
trim_by width k [] = []
trim_by width (suc k) (a ∷ s) = trim_by width k s
trim_by width zero (a ∷ s) = elim (width (a ∷ s)) [ zero ↦ a ∷ s | suc k ↦ trim_by width k s ]

-- The same of a reversed text, whose last character comes first with its bytes reversed.
back_width : Text → ℕ
back_width [] = 0
back_width (a ∷ []) = if is_ascii_space a then 1 else 0
back_width (a ∷ b ∷ []) = if is_ascii_space a then 1 else wide_space b (a ∷ [])
back_width (a ∷ b ∷ c ∷ s) =
    if is_ascii_space a
    then 1
    else if wide_space b (a ∷ []) == 2
    then 2
    else if wide_space c (b ∷ a ∷ []) == 3
    then 3
    else 0

-- `strings.TrimSpace`
unfoldable pub trim_space : Text → Text
unfolding space_width back_width trim_by is_ascii_space wide_space
trim_space s = reverse (trim_by back_width 0 (reverse (trim_by space_width 0 s)))

trim_space_test : trim_space (codes " a b\t ") ≡ codes "a b"
unfolding trim_space
trim_space_test = refl
