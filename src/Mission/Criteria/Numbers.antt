-- ===== src/Mission/Criteria/Numbers.antt =====
-- The numbers in the ids: `itoa` is read back.
use hugen.Prelude.{
  ℕ, zero, suc, ◌+◌, ◌-◌, ◌*◌, ◌/◌, ◌%◌, ◌≤◌, ◌≡◌, refl, sym, ap, ◌∙◌, inl, inr, [], ◌∷◌, arith,
  ◌==◌, ==_iff, Bool-cases,
}
use hugen.Prelude.Text.{Text}
use hugen.Mission.Criteria.Types.{digits_loop, itoa}
use hugen.Mission.Criteria.{ac_id}

-- A decimal reading of a text, behind the value `n` of the digits before it.
pub decimal : ℕ → Text → ℕ
decimal n [] = n
decimal n (d ∷ ds) = decimal (n * 10 + (d - b'0')) ds

decimal-digits_loop :
    (fuel n : ℕ) (acc : Text) → n ≤ fuel → decimal 0 (digits_loop fuel n acc) ≡ decimal n acc
unfolding digits_loop
decimal-digits_loop zero n acc h = ap (λ (m : ℕ). decimal m acc) {x = 0} {y = n} (omega arith)
decimal-digits_loop (suc fuel) n acc h = elim (Bool-cases (n == 0)) [
  | inl e ↦ rw e (ap (λ (m : ℕ). decimal m acc) {x = 0} {y = n} (sym ((==_iff n 0).0 e)))
  | inr e ↦ rw e (
      decimal-digits_loop fuel (n / 10) ((b'0' + n % 10) ∷ acc) (ground arith)
      ∙ (unfold decimal in
          ap (λ (m : ℕ). decimal m acc) {x = n / 10 * 10 + (b'0' + n % 10 - b'0')} {y = n}
            (omega arith)))
]

-- The decimal reading of `itoa n` is `n`, for every `n`: the buffer's loop writes all its digits.
pub decimal-itoa : (n : ℕ) → decimal 0 (itoa n) ≡ n
unfolding itoa
decimal-itoa zero = unfold decimal in refl
decimal-itoa (suc n) = elim (Bool-cases (suc n == 0)) [
  | inl e ↦ ground arith
  | inr e ↦ rw e (decimal-digits_loop (suc n) (suc n) [] (omega arith) ∙ (unfold decimal in refl))
]

pub itoa-injective : (m n : ℕ) → itoa m ≡ itoa n → m ≡ n
itoa-injective m n e = sym (decimal-itoa m) ∙ ap (decimal 0) e ∙ decimal-itoa n

pub ac_id-injective : (m n : ℕ) → ac_id m ≡ ac_id n → m ≡ n
unfolding ac_id
ac_id-injective m n e = itoa-injective m n (cc e)
