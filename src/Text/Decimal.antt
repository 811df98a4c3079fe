-- ===== src/Text/Decimal.antt =====
-- Decimal printing: the digits spell the number, so two numbers never print alike.
use mathlib.Core.List.{foldl}
use neo4j_mcp_canary.Prelude.{
  ℕ, zero, suc, ◌+◌, ◌-◌, ◌*◌, ◌/◌, ◌%◌, ◌<◌, [], ◌∷◌, ◌≡◌, sym, ap, ◌∙◌, arith, ltb, Bool-cases,
  inl, inr, ltb→lt,
}
use neo4j_mcp_canary.Text.{Str, digits, itoa}

-- The number that digits spell behind `n`.
abbrev pub value : ℕ → Str → ℕ
value = foldl (λ n c. n * 10 + (c - b'0'))

digits-value : (f n : ℕ) (out : Str) → n < f → value 0 (digits f n out) ≡ value n out
unfolding digits
digits-value zero n out h = absurd (omega arith)
digits-value (suc f) n out h = elim (Bool-cases (ltb n 10)) [
  | inl small ↦ rw small (ap (λ m. value m out) (let p = ltb→lt n 10 small in omega arith))
  | inr large ↦ rw large (
      digits-value f (n / 10) ((b'0' + n % 10) ∷ out) (ground arith)
      ∙ ap (λ m. value m out) (omega arith))
]

pub value-itoa : (n : ℕ) → value 0 (itoa n) ≡ n
unfolding itoa
value-itoa n = digits-value (suc n) n [] (omega arith)

-- Two numbers that print alike are equal.
pub itoa_injective : (m n : ℕ) → itoa m ≡ itoa n → m ≡ n
itoa_injective m n e = sym (value-itoa m) ∙ ap (value 0) e ∙ value-itoa n
