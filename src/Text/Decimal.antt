-- ===== src/Text/Decimal.antt =====
-- `String(n)` for a natural number: the digits stand for the number, whatever its size.
use wuflow.Base.{
  ℕ, zero, suc, ◌+◌, ◌-◌, ◌*◌, ◌<◌, [], ◌∷◌, ◌≡◌, ◌∙◌, leb, Bool-cases, inl, inr, arith, ap,
}
use Prim.Native.Nat.{◌/◌, ◌%◌}
use wuflow.Model.{Text}
use wuflow.Text.{digits_from, decimal}

-- The number that digits stand for, behind those already read.
abbrev pub read_digits : ℕ → Text → ℕ
read_digits v [] = v
read_digits v (c ∷ cs) = read_digits (v * 10 + (c - 48)) cs

read_digits-digits_from :
    (fuel n : ℕ) (acc : Text)
    → n < fuel
    → read_digits 0 (digits_from fuel n acc) ≡ read_digits n acc
unfolding digits_from
read_digits-digits_from zero n acc h = absurd (omega arith)
read_digits-digits_from (suc fuel) n acc h = elim (Bool-cases (leb n 9)) [
  | inl t ↦
      let e : 0 * 10 + (48 + n % 10 - 48) ≡ n = ground arith in
      rw t (ap (λ (v : ℕ). read_digits v acc) e)
  | inr t ↦
      let e : n / 10 * 10 + (48 + n % 10 - 48) ≡ n = omega arith in
      rw t (
        read_digits-digits_from fuel (n / 10) ((48 + n % 10) ∷ acc) (ground arith)
        ∙ ap (λ (v : ℕ). read_digits v acc) e)
]

-- Reading the digits of a number gives the number.
pub read_digits-decimal : (n : ℕ) → read_digits 0 (decimal n) ≡ n
unfolding decimal
read_digits-decimal n = read_digits-digits_from (suc n) n [] (omega arith)
