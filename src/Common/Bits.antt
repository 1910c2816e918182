-- ===== src/Common/Bits.antt =====
-- When a disjunction or an exclusive or of bits is 0.
use Prim.Native.Nat.{
  ℕ, zero, suc, ◌/◌, ◌%◌, ◌≤◌, max, bit_or, bit_xor, differ, digits, bit_or-bitwise,
  bit_xor-bitwise,
}
use mathlib.Core.Path.{◌≡◌, refl, sym, ◌∙◌}
use mathlib.Core.Logic.{◌↔◌}
use native.Mathlib.Omega.{arith}

same_digit : (x y : ℕ) → differ x y ≡ 0 → x ≡ y
same_digit zero y e = sym e
same_digit (suc x) zero e = e
same_digit (suc x) (suc y) e = omega (arith, same_digit x y e)

digit_same : (x : ℕ) → differ x x ≡ 0
digit_same zero = refl
digit_same (suc x) = digit_same x

abbrev xor_digits : ℕ → ℕ → ℕ → ℕ
xor_digits n a b = digits (λ d. d) differ n a b

abbrev or_digits : ℕ → ℕ → ℕ → ℕ
or_digits n a b = digits (λ d. d) max n a b

xor_digits_eq : (n a b : ℕ) → a ≤ n → xor_digits n a b ≡ 0 → a ≡ b
xor_digits_eq zero zero b h e = sym e
xor_digits_eq zero (suc a) b h e = absurd (omega arith)
xor_digits_eq (suc n) zero b h e = sym e
xor_digits_eq (suc n) (suc a) b h e =
    let rest : xor_digits n (suc a / 2) (b / 2) ≡ 0 = omega arith in
    let digit : differ (suc a % 2) (b % 2) ≡ 0 = omega arith in
    omega (
      arith,
      xor_digits_eq n (suc a / 2) (b / 2) (omega arith) rest,
      same_digit (suc a % 2) (b % 2) digit,
    )

xor_digits_self : (n a : ℕ) → a ≤ n → xor_digits n a a ≡ 0
xor_digits_self zero zero h = refl
xor_digits_self zero (suc a) h = absurd (omega arith)
xor_digits_self (suc n) zero h = refl
xor_digits_self (suc n) (suc a) h =
    omega (arith, xor_digits_self n (suc a / 2) (omega arith), digit_same (suc a % 2))

or_digits_zero : (n a b : ℕ) → a ≤ n → or_digits n a b ≡ 0 → (a ≡ 0) × (b ≡ 0)
or_digits_zero zero zero b h e = (refl, e)
or_digits_zero zero (suc a) b h e = absurd (omega arith)
or_digits_zero (suc n) zero b h e = (refl, e)
or_digits_zero (suc n) (suc a) b h e =
    let rest : or_digits n (suc a / 2) (b / 2) ≡ 0 = omega arith in
    let digit : max (suc a % 2) (b % 2) ≡ 0 = omega arith in
    omega (arith, or_digits_zero n (suc a / 2) (b / 2) (omega arith) rest)

pub bit_xor_zero : (a b : ℕ) → (bit_xor a b ≡ 0) ↔ (a ≡ b)
bit_xor_zero a b = (
  λ e. xor_digits_eq a a b (omega arith) (sym (bit_xor-bitwise a b) ∙ e),
  λ e. rw (← e) (bit_xor-bitwise a a ∙ xor_digits_self a a (omega arith)),
)

pub bit_or_zero : (a b : ℕ) → (bit_or a b ≡ 0) ↔ ((a ≡ 0) × (b ≡ 0))
bit_or_zero a b = (
  λ e. or_digits_zero a a b (omega arith) (sym (bit_or-bitwise a b) ∙ e),
  λ (p, q). rw (p, q) (bit_or-bitwise 0 0),
)
