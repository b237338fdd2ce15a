-- ===== src/Base/Bits.antt =====
-- `|`, `&` and `^` on words, as arithmetic.
use Prim.Native.Nat.{min, bit_and-bitwise, digits, differ, bit_or-bitwise, bit_xor-bitwise}
use Prim.Native.Nat.{ℕ, zero, suc, ◌+◌, ◌-◌, ◌*◌, ◌/◌, ◌%◌, ◌^◌, ◌≤◌, ◌<◌, max}
use Prim.Native.Nat.{bit_and, bit_or, bit_xor}
use mathlib.Core.Path.{◌≡◌, refl, sym, ap, ◌∙◌}
use mathlib.Core.Bool.{Bool, true, false}
use mathlib.Core.Logic.{ite}
use native.Mathlib.Decide.{ℕ_discrete}
use native.Mathlib.Omega.{arith}
use native.Mathlib.Nat.{pow-suc}

-- What fuel a digit recursion has does not matter if it is no less than the first operand.
module _ (z : ℕ → ℕ) (f : ℕ → ℕ → ℕ) where
  at_zero : (fuel b : ℕ) → digits z f fuel 0 b ≡ z b
  at_zero zero b = refl
  at_zero (suc fuel) b = refl

  any_fuel :
      (fuel a : ℕ) → a ≤ fuel → (more b : ℕ) → a ≤ more → digits z f more a b ≡ digits z f fuel a b
  any_fuel fuel zero enough more b h = at_zero more b ∙ sym (at_zero fuel b)
  any_fuel zero (suc a) enough more b h = absurd (omega arith)
  any_fuel (suc fuel) (suc a) enough zero b h = absurd (omega arith)
  any_fuel (suc fuel) (suc a) enough (suc more) b h =
      ap (λ t. t * 2 + f (suc a % 2) (b % 2))
        (any_fuel fuel (suc a / 2) (omega arith) more (b / 2) (omega arith))

  -- The lowest digit of an operation that means such a recursion.
  lowest_digit :
      (op : ℕ → ℕ → ℕ)
      → ((a b : ℕ) → op a b ≡ digits z f a a b)
      → ((b : ℕ) → z b ≡ z (b / 2) * 2 + f 0 (b % 2))
      → (a b : ℕ) → op a b ≡ op (a / 2) (b / 2) * 2 + f (a % 2) (b % 2)
  lowest_digit op means start zero b =
      means 0 b ∙ start b ∙ ap (λ t. t * 2 + f 0 (b % 2)) (sym (means 0 (b / 2)))
  lowest_digit op means start (suc a) b =
      means (suc a) b
      ∙ ap (λ t. t * 2 + f (suc a % 2) (b % 2))
          (any_fuel (suc a / 2) (suc a / 2) (omega arith) a (b / 2) (omega arith)
            ∙ sym (means (suc a / 2) (b / 2)))

zero-bit_or : (b : ℕ) → bit_or 0 b ≡ b
zero-bit_or b = bit_or-bitwise 0 b

zero-bit_xor : (b : ℕ) → bit_xor 0 b ≡ b
zero-bit_xor b = bit_xor-bitwise 0 b

differ-zero : (a : ℕ) → differ a 0 ≡ a
differ-zero zero = refl
differ-zero (suc a) = refl

differ-one : (a : ℕ) → differ (a % 2) 1 ≡ 1 - a % 2
differ-one a = ground (arith, cases (a % 2) (omega arith))
  where
    cases : (d : ℕ) → d < 2 → differ d 1 ≡ 1 - d
    cases zero h = refl
    cases (suc zero) h = refl
    cases (suc (suc d)) h = absurd (omega arith)

differ_zero_left : (d : ℕ) → d < 2 → differ 0 d ≡ d
differ_zero_left zero h = refl
differ_zero_left (suc zero) h = refl
differ_zero_left (suc (suc d)) h = absurd (omega arith)

bit_or_step : (a b : ℕ) → bit_or a b ≡ bit_or (a / 2) (b / 2) * 2 + max (a % 2) (b % 2)
bit_or_step = lowest_digit (λ b. b) max bit_or (λ a b. bit_or-bitwise a b) (λ b. omega arith)

pub bit_xor_step : (a b : ℕ) → bit_xor a b ≡ bit_xor (a / 2) (b / 2) * 2 + differ (a % 2) (b % 2)
bit_xor_step =
    lowest_digit (λ b. b) differ bit_xor (λ a b. bit_xor-bitwise a b)
      (λ b. omega (arith, differ_zero_left (b % 2) (omega arith)))

double_half : (k c : ℕ) → c * 2 ^ suc k / 2 ≡ c * 2 ^ k
double_half k c = omega (arith, ap (λ (t : ℕ). c * t) (pow-suc 2 k))

double_even : (k c : ℕ) → c * 2 ^ suc k % 2 ≡ 0
double_even k c = omega (arith, ap (λ (t : ℕ). c * t) (pow-suc 2 k))

pow_pos : (k : ℕ) → 0 < 2 ^ k
pow_pos zero = omega arith
pow_pos (suc k) = omega (arith, pow_pos k, pow-suc 2 k)

ones_half : (k : ℕ) → (2 ^ suc k - 1) / 2 ≡ 2 ^ k - 1
ones_half k = omega (arith, pow-suc 2 k, pow_pos k)

ones_odd : (k : ℕ) → (2 ^ suc k - 1) % 2 ≡ 1
ones_odd k = omega (arith, pow-suc 2 k, pow_pos k)

-- `|` of fields that do not overlap is a sum.
pub bit_or_fields : (k a c : ℕ) → a < 2 ^ k → bit_or a (c * 2 ^ k) ≡ a + c * 2 ^ k
bit_or_fields zero zero c h = omega (arith, zero-bit_or (c * 2 ^ 0))
bit_or_fields zero (suc a) c h = absurd (omega arith)
bit_or_fields (suc k) a c h =
    bit_or_step a (c * 2 ^ suc k)
    ∙ rw (double_half k c, double_even k c, bit_or_fields k (a / 2) c (omega (arith, pow-suc 2 k)))
        (omega (arith, pow-suc 2 k, ap (λ (t : ℕ). c * t) (pow-suc 2 k)))

pub bit_xor-zero : (k a : ℕ) → a < 2 ^ k → bit_xor a 0 ≡ a
bit_xor-zero zero zero h = zero-bit_xor 0
bit_xor-zero zero (suc a) h = absurd (omega arith)
bit_xor-zero (suc k) a h = omega (
  arith,
  bit_xor_step a 0,
  bit_xor-zero k (a / 2) (omega (arith, pow-suc 2 k)),
  differ-zero (a % 2),
  pow-suc 2 k,
)

-- `^` with all ones is the complement.
pub bit_xor_ones : (k a : ℕ) → a < 2 ^ k → bit_xor a (2 ^ k - 1) ≡ 2 ^ k - 1 - a
bit_xor_ones zero zero h = zero-bit_xor 0
bit_xor_ones zero (suc a) h = absurd (omega arith)
bit_xor_ones (suc k) a h =
    bit_xor_step a (2 ^ suc k - 1)
    ∙ rw
        (ones_half k, ones_odd k, bit_xor_ones k (a / 2) (omega (arith, pow-suc 2 k)), differ-one a)
        (omega (arith, pow-suc 2 k, pow_pos k))

-- Masks on one byte: tables, checked by evaluation.
module _ (f g : ℕ → ℕ) where
  agree_below : ℕ → Bool
  unfolding ℕ_discrete
  agree_below zero = true
  agree_below (suc n) = ite (ℕ_discrete (f n) (g n)) (agree_below n) false

  agree_below→eq : (n : ℕ) → agree_below n ≡ true → (i : ℕ) → i < n → f i ≡ g i
  unfolding agree_below
  agree_below→eq zero e i h = absurd (omega arith)
  agree_below→eq (suc n) e i h = ground (arith, agree_below→eq n (ground arith) i)

pub low_bits : (b : ℕ) → b < 256 → bit_and b 0x7f ≡ b % 128
unfolding agree_below
low_bits = agree_below→eq _ _ 256 refl

pub top_bit : (b : ℕ) → b < 256 → bit_and b 0x80 ≡ b / 128 * 128
unfolding agree_below
top_bit = agree_below→eq _ _ 256 refl

pub set_top_bit : (b : ℕ) → b < 128 → bit_or b 0x80 ≡ b + 128
unfolding agree_below
set_top_bit = agree_below→eq _ _ 128 refl

differ_small : (a b : ℕ) → a < 2 → b < 2 → differ a b < 2
differ_small zero zero h k = omega arith
differ_small zero (suc zero) h k = omega arith
differ_small (suc zero) zero h k = omega arith
differ_small (suc zero) (suc zero) h k = omega arith
differ_small (suc (suc a)) b h k = absurd (omega arith)
differ_small zero (suc (suc b)) h k = absurd (omega arith)
differ_small (suc zero) (suc (suc b)) h k = absurd (omega arith)

-- `^` of two words is a word.
pub bit_xor-lt : (k a b : ℕ) → a < 2 ^ k → b < 2 ^ k → bit_xor a b < 2 ^ k
bit_xor-lt zero zero b h l = omega (arith, zero-bit_xor b)
bit_xor-lt zero (suc a) b h l = absurd (omega arith)
bit_xor-lt (suc k) a b h l = omega (
  arith,
  bit_xor_step a b,
  pow-suc 2 k,
  bit_xor-lt k (a / 2) (b / 2) (omega (arith, pow-suc 2 k)) (omega (arith, pow-suc 2 k)),
  differ_small (a % 2) (b % 2) (omega arith) (omega arith),
)

-- `&` of a word is a word.
pub bit_and-lt : (k a b : ℕ) → a < 2 ^ k → bit_and a b < 2 ^ k
bit_and-lt k zero b h = omega (arith, bit_and-bitwise 0 b, pow_pos k)
bit_and-lt zero (suc a) b h = absurd (omega arith)
bit_and-lt (suc k) (suc a) b h = omega (
  arith,
  lowest_digit (λ _. 0) min bit_and (λ x y. bit_and-bitwise x y) (λ y. omega arith) (suc a) b,
  pow-suc 2 k,
  bit_and-lt k (suc a / 2) (b / 2) (omega (arith, pow-suc 2 k)),
)
