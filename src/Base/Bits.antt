-- ===== src/Base/Bits.antt =====
-- The exclusive or of numbers, digit by digit: its laws at variables.
use Prim.Native.Nat.{
  ℕ, zero, suc, ◌+◌, ◌*◌, ◌/◌, ◌%◌, ◌≤◌, ◌<◌, min, bit_and, bit_and-bitwise, bit_xor, digits,
  bitwise, differ, bit_xor-bitwise,
}
use mathlib.Core.Path.{◌≡◌, refl, sym, ap, ap₂, ◌∙◌}
use native.Mathlib.Nat.{le_refl}
use native.Mathlib.Omega.{arith}

module _ (rest : ℕ → ℕ) (op : ℕ → ℕ → ℕ) where
  -- Any fuel from the first number on gives the same digits.
  same-digits : (k j x y : ℕ) → x ≤ k → x ≤ j → digits rest op k x y ≡ digits rest op j x y
  same-digits k j zero y p q = none_left k j
    where
      none_left : (k j : ℕ) → digits rest op k 0 y ≡ digits rest op j 0 y
      none_left zero zero = refl
      none_left zero (suc j) = refl
      none_left (suc k) zero = refl
      none_left (suc k) (suc j) = refl
  same-digits zero j (suc x) y p q = absurd (omega arith)
  same-digits (suc k) zero (suc x) y p q = absurd (omega arith)
  same-digits (suc k) (suc j) (suc x) y p q =
      ap (λ t. t * 2 + op (suc x % 2) (y % 2))
        (same-digits k j (suc x / 2) (y / 2) (omega arith) (omega arith))

  bitwise-suc :
      (x y : ℕ)
      → bitwise rest op (suc x) y ≡ bitwise rest op (suc x / 2) (y / 2) * 2 + op (suc x % 2) (y % 2)
  bitwise-suc x y =
      ap (λ t. t * 2 + op (suc x % 2) (y % 2))
        (same-digits x (suc x / 2) (suc x / 2) (y / 2) (omega arith) (le_refl _))

pub zero-bit_xor : (b : ℕ) → bit_xor 0 b ≡ b
zero-bit_xor b = bit_xor-bitwise 0 b

differ_bits : (x y : ℕ) → x < 2 → y < 2 → differ x y ≡ (x + y) % 2
differ_bits zero zero h k = refl
differ_bits zero (suc zero) h k = refl
differ_bits (suc zero) zero h k = refl
differ_bits (suc zero) (suc zero) h k = refl
differ_bits (suc (suc x)) y h k = absurd (omega arith)
differ_bits zero (suc (suc y)) h k = absurd (omega arith)
differ_bits (suc zero) (suc (suc y)) h k = absurd (omega arith)

-- The lowest digit, and the others.
pub bit_xor_step : (a b : ℕ) → bit_xor a b ≡ bit_xor (a / 2) (b / 2) * 2 + (a + b) % 2
bit_xor_step zero b = omega (arith, zero-bit_xor b, zero-bit_xor (b / 2))
bit_xor_step (suc a) b = omega (
  arith,
  bit_xor-bitwise (suc a) b,
  bit_xor-bitwise (suc a / 2) (b / 2),
  bitwise-suc (λ y. y) differ a b,
  differ_bits (suc a % 2) (b % 2) (omega arith) (omega arith),
)

pub bit_xor_half : (a b : ℕ) → bit_xor a b / 2 ≡ bit_xor (a / 2) (b / 2)
bit_xor_half a b = omega (arith, bit_xor_step a b)

pub bit_xor_low : (a b : ℕ) → bit_xor a b % 2 ≡ (a + b) % 2
bit_xor_low a b = omega (arith, bit_xor_step a b)

self_below : (n a : ℕ) → a ≤ n → bit_xor a a ≡ 0
self_below zero a h = let e : a ≡ 0 = omega arith in rw e
self_below (suc n) zero h = refl
self_below (suc n) (suc a) h =
    omega (arith, bit_xor_step (suc a) (suc a), self_below n (suc a / 2) (omega arith))

pub bit_xor_self : (a : ℕ) → bit_xor a a ≡ 0
bit_xor_self a = self_below a a (le_refl _)

comm_below : (n a b : ℕ) → a ≤ n → b ≤ n → bit_xor a b ≡ bit_xor b a
comm_below zero a b h k = let e : a ≡ 0 = omega arith in let e' : b ≡ 0 = omega arith in rw (e, e')
comm_below (suc n) a b h k = omega (
  arith,
  bit_xor_step a b,
  bit_xor_step b a,
  comm_below n (a / 2) (b / 2) (omega arith) (omega arith),
)

pub bit_xor_comm : (a b : ℕ) → bit_xor a b ≡ bit_xor b a
bit_xor_comm a b = comm_below (a + b) a b (omega arith) (omega arith)

pub bit_xor-zero : (a : ℕ) → bit_xor a 0 ≡ a
bit_xor-zero a = bit_xor_comm a 0 ∙ zero-bit_xor a

assoc_below :
    (n a b c : ℕ) → a ≤ n → b ≤ n → c ≤ n → bit_xor (bit_xor a b) c ≡ bit_xor a (bit_xor b c)
assoc_below zero a b c h k l =
    let e : a ≡ 0 = omega arith in
    let e' : b ≡ 0 = omega arith in let e'' : c ≡ 0 = omega arith in rw (e, e', e'')
assoc_below (suc n) a b c h k l = omega (
  arith,
  bit_xor_step (bit_xor a b) c,
  bit_xor_step a (bit_xor b c),
  bit_xor_low a b,
  bit_xor_low b c,
  ap (λ t. bit_xor t (c / 2)) (bit_xor_half a b),
  ap (λ t. bit_xor (a / 2) t) (bit_xor_half b c),
  assoc_below n (a / 2) (b / 2) (c / 2) (omega arith) (omega arith) (omega arith),
)

pub bit_xor_assoc : (a b c : ℕ) → bit_xor (bit_xor a b) c ≡ bit_xor a (bit_xor b c)
bit_xor_assoc a b c = assoc_below (a + b + c) a b c (omega arith) (omega arith) (omega arith)

-- A number without its `k` lowest digits, and those digits.
unfoldable upper : ℕ → ℕ → ℕ
upper zero a = a
upper (suc k) a = upper k (a / 2)

unfoldable lower : ℕ → ℕ → ℕ
lower zero a = 0
lower (suc k) a = lower k (a / 2) * 2 + a % 2

upper-bit_xor : (k a b : ℕ) → upper k (bit_xor a b) ≡ bit_xor (upper k a) (upper k b)
unfolding upper
upper-bit_xor zero a b = refl
upper-bit_xor (suc k) a b = ap (upper k) (bit_xor_half a b) ∙ upper-bit_xor k (a / 2) (b / 2)

lower_half : (k a : ℕ) → lower (suc k) a / 2 ≡ lower k (a / 2)
unfolding lower
lower_half k a = omega arith

lower-bit_xor : (k a b : ℕ) → lower k (bit_xor a b) ≡ bit_xor (lower k a) (lower k b)
unfolding lower
lower-bit_xor zero a b = refl
lower-bit_xor (suc k) a b = omega (
  arith,
  ap (lower k) (bit_xor_half a b),
  bit_xor_low a b,
  lower-bit_xor k (a / 2) (b / 2),
  bit_xor_step (lower k (a / 2) * 2 + a % 2) (lower k (b / 2) * 2 + b % 2),
  ap₂ bit_xor (lower_half k a) (lower_half k b),
)

upper_eight : (a : ℕ) → upper 8 a ≡ a / 256
unfolding upper
upper_eight a = omega arith

lower_eight : (a : ℕ) → lower 8 a ≡ a % 256
unfolding lower
lower_eight a = omega arith

pub bit_xor_high_byte : (a b : ℕ) → bit_xor a b / 256 ≡ bit_xor (a / 256) (b / 256)
bit_xor_high_byte a b =
    sym (upper_eight (bit_xor a b))
    ∙ (upper-bit_xor 8 a b ∙ ap₂ bit_xor (upper_eight a) (upper_eight b))

pub bit_xor_low_byte : (a b : ℕ) → bit_xor a b % 256 ≡ bit_xor (a % 256) (b % 256)
bit_xor_low_byte a b =
    sym (lower_eight (bit_xor a b))
    ∙ (lower-bit_xor 8 a b ∙ ap₂ bit_xor (lower_eight a) (lower_eight b))

and_suc : (a b : ℕ) → bit_and (suc a) b ≡ bit_and (suc a / 2) (b / 2) * 2 + min (suc a % 2) (b % 2)
and_suc a b = omega (
  arith,
  bit_and-bitwise (suc a) b,
  bit_and-bitwise (suc a / 2) (b / 2),
  bitwise-suc (λ y. 0) min a b,
)

zeros_below : (n a : ℕ) → a ≤ n → bit_and a 0 ≡ 0
zeros_below n zero h = refl
zeros_below zero (suc a) h = absurd (omega arith)
zeros_below (suc n) (suc a) h = omega (arith, and_suc a 0, zeros_below n (suc a / 2) (omega arith))

-- A mask of `k` ones.
unfoldable mask : ℕ → ℕ
mask zero = 0
mask (suc k) = mask k * 2 + 1

lower-zero : (k : ℕ) → lower k 0 ≡ 0
unfolding lower
lower-zero zero = refl
lower-zero (suc k) = omega (arith, lower-zero k)

bit_and-mask : (k a : ℕ) → bit_and a (mask k) ≡ lower k a
unfolding mask lower
bit_and-mask zero a = zeros_below a a (le_refl _)
bit_and-mask (suc k) zero = omega (arith, lower-zero k, bit_and-bitwise 0 (mask k * 2 + 1))
bit_and-mask (suc k) (suc a) =
    let half : (mask k * 2 + 1) / 2 ≡ mask k = omega arith in
    omega
      (arith, and_suc a (mask k * 2 + 1), ap (bit_and (suc a / 2)) half, bit_and-mask k (suc a / 2))

pub bit_and_byte : (a : ℕ) → bit_and a 0xff ≡ a % 256
unfolding mask
bit_and_byte a = bit_and-mask 8 a ∙ lower_eight a
