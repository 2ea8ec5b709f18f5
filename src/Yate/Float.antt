-- ===== src/Yate/Float.antt =====
-- The conversions of src/yate.c between samples and floating point.
use ras.Base.{ℕ, ◌≡◌, refl, Bool, List, [], ◌∷◌, ◌==◌, if◌then◌else◌, ◌<◌, ap₂, length, arith}

-- What the code uses of `float`, on the 16 bits of a sample: the quotient by 0x8000, the product with
-- 32768, the comparisons with 32767 and -32768, and `lrintf` cast to `short`; and the octets of a
-- number in memory.
pub record Float : Type 1 where
  pub F : Type 0
  pub quotient : ℕ → F
  pub product : F → F
  pub at_least_32767 : F → Bool
  pub at_most_minus_32768 : F → Bool
  pub lrint : F → ℕ
  pub octets : F → List ℕ
  pub number : List ℕ → F

-- What IEEE 754 says of them: the quotient and the product are exact, and the octets 0 are the number 0.
pub record Exact (fl : Float) : Type 0 where
  pub above : (x : ℕ) → x < 65536 → fl.at_least_32767 (fl.product (fl.quotient x)) ≡ (x == 32767)
  pub below :
      (x : ℕ) → x < 65536 → fl.at_most_minus_32768 (fl.product (fl.quotient x)) ≡ (x == 32768)
  pub rounds : (x : ℕ) → x < 65536 → fl.lrint (fl.product (fl.quotient x)) ≡ x
  pub zeros : fl.number (0 ∷ 0 ∷ 0 ∷ 0 ∷ []) ≡ fl.quotient 0
  pub size : (f : fl.F) → length (fl.octets f) ≡ 4
  pub kept : (f : fl.F) → fl.number (fl.octets f) ≡ f

-- The samples of 16 bits.
abbrev pub Words : List ℕ → Type 0
Words [] = Unit
Words (x ∷ xs) = (x < 65536) × Words xs

module _ (fl : Float) where
  unfoldable pub slin_to_f32 : List ℕ → List fl.F
  slin_to_f32 [] = []
  slin_to_f32 (x ∷ xs) = fl.quotient x ∷ slin_to_f32 xs

  unfoldable pub clipped : fl.F → ℕ
  clipped scaled_value =
      if fl.at_least_32767 scaled_value
      then 32767
      else if fl.at_most_minus_32768 scaled_value
      then 32768
      else fl.lrint scaled_value

  unfoldable pub f32_to_slin : List fl.F → List ℕ
  unfolding clipped
  f32_to_slin [] = []
  f32_to_slin (f ∷ fs) = clipped (fl.product f) ∷ f32_to_slin fs

  module _ (exact : Exact fl) where
    pub clipped-quotient : (x : ℕ) → x < 65536 → clipped (fl.product (fl.quotient x)) ≡ x
    unfolding clipped
    clipped-quotient x h = ground (arith, exact.above x h, exact.below x h, exact.rounds x h)

    pub f32_to_slin-slin_to_f32 : (xs : List ℕ) → Words xs → f32_to_slin (slin_to_f32 xs) ≡ xs
    unfolding f32_to_slin slin_to_f32
    f32_to_slin-slin_to_f32 [] h = refl
    f32_to_slin-slin_to_f32 (x ∷ xs) h =
        ap₂ (λ y ys. y ∷ ys) (clipped-quotient x h.0) (f32_to_slin-slin_to_f32 xs h.1)
