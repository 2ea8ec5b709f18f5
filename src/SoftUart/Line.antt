-- ===== src/SoftUart/Line.antt =====
-- The data bits of a character on the line, the least significant first, and what shifting them
-- into the receiver's register gives.
use ras.Base.{
  ℕ, zero, suc, ◌-◌, ◌*◌, ◌/◌, ◌%◌, ◌^◌, ◌≤◌, ◌<◌, bit_or, ◌≡◌, refl, ap, Bool, true, List, [], ◌∷◌,
  length, ◌==◌, ==_iff, leb, if◌then◌else◌, arith,
}
use native.Mathlib.Nat.{mod-eq_of_lt, le_trans}
use ras.Base.Table.{checked, checked_at}

-- The `n` lowest bits of `ch`.
unfoldable pub bits_of : ℕ → ℕ → List ℕ
bits_of zero ch = []
bits_of (suc n) ch = (ch % 2) ∷ bits_of n (ch / 2)

pub length-bits_of : (n ch : ℕ) → length (bits_of n ch) ≡ n
unfolding bits_of
length-bits_of zero ch = refl
length-bits_of (suc n) ch = ap suc (length-bits_of n (ch / 2))

-- One bit into an 8-bit register, from the top.
abbrev pub shift_bit : ℕ → ℕ → ℕ
shift_bit r bit = if bit == 0 then r / 2 else bit_or (r / 2) 0x80

unfoldable pub shift_in : ℕ → List ℕ → ℕ
shift_in r [] = r
shift_in r (b ∷ bs) = shift_in (shift_bit r b) bs

abbrev lands : ℕ → ℕ → Bool
lands n ch = shift_in 0 (bits_of (suc n) (ch % 2 ^ suc n)) == ch % 2 ^ suc n * 2 ^ (7 - n)

lands_table : checked 8 (λ n. checked 256 (lands n)) ≡ true
unfolding checked shift_in bits_of
lands_table = refl

powers_table : checked 8 (λ n. leb (2 ^ suc n) 256) ≡ true
unfolding checked
powers_table = refl

leb→le : (a b : ℕ) → leb a b ≡ true → a ≤ b
leb→le a b h = ground arith

-- The `n + 1` bits of a character end up at the top of the register: the character is shifted
-- left by `7 - n` places.
pub shift_in-bits_of :
    (n ch : ℕ) → n < 8 → ch < 2 ^ suc n → shift_in 0 (bits_of (suc n) ch) ≡ ch * 2 ^ (7 - n)
shift_in-bits_of n ch h l =
    let small = leb→le _ _ (checked_at 8 (λ k. leb (2 ^ suc k) 256) n powers_table h) in
    let inner = checked_at 8 (λ k. checked 256 (lands k)) n lands_table h in
    let found = checked_at 256 (lands n) ch inner (le_trans l small) in
    rw (mod-eq_of_lt l) at ((==_iff _ _).0 found)
