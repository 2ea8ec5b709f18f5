-- ===== src/FaxTest/Picture.antt =====
-- Blocks of 64 bits by their octets, and the picture in them: what src/fax_test.c is to take from a line.
use ras.Base.{
  ℕ, ◌≡◌, refl, sym, ap, ap₂, ◌∙◌, true, false, List, [], ◌∷◌, ◌++◌, ◌==◌, ==_iff, ==_self,
  if◌then◌else◌, length, Bool-cases, inl, inr,
}
use ras.Fax.Types.{Spandsp, Fax}
use ras.Fax.{Ended, returns, and_then, span_fax_bits}
use ras.FaxTest.{Bits, same_octets, marker, is_marker, put_bits}
use ras.FaxTest.Blocks.{Blocks, image, and_then_cong}

-- A block that says that data follow, or one of a picture.
pub data Block : Type 0 where
  says_data part_of_picture : List ℕ → Block

abbrev pub raw : List Block → List (List ℕ)
raw [] = []
raw (says_data bits ∷ blocks) = bits ∷ raw blocks
raw (part_of_picture bits ∷ blocks) = bits ∷ raw blocks

abbrev pub picture : List Block → List ℕ
picture [] = []
picture (says_data bits ∷ blocks) = picture blocks
picture (part_of_picture bits ∷ blocks) = bits ++ picture blocks

abbrev pub IsMarker : Bits → List ℕ → Type 0
IsMarker lib bits =
    lib.ubit2pbit bits 64 ≡ 0x33 ∷ 0x0f ∷ 0x33 ∷ 0x0f ∷ 0x33 ∷ 0x0f ∷ 0x33 ∷ 0x0f ∷ []

-- Each block has 64 bits and is rightly told apart.
abbrev pub Right : Bits → List Block → Type 0
Right lib [] = Unit
Right lib (says_data bits ∷ blocks) = (length bits ≡ 64) × IsMarker lib bits × Right lib blocks
Right lib (part_of_picture bits ∷ blocks) =
    (length bits ≡ 64) × (¬ IsMarker lib bits) × Right lib blocks

-- The decoder given bits, one after the other, as long as it returns.
abbrev pub given : {s : Spandsp} → List ℕ → Fax s → Ended (Fax s)
given [] f = returns f
given (b ∷ bits) f = and_then (given bits) (span_fax_bits b f)

pub put_bits-given : {s : Spandsp} (bits : List ℕ) (f : Fax s) → put_bits bits f ≡ given bits f
unfolding put_bits
put_bits-given [] f = refl
put_bits-given (b ∷ bits) f =
    and_then_cong (put_bits bits) (given bits) (span_fax_bits b f) (put_bits-given bits)

same_octets_self : (xs : List ℕ) → same_octets xs xs ≡ true
unfolding same_octets
same_octets_self [] = refl
same_octets_self (x ∷ xs) = rw (==_self x) (same_octets_self xs)

same_octets-eq : (xs ys : List ℕ) → same_octets xs ys ≡ true → xs ≡ ys
unfolding same_octets
same_octets-eq [] [] h = refl
same_octets-eq [] (y ∷ ys) h = absurd (cc h)
same_octets-eq (x ∷ xs) [] h = absurd (cc h)
same_octets-eq (x ∷ xs) (y ∷ ys) h = elim (Bool-cases (x == y)) [
  | inl e ↦ ap₂ (λ a l. a ∷ l) ((==_iff x y).0 e) (same_octets-eq xs ys (rw e at h))
  | inr e ↦ absurd (cc (rw e at h))
]

pub is_marker-true : (lib : Bits) (bits : List ℕ) → IsMarker lib bits → is_marker lib bits ≡ true
is_marker-true lib bits h = ap (same_octets marker) h ∙ same_octets_self marker

is_marker-false : (lib : Bits) (bits : List ℕ) → ¬ IsMarker lib bits → is_marker lib bits ≡ false
is_marker-false lib bits h = elim (Bool-cases (is_marker lib bits)) [
  | inl e ↦ absurd (h (sym (same_octets-eq marker (lib.ubit2pbit bits 64) e)))
  | inr e ↦ e
]

pub image-picture :
    (lib : Bits) (blocks : List Block)
    → Right lib blocks
    → (image lib (raw blocks) ≡ picture blocks) × Blocks (raw blocks)
image-picture lib [] h = (refl, tt)
image-picture lib (says_data bits ∷ blocks) (long, marks, rest) =
    let (same, lengths) = image-picture lib blocks rest in
    (
      ap (λ b. if b then image lib (raw blocks) else bits ++ image lib (raw blocks))
            (is_marker-true lib bits marks)
          ∙ same,
      (long, lengths),
    )
image-picture lib (part_of_picture bits ∷ blocks) (long, other, rest) =
    let (same, lengths) = image-picture lib blocks rest in
    (
      ap (λ b. if b then image lib (raw blocks) else bits ++ image lib (raw blocks))
            (is_marker-false lib bits other)
          ∙ ap (λ l. bits ++ l) same,
      (long, lengths),
    )
