-- ===== src/Ppp/Crc.antt =====
-- The checksum of src/ppp/pppd.c and the one of RFC 1662, bit by bit.
use ras.Base.{
  ℕ, zero, suc, ◌+◌, ◌*◌, ◌/◌, ◌%◌, ◌<◌, bit_xor, ◌≡◌, refl, sym, ap, ap₂, ◌∙◌, true, List, [], ◌∷◌,
  ◌++◌, ◌==◌, ==_iff, if◌then◌else◌, get_or, Octets, arith,
}
use ras.Base.Table.{checked, checked_at}
use ras.Base.Bits.{
  bit_xor_half, bit_xor_low, bit_xor_high_byte, bit_xor_low_byte, bit_xor_comm, bit_xor_assoc,
  bit_xor-zero, zero-bit_xor, bit_and_byte,
}
use ras.Ppp.Table.{ppp_crc16_table}
use ras.Ppp.{ppp_fcs, fcs_loop, rfc1662_checksum, ppp_initfcs}

-- What a digit that falls out adds: x^16 + x^12 + x^5 + 1, the lowest power first.
abbrev pub polynomial : ℕ → ℕ
polynomial digit = if digit == 0 then 0 else 0x8408

-- One digit of the register falls out.
unfoldable pub shift_digit : ℕ → ℕ
shift_digit x = bit_xor (x / 2) (polynomial (x % 2))

unfoldable pub shift_digits : ℕ → ℕ → ℕ
shift_digits zero x = x
shift_digits (suc k) x = shift_digits k (shift_digit x)

-- The checksum of RFC 1662 on the digits of the octets, the lowest of each first.
unfoldable pub crc_loop : ℕ → List ℕ → ℕ
crc_loop fcs [] = fcs
crc_loop fcs (c ∷ cs) = crc_loop (shift_digits 8 (bit_xor fcs c)) cs

xor_middle :
    (a b c d : ℕ) → bit_xor (bit_xor a b) (bit_xor c d) ≡ bit_xor (bit_xor a c) (bit_xor b d)
xor_middle a b c d =
    bit_xor_assoc a b (bit_xor c d)
    ∙ (ap (bit_xor a) (
          sym (bit_xor_assoc b c d)
          ∙ (ap (λ t. bit_xor t d) (bit_xor_comm b c) ∙ bit_xor_assoc c b d))
        ∙ sym (bit_xor_assoc a c (bit_xor b d)))

polynomial_digits :
    (p q : ℕ) → p < 2 → q < 2 → polynomial ((p + q) % 2) ≡ bit_xor (polynomial p) (polynomial q)
polynomial_digits zero zero h k = refl
polynomial_digits zero (suc zero) h k = refl
polynomial_digits (suc zero) zero h k = refl
polynomial_digits (suc zero) (suc zero) h k = refl
polynomial_digits (suc (suc p)) q h k = absurd (omega arith)
polynomial_digits zero (suc (suc q)) h k = absurd (omega arith)
polynomial_digits (suc zero) (suc (suc q)) h k = absurd (omega arith)

polynomial-sum :
    (a b : ℕ) → polynomial ((a + b) % 2) ≡ bit_xor (polynomial (a % 2)) (polynomial (b % 2))
polynomial-sum a b =
    let sum : (a + b) % 2 ≡ (a % 2 + b % 2) % 2 = omega arith in
    ap polynomial sum ∙ polynomial_digits (a % 2) (b % 2) (omega arith) (omega arith)

shift_digit-bit_xor :
    (a b : ℕ) → shift_digit (bit_xor a b) ≡ bit_xor (shift_digit a) (shift_digit b)
unfolding shift_digit
shift_digit-bit_xor a b =
    ap₂ bit_xor (bit_xor_half a b) (ap polynomial (bit_xor_low a b) ∙ polynomial-sum a b)
    ∙ xor_middle (a / 2) (b / 2) (polynomial (a % 2)) (polynomial (b % 2))

shift_digits-bit_xor :
    (k a b : ℕ) → shift_digits k (bit_xor a b) ≡ bit_xor (shift_digits k a) (shift_digits k b)
unfolding shift_digits
shift_digits-bit_xor zero a b = refl
shift_digits-bit_xor (suc k) a b =
    ap (shift_digits k) (shift_digit-bit_xor a b)
    ∙ shift_digits-bit_xor k (shift_digit a) (shift_digit b)

shift_digit-double : (n : ℕ) → shift_digit (n * 2) ≡ n
unfolding shift_digit
shift_digit-double n =
    let half : n * 2 / 2 ≡ n = omega arith in
    let even : n * 2 % 2 ≡ 0 = omega arith in
    ap₂ (λ m d. bit_xor m (polynomial d)) half even ∙ bit_xor-zero n

unfoldable doubled : ℕ → ℕ → ℕ
doubled zero n = n
doubled (suc k) n = doubled k n * 2

shift_digits-doubled : (k n : ℕ) → shift_digits k (doubled k n) ≡ n
unfolding shift_digits doubled
shift_digits-doubled zero n = refl
shift_digits-doubled (suc k) n =
    ap (shift_digits k) (shift_digit-double (doubled k n)) ∙ shift_digits-doubled k n

doubled_eight : (h : ℕ) → h * 256 ≡ doubled 8 h
unfolding doubled
doubled_eight h = omega arith

shift_digits-high : (h : ℕ) → shift_digits 8 (h * 256) ≡ h
shift_digits-high h = ap (shift_digits 8) (doubled_eight h) ∙ shift_digits-doubled 8 h

-- A number is its high octets and its lowest, with no digit in common.
octets_apart : (x : ℕ) → x ≡ bit_xor (x / 256 * 256) (x % 256)
octets_apart x =
    let high : x / 256 * 256 / 256 ≡ x / 256 = omega arith in
    let none : x / 256 * 256 % 256 ≡ 0 = omega arith in
    let small : x % 256 / 256 ≡ 0 = omega arith in
    let same : x % 256 % 256 ≡ x % 256 = omega arith in
    omega (
      arith,
      bit_xor_high_byte (x / 256 * 256) (x % 256),
      bit_xor_low_byte (x / 256 * 256) (x % 256),
      ap₂ bit_xor high small,
      ap₂ bit_xor none same,
      bit_xor-zero (x / 256),
      zero-bit_xor (x % 256),
    )

table_right : checked 256 (λ i. get_or ppp_crc16_table i 0 == shift_digits 8 i) ≡ true
unfolding checked shift_digits shift_digit
table_right = refl

shift_octet : (x : ℕ) → shift_digits 8 x ≡ bit_xor (x / 256) (get_or ppp_crc16_table (x % 256) 0)
shift_octet x =
    let low = (==_iff _ _).0 (
      checked_at 256 (λ i. get_or ppp_crc16_table i 0 == shift_digits 8 i) (x % 256) table_right
        (omega arith)) in
    ap (shift_digits 8) (octets_apart x)
    ∙ (shift_digits-bit_xor 8 (x / 256 * 256) (x % 256)
        ∙ ap₂ bit_xor (shift_digits-high (x / 256)) (sym low))

ppp_fcs-shift : (fcs c : ℕ) → c < 256 → ppp_fcs fcs c ≡ shift_digits 8 (bit_xor fcs c)
unfolding ppp_fcs
ppp_fcs-shift fcs c h =
    let y = bit_xor fcs c in
    let small : c / 256 ≡ 0 = omega arith in
    let high : y / 256 ≡ fcs / 256 =
      bit_xor_high_byte fcs c ∙ (ap (bit_xor (fcs / 256)) small ∙ bit_xor-zero (fcs / 256)) in
    ap₂ (λ m i. bit_xor m (get_or ppp_crc16_table i 0)) (sym high) (bit_and_byte y)
    ∙ sym (shift_octet y)

pub fcs_loop-crc : (buf : List ℕ) (fcs : ℕ) → Octets buf → fcs_loop fcs buf ≡ crc_loop fcs buf
unfolding fcs_loop crc_loop
fcs_loop-crc [] fcs h = refl
fcs_loop-crc (c ∷ cs) fcs h =
    ap (λ t. fcs_loop t cs) (ppp_fcs-shift fcs c h.0)
    ∙ fcs_loop-crc cs (shift_digits 8 (bit_xor fcs c)) h.1

-- For octets, the checksum is that of RFC 1662, computed digit by digit from the polynomial with all
-- digits of the register set at first, and complemented.
pub rfc1662_checksum-crc :
    (buf : List ℕ) → Octets buf → rfc1662_checksum buf ≡ bit_xor (crc_loop 0xffff buf) 0xffff
unfolding rfc1662_checksum
rfc1662_checksum-crc buf h = ap (λ t. bit_xor t 0xFFFF) (fcs_loop-crc buf ppp_initfcs h)

fcs_loop-append :
    (xs ys : List ℕ) (fcs : ℕ) → fcs_loop fcs (xs ++ ys) ≡ fcs_loop (fcs_loop fcs xs) ys
unfolding fcs_loop
fcs_loop-append [] ys fcs = refl
fcs_loop-append (x ∷ xs) ys fcs = fcs_loop-append xs ys (ppp_fcs fcs x)
