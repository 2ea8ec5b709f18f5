-- ===== src/SoftUart/Frame.antt =====
-- What the receiver of src/v110/soft_uart.c makes of a character on the line: a start bit, the
-- data bits, a parity bit if there is one, and the stop bits.
use ras.Base.{
  ℕ, zero, suc, ◌+◌, ◌-◌, ◌*◌, ◌^◌, ◌≤◌, ◌<◌, ◌≡◌, refl, ap, ◌∙◌, true, false, none, some, Option,
  List, [], ◌∷◌, ◌++◌, length, ◌==◌, Bool-cases, inl, inr, if◌then◌else◌, arith,
}
use ras.Osmo.{Osmo}
use ras.SoftUart.{
  SoftUart, Cfg, parity_bits, parity_none, rx_ch, rx_stop_bit, rx_counted_bit, rx_bit, and_then,
  map_idle, rx_ubits,
}
use ras.SoftUart.Line.{bits_of, length-bits_of, shift_bit, shift_in, shift_in-bits_of}

-- The number of bits of a character on the line.
abbrev pub frame_length : Cfg → ℕ
frame_length c = 1 + c.num_data_bits + parity_bits c + c.num_stop_bits

-- `n` stop bits.
abbrev pub ones : ℕ → List ℕ
ones zero = []
ones (suc n) = 1 ∷ ones n

pub and_then-some : (r : Option SoftUart) → and_then some r ≡ r
and_then-some none = refl
and_then-some (some s) = refl

-- The parity bit on the line, where the mode has one.
abbrev pub parity_list : Cfg → ℕ → List ℕ
parity_list c p = if c.parity_mode == parity_none then [] else p ∷ []

-- What a configuration must fulfil that `osmo_soft_uart_configure` does not test in full: the
-- count of the bits of a character fits its `uint8_t`.
pub record Fits (c : Cfg) : Type 0 where
  pub data_pos : 0 < c.num_data_bits
  pub data_le : c.num_data_bits ≤ 8
  pub stop_pos : 0 < c.num_stop_bits
  pub counted : frame_length c < 256

module _ ⦃o : Osmo⦄ where
  pub rx_start_bit :
      (s : SoftUart)
      → s.rx_running ≡ true
      → s.bit_count ≡ 0
      → rx_bit 0 s ≡ some (record s { flags = 0; shift_reg = 0; bit_count = 1 })
  unfolding rx_bit
  rx_start_bit s r b = ground arith

  rx_data_bit :
      (bit k : ℕ) (s : SoftUart)
      → s.rx_running ≡ true
      → s.bit_count ≡ suc k
      → k < s.cfg.num_data_bits
      → Fits s.cfg
      → rx_bit bit s
        ≡ some (record s { bit_count = suc (suc k); shift_reg = shift_bit s.shift_reg bit })
  unfolding rx_bit rx_counted_bit
  rx_data_bit bit k s r b h l = ground arith

  pub rx_data_bits :
      (bs rest : List ℕ) (k : ℕ) (s : SoftUart)
      → s.rx_running ≡ true
      → s.bit_count ≡ suc k
      → k + length bs ≤ s.cfg.num_data_bits
      → Fits s.cfg
      → rx_ubits (bs ++ rest) s
        ≡ rx_ubits rest
            (record s { bit_count = suc (k + length bs); shift_reg = shift_in s.shift_reg bs })
  unfolding rx_ubits shift_in
  rx_data_bits [] rest k s r b h l =
      ap (λ n. rx_ubits rest (record s { bit_count = n })) (b ∙ omega arith)
  rx_data_bits (x ∷ bs) rest k s r b h l =
      ap (and_then (rx_ubits (bs ++ rest))) (rx_data_bit x k s r b (omega arith) l)
      ∙ (rx_data_bits bs rest (suc k)
            (record s { bit_count = suc (suc k); shift_reg = shift_bit s.shift_reg x }) r refl
            (omega arith) l
          ∙ ap
              (λ n.
                rx_ubits rest
                  (record s { bit_count = n; shift_reg = shift_in (shift_bit s.shift_reg x) bs }))
              (omega arith))

  rx_parity_bit :
      (p : ℕ) (s : SoftUart)
      → s.rx_running ≡ true
      → s.bit_count ≡ suc s.cfg.num_data_bits
      → (s.cfg.parity_mode == parity_none) ≡ false
      → Fits s.cfg
      → rx_bit p s ≡ some (record s { bit_count = 1 + s.cfg.num_data_bits + 1; parity_bit = p })
  unfolding rx_bit rx_counted_bit
  rx_parity_bit p s r b h l = ground arith

  pub rx_parity :
      (p : ℕ) (rest : List ℕ) (s : SoftUart)
      → s.rx_running ≡ true
      → s.bit_count ≡ suc s.cfg.num_data_bits
      → Fits s.cfg
      → rx_ubits (parity_list s.cfg p ++ rest) s
        ≡ rx_ubits rest (record s {
          bit_count = 1 + s.cfg.num_data_bits + parity_bits s.cfg;
          parity_bit = if s.cfg.parity_mode == parity_none then s.parity_bit else p;
        })
  unfolding rx_ubits
  rx_parity p rest s r b l = elim (Bool-cases (s.cfg.parity_mode == parity_none)) [
    | inl without ↦
        rw without (ap (λ n. rx_ubits rest (record s { bit_count = n })) (b ∙ omega arith))
    | inr present ↦ rw present (ap (and_then (rx_ubits rest)) (rx_parity_bit p s r b present l))
  ]

  -- A stop bit before the last.
  rx_stop_early :
      (s : SoftUart)
      → s.rx_running ≡ true
      → 1 + s.cfg.num_data_bits + parity_bits s.cfg ≤ s.bit_count
      → s.bit_count + 1 < frame_length s.cfg
      → Fits s.cfg
      → rx_bit 1 s ≡ some (record s { bit_count = s.bit_count + 1 })
  unfolding rx_bit rx_counted_bit rx_stop_bit
  rx_stop_early s r b h l = ground arith

  rx_stop_last :
      (s : SoftUart)
      → s.rx_running ≡ true
      → 1 + s.cfg.num_data_bits + parity_bits s.cfg ≤ s.bit_count
      → s.bit_count + 1 ≡ frame_length s.cfg
      → Fits s.cfg
      → rx_bit 1 s ≡ map_idle (rx_ch s.shift_reg (record s { bit_count = frame_length s.cfg }))
  unfolding rx_bit rx_counted_bit rx_stop_bit
  rx_stop_last s r b h l = ground arith

  rx_stop_bits :
      (m : ℕ) (s : SoftUart)
      → s.rx_running ≡ true
      → 1 + s.cfg.num_data_bits + parity_bits s.cfg ≤ s.bit_count
      → s.bit_count + suc m ≡ frame_length s.cfg
      → Fits s.cfg
      → rx_ubits (ones (suc m)) s
        ≡ map_idle (rx_ch s.shift_reg (record s { bit_count = frame_length s.cfg }))
  unfolding rx_ubits
  rx_stop_bits zero s r b h l =
      ap (and_then some) (rx_stop_last s r b (omega arith) l) ∙ and_then-some _
  rx_stop_bits (suc m) s r b h l =
      ap (and_then (rx_ubits (ones (suc m)))) (rx_stop_early s r b (omega arith) l)
      ∙ rx_stop_bits m (record s { bit_count = s.bit_count + 1 }) r (omega arith) (omega arith) l

  -- A running receiver that waits for a start bit is sent a character of `n + 1` data bits: the
  -- start bit, the data bits from the least significant on, a parity bit if the mode has one, and
  -- the stop bits. With at most 8 data bits and fewer than 256 bits in all, it takes exactly one
  -- character, shifted left by `7 - n` places, with no flag set, notes the parity bit, and waits
  -- for a start bit again.
  pub rx_ubits-character :
      (n m ch p : ℕ) (s : SoftUart)
      → s.rx_running ≡ true
      → s.bit_count ≡ 0
      → s.cfg.num_data_bits ≡ suc n
      → s.cfg.num_stop_bits ≡ suc m
      → Fits s.cfg
      → ch < 2 ^ suc n
      → rx_ubits (0 ∷ (bits_of (suc n) ch ++ (parity_list s.cfg p ++ ones (suc m)))) s
        ≡ map_idle (
            rx_ch (ch * 2 ^ (7 - n)) (record s {
              bit_count = frame_length s.cfg;
              shift_reg = ch * 2 ^ (7 - n);
              parity_bit = if s.cfg.parity_mode == parity_none then s.parity_bit else p;
              flags = 0;
            }))
  unfolding rx_ubits
  rx_ubits-character n m ch p s r b dn sm l h =
      let bits = bits_of (suc n) ch in
      let tail = parity_list s.cfg p ++ ones (suc m) in
      let s1 = record s { flags = 0; shift_reg = 0; bit_count = 1 } in
      let here = 1 + s.cfg.num_data_bits + parity_bits s.cfg in
      let noted = if s.cfg.parity_mode == parity_none then s.parity_bit else p in
      let len = length-bits_of (suc n) ch in
      ap (and_then (rx_ubits (bits ++ tail))) (rx_start_bit s r b)
      ∙ (rx_data_bits bits tail 0 s1 r refl (omega arith) l
          ∙ (ap
                (λ v.
                  rx_ubits tail (record s1 { bit_count = suc (0 + length bits); shift_reg = v }))
                (shift_in-bits_of n ch (omega (arith, l.data_le)) h)
              ∙ (rx_parity p (ones (suc m))
                    (record s1 { bit_count = suc (0 + length bits); shift_reg = ch * 2 ^ (7 - n) })
                    r (omega arith) l
                  ∙ rx_stop_bits m
                      (record s1 {
                        bit_count = here;
                        shift_reg = ch * 2 ^ (7 - n);
                        parity_bit = noted;
                      })
                      r (omega arith) (omega arith) l)))
