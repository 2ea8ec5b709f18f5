-- ===== src/Fax/Dcs.antt =====
-- What a DCS frame says: `check_rx_dcs` and `find_fallback_entry` of src/fax_decode.c.
use ras.Base.{
  ℕ, ◌+◌, ◌-◌, bit_and, Bool, not, Option, none, some, List, [], ◌∷◌, ◌++◌, ◌==◌, ltb,
  if◌then◌else◌, get_or, take, zeros,
}
use ras.Fax.Types.{Spandsp, Fax}

-- `fallback_sequence`: the bit rate and the DCS code.
abbrev pub fallback_sequence : List (ℕ × ℕ)
fallback_sequence =
    (14400, 0x20)
    ∷ (12000, 0x28)
    ∷ (9600, 0x24)
    ∷ (9600, 0x04)
    ∷ (7200, 0x2c)
    ∷ (7200, 0x0c)
    ∷ (4800, 0x08)
    ∷ (2400, 0)
    ∷ (0, 0)
    ∷ []

-- From the entry number `i` on; the loop ends before a bit rate of 0.
unfoldable pub fallback_from : List (ℕ × ℕ) → ℕ → ℕ → Option ℕ
fallback_from [] i dcs_code = none
fallback_from ((bit_rate, code) ∷ entries) i dcs_code =
    if bit_rate == 0
    then none
    else if code == dcs_code
    then some i
    else fallback_from entries (i + 1) dcs_code

unfoldable pub find_fallback_entry : ℕ → Option ℕ
find_fallback_entry dcs_code = fallback_from fallback_sequence 0 dcs_code

-- `widths`, less the first row, which is not used.
abbrev pub width_of : Bool → ℕ → Option ℕ
width_of r16 code =
    if code == 0
    then some (if r16 then 3456 else 1728)
    else if code == 1
    then some (if r16 then 4096 else 2048)
    else if code == 2
    then some (if r16 then 4864 else 2432)
    else none

abbrev pub bit_set : ℕ → ℕ → Bool
bit_set octet bit = not (bit_and octet bit == 0)

-- After a copy of the frame, padded with zeros.
unfoldable pub apply_dcs : {s : Spandsp} → List ℕ → Fax s → Fax s
apply_dcs {s} dcs f =
    let d4 = get_or dcs 4 0 in
    let d6 = get_or dcs 6 0 in
    let d8 = get_or dcs 8 0 in
    record f {
      octets_per_ecm_frame = if bit_set d6 0x08 then 256 else 64;
      y_resolution =
          if bit_set d8 0x01
          then s.y_superfine
          else if bit_set d4 0x40
          then s.y_fine
          else s.y_standard;
      image_width = width_of (bit_set d8 0x04) (bit_and (get_or dcs 5 0) 0x03);
      line_encoding =
          if bit_set d6 0x40
          then s.itu_t6
          else if bit_set d4 0x80
          then s.itu_t4_2d
          else s.itu_t4_1d;
      current_fallback = find_fallback_entry (bit_and d4 0x3c);
      error_correcting_mode = bit_set d6 0x04;
    }

-- `check_rx_dcs` on a buffer with a frame of `len` octets.
unfoldable pub check_rx_dcs : {s : Spandsp} → List ℕ → ℕ → Fax s → Fax s
check_rx_dcs {s} msg len f =
    let max = s.t30_max_dis_dtc_dcs_len in
    if ltb len 6
    then f
    else if ltb max len
    then apply_dcs (take max msg) f
    else apply_dcs (take len msg ++ zeros (max - len)) f
