-- ===== src/Fax/Settings.antt =====
-- What a DCS frame tells the fax decoder, by the numbers of its bits (`check_rx_dcs` in src/fax_decode.c).
use ras.Base.{
  ℕ, zero, suc, ◌+◌, ◌-◌, ◌/◌, ◌%◌, ◌^◌, ◌≤◌, ◌<◌, ◌≡◌, refl, ap, ◌∙◌, Bool, true, false, not, ◌||◌,
  Option, none, some, List, [], ◌∷◌, ◌++◌, zeros, ◌==◌, bit_and, ltb, if◌then◌else◌, take, get_or,
  get_or-zeros, get_or-take, get_or-Octets, Octets, Bool-cases, inl, inr, ==_self, arith,
}
use ras.Base.Table.{checked, checked_at}
use ras.Fax.Types.{Spandsp, Fax, frame}
use ras.Fax.Dcs.{
  fallback_sequence, fallback_from, find_fallback_entry, width_of, bit_set, apply_dcs, check_rx_dcs,
}
use ras.Fax.{returns, accept_frame, hdlc_accept}

-- Octets that the frame does not have are 0.
abbrev pub octet_at : List ℕ → ℕ → ℕ → ℕ
octet_at msg len i = if ltb i len then get_or msg i 0 else 0

abbrev pub digit : ℕ → ℕ → Bool
digit octet k = octet / 2 ^ k % 2 == 1

-- The bits behind address, control and type are numbered from 1, eight to an octet.
abbrev pub dcs_bit : List ℕ → ℕ → ℕ → Bool
dcs_bit msg len n = digit (octet_at msg len (3 + (n - 1) / 8)) ((n - 1) % 8)

-- The bit rate by the bits 11 to 14.
abbrev pub bit_rate : Bool → Bool → Bool → Bool → Option ℕ
bit_rate false false false false = some 2400
bit_rate false true false false = some 4800
bit_rate true false false false = some 9600
bit_rate true true false false = some 7200
bit_rate false false false true = some 14400
bit_rate false true false true = some 12000
bit_rate true false false true = some 9600
bit_rate true true false true = some 7200
bit_rate _ _ _ _ = none

-- The width of a line by the bits 17 and 18, at the usual and at the double resolution.
abbrev pub line_width : Bool → Bool → Bool → Option ℕ
line_width false false r16 = some (if r16 then 3456 else 1728)
line_width true false r16 = some (if r16 then 4096 else 2048)
line_width false true r16 = some (if r16 then 4864 else 2432)
line_width true true r16 = none

abbrev rate_of : List (ℕ × ℕ) → ℕ → Option ℕ
rate_of [] i = none
rate_of ((bit_rate, code) ∷ entries) zero = some bit_rate
rate_of ((bit_rate, code) ∷ entries) (suc i) = rate_of entries i

-- The bit rate of an entry of `fallback_sequence`.
abbrev pub rate_at : Option ℕ → Option ℕ
rate_at none = none
rate_at (some i) = rate_of fallback_sequence i

-- What the decoder `g` is told, `f` before.
pub record Told {s : Spandsp} (told : ℕ → Bool) (f g : Fax s) : Type 0 where
  pub rate : rate_at g.current_fallback ≡ bit_rate (told 11) (told 12) (told 13) (told 14)
  pub resolution :
      g.y_resolution
      ≡ (if told 41 then s.y_superfine else if told 15 then s.y_fine else s.y_standard)
  pub encoding :
      g.line_encoding ≡ (if told 31 then s.itu_t6 else if told 16 then s.itu_t4_2d else s.itu_t4_1d)
  pub width : g.image_width ≡ line_width (told 17) (told 18) (told 43)
  pub error_correcting : g.error_correcting_mode ≡ told 27
  pub frame_size : g.octets_per_ecm_frame ≡ (if told 28 then 256 else 64)
  pub kept : g ≡ record f {
    current_fallback = g.current_fallback;
    y_resolution = g.y_resolution;
    line_encoding = g.line_encoding;
    image_width = g.image_width;
    error_correcting_mode = g.error_correcting_mode;
    octets_per_ecm_frame = g.octets_per_ecm_frame;
  }

abbrev same : Bool → Bool → Bool
same true b = b
same false b = not b

same-eq : (a b : Bool) → same a b ≡ true → a ≡ b
same-eq a b h = ground arith

abbrev same_option : Option ℕ → Option ℕ → Bool
same_option none none = true
same_option none (some n) = false
same_option (some m) none = false
same_option (some m) (some n) = m == n

same_option-eq : (a b : Option ℕ) → same_option a b ≡ true → a ≡ b
same_option-eq none none h = refl
same_option-eq none (some n) h = absurd (cc h)
same_option-eq (some m) none h = absurd (cc h)
same_option-eq (some m) (some n) h = ground (arith, h)

bit_set-digit :
    (k d : ℕ)
    → checked 256 (λ d. same (bit_set d (2 ^ k)) (digit d k)) ≡ true
    → d < 256
    → bit_set d (2 ^ k) ≡ digit d k
bit_set-digit k d all h =
    same-eq (bit_set d (2 ^ k)) (digit d k)
      (checked_at 256 (λ d. same (bit_set d (2 ^ k)) (digit d k)) d all h)

rate-eq :
    (d : ℕ)
    → d < 256
    → rate_at (find_fallback_entry (bit_and d 0x3c))
      ≡ bit_rate (digit d 2) (digit d 3) (digit d 4) (digit d 5)
unfolding checked find_fallback_entry fallback_from
rate-eq d h =
    same_option-eq (rate_at (find_fallback_entry (bit_and d 0x3c)))
      (bit_rate (digit d 2) (digit d 3) (digit d 4) (digit d 5))
      (checked_at 256
        (λ d.
          same_option (rate_at (find_fallback_entry (bit_and d 0x3c)))
            (bit_rate (digit d 2) (digit d 3) (digit d 4) (digit d 5)))
        d refl h)

width-eq :
    (r16 : Bool) (d : ℕ)
    → d < 256
    → width_of r16 (bit_and d 0x03) ≡ line_width (digit d 0) (digit d 1) r16
unfolding checked
width-eq true d h =
    same_option-eq (width_of true (bit_and d 0x03)) (line_width (digit d 0) (digit d 1) true) (
      checked_at 256
        (λ d.
          same_option (width_of true (bit_and d 0x03)) (line_width (digit d 0) (digit d 1) true))
        d refl h)
width-eq false d h =
    same_option-eq (width_of false (bit_and d 0x03)) (line_width (digit d 0) (digit d 1) false) (
      checked_at 256
        (λ d.
          same_option (width_of false (bit_and d 0x03)) (line_width (digit d 0) (digit d 1) false))
        d refl h)

octet_at-small : (msg : List ℕ) (len i : ℕ) → Octets msg → octet_at msg len i < 256
octet_at-small msg len i h = ground (arith, get_or-Octets msg i h)

module _ {s : Spandsp} (f : Fax s) (msg : List ℕ) (len : ℕ) (octets : Octets msg) where
  apply_dcs-Told :
      (dcs : List ℕ)
      → ((i : ℕ) → i < 9 → get_or dcs i 0 ≡ octet_at msg len i)
      → Told (dcs_bit msg len) f (apply_dcs dcs f)
  unfolding apply_dcs checked
  apply_dcs-Told dcs eq =
      let small : (i : ℕ) → octet_at msg len i < 256 = λ i. octet_at-small msg len i octets in
      let flag : (i k : ℕ)
          → i < 9
          → checked 256 (λ d. same (bit_set d (2 ^ k)) (digit d k)) ≡ true
          → bit_set (get_or dcs i 0) (2 ^ k) ≡ digit (octet_at msg len i) k =
        λ i k h all.
          ap (λ d. bit_set d (2 ^ k)) (eq i h)
          ∙ bit_set-digit k (octet_at msg len i) all (small i) in
      record {
        rate = rw (eq 4 (omega arith)) (rate-eq (octet_at msg len 4) (small 4));
        resolution = rw (flag 8 0 (omega arith) refl) (rw (flag 4 6 (omega arith) refl));
        encoding = rw (flag 6 6 (omega arith) refl) (rw (flag 4 7 (omega arith) refl));
        width = rw (flag 8 2 (omega arith) refl) (
            rw (eq 5 (omega arith))
              (width-eq (digit (octet_at msg len 8) 2) (octet_at msg len 5) (small 5)));
        error_correcting = flag 6 2 (omega arith) refl;
        frame_size = rw (flag 6 3 (omega arith) refl);
        kept = refl;
      }

  check_rx_dcs-Told :
      6 ≤ len → 9 ≤ s.t30_max_dis_dtc_dcs_len → Told (dcs_bit msg len) f (check_rx_dcs msg len f)
  unfolding check_rx_dcs
  check_rx_dcs-Told long room =
      let max = s.t30_max_dis_dtc_dcs_len in
      let enough : ltb len 6 ≡ false = ground arith in
      rw enough (elim (Bool-cases (ltb max len)) [
        | inl more ↦ rw more (
            apply_dcs-Told (take max msg) (λ i h.
              let here : ltb i max ≡ true = ground arith in
              let there : ltb i len ≡ true = ground arith in
              get_or-take max msg i ∙ rw here (rw there)))
        | inr fits ↦ rw fits (
            apply_dcs-Told (take len msg ++ zeros (max - len))
              (λ i h. get_or-zeros (take len msg) (max - len) i ∙ get_or-take len msg i))
      ])

  -- Let spandsp have room for nine octets of a DCS frame, and another number for DCS than for FCD. A good
  -- frame of six octets or more, with a right address and control octet and the type DCS, is taken, and
  -- its bits, those that it does not have being 0, give the rest of the call: the bits 11 to 14 the
  -- bit rate of the entry chosen, none where they stand for none; 41 and 15 the resolution; 31 and 16 the
  -- encoding; 17, 18 and 43 the width, none where 17 and 18 are both set; 27 the error correcting mode; and
  -- 28 frames of 256 octets in it, or else of 64. Nothing else changes.
  pub hdlc_accept-dcs :
      6 ≤ len
      → 9 ≤ s.t30_max_dis_dtc_dcs_len
      → (s.t30_dcs == s.t4_fcd) ≡ false
      → get_or msg 0 0 ≡ 0xFF
      → ((get_or msg 1 0 == 0x03) || (get_or msg 1 0 == 0x13)) ≡ true
      → bit_and (get_or msg 2 0) 0xFE ≡ s.t30_dcs
      → (g : Fax s) × (hdlc_accept (frame msg len true) f ≡ returns g) × Told (dcs_bit msg len) f g
  unfolding hdlc_accept accept_frame
  hdlc_accept-dcs long room other address control type =
      let its_own : (s.t30_dcs == s.t30_dcs) ≡ true = ==_self s.t30_dcs in
      (
        check_rx_dcs msg len f,
        rw address (rw control (rw type (rw other (rw its_own)))),
        check_rx_dcs-Told long room,
      )
