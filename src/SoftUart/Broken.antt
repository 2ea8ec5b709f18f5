-- ===== src/SoftUart/Broken.antt =====
-- A character whose stop bit is broken, at the receiver of src/v110/soft_uart.c.
use ras.Base.{
  ℕ, suc, ◌+◌, ◌-◌, ◌*◌, ◌^◌, ◌<◌, ◌≡◌, ◌≢◌, refl, ap, ◌∙◌, Bool, true, false, ◌||◌, none, some, [],
  ◌∷◌, ◌++◌, length, length-append, ◌==◌, ==_of_ne, leb, bit_or, if◌then◌else◌, arith,
}
use Prim.Native.Nat.{bit_or-bitwise}
use ras.Osmo.{Osmo, Msgb, Documented, HasMemory}
use ras.SoftUart.{
  SoftUart, parity_bits, parity_none, rx_cb, timer_del, flush_rx, rx_ch_into, rx_ch, rx_stop_bit,
  rx_counted_bit, rx_bit, and_then, map_idle, rx_ubits,
}
use ras.SoftUart.Line.{bits_of, length-bits_of, shift_in-bits_of}
use ras.SoftUart.Frame.{
  Fits, frame_length, parity_list, rx_start_bit, rx_data_bits, rx_parity, and_then-some,
}
use ras.SoftUart.Stream.{flush_rx-full}

module _ ⦃o : Osmo⦄ where
  -- The only stop bit is 0.
  rx_stop_broken :
      (s : SoftUart)
      → s.rx_running ≡ true
      → s.cfg.num_stop_bits ≡ 1
      → s.bit_count ≡ 1 + s.cfg.num_data_bits + parity_bits s.cfg
      → Fits s.cfg
      → rx_bit 0 s
        ≡ map_idle (
            rx_ch s.shift_reg
              (record s { bit_count = frame_length s.cfg; flags = bit_or s.flags o.framing_error }))
  unfolding rx_bit rx_counted_bit rx_stop_bit
  rx_stop_broken s r one b l = ground arith

  module _ (doc : Documented o) (mem : HasMemory o) where
    rx_ch_into-flagged :
        (x : ℕ) (b : Msgb) (ch : ℕ) (s : SoftUart)
        → s.cfg.rx_cb ≡ true
        → s.flags ≢ 0
        → rx_ch_into (x ∷ b) ch s ≡ record s {
          rx_msg = some [];
          calls =
              (s.calls ++ (timer_del ∷ [])) ++ (rx_cb (some (x ∷ (b ++ (ch ∷ [])))) s.flags ∷ []);
        }
    unfolding rx_ch_into
    rx_ch_into-flagged x b ch s k f =
        let more = x ∷ (b ++ (ch ∷ [])) in
        let size : o.msgb_length more ≡ suc (length (b ++ (ch ∷ []))) = doc.len more in
        let behind = length-append b (ch ∷ []) in
        let several : (suc (length (b ++ (ch ∷ []))) == 1) ≡ false = ground (arith, behind) in
        let marked = ==_of_ne s.flags 0 f in
        rw (doc.put (x ∷ b) (ch ∷ [])) (
          rw size (
            rw several (
              rw marked (
                by_room (leb s.cfg.rx_buf_size (suc (length (b ++ (ch ∷ [])))))
                ∙ flush_rx-full doc mem x (b ++ (ch ∷ [])) (record s { rx_msg = some more }) k
                    refl))))
      where
        by_room :
            (room : Bool)
            → (if room || true
                then flush_rx (record s { rx_msg = some (x ∷ (b ++ (ch ∷ []))) })
                else record s { rx_msg = some (x ∷ (b ++ (ch ∷ []))) })
              ≡ flush_rx (record s { rx_msg = some (x ∷ (b ++ (ch ∷ []))) })
        by_room true = refl
        by_room false = refl

    -- Let the flag for a framing error be no 0, the callback be set, and the configuration have one stop bit.
    -- A running receiver that waits for a start bit, with a character or more in its buffer, is sent a
    -- character of at most 8 data bits whose stop bit is 0. Then the buffer is handed over at once, with
    -- the character, shifted left, at its end, and with the flag marked and no other; the timer is
    -- stopped, the buffer is empty, and the receiver waits for a start bit again.
    pub rx_ubits-broken :
        (n ch p x : ℕ) (b : Msgb) (s : SoftUart)
        → o.framing_error ≢ 0
        → s.cfg.rx_cb ≡ true
        → s.rx_running ≡ true
        → s.bit_count ≡ 0
        → s.cfg.num_data_bits ≡ suc n
        → s.cfg.num_stop_bits ≡ 1
        → Fits s.cfg
        → ch < 2 ^ suc n
        → s.rx_msg ≡ some (x ∷ b)
        → rx_ubits (0 ∷ (bits_of (suc n) ch ++ (parity_list s.cfg p ++ (0 ∷ [])))) s
          ≡ some (record s {
            bit_count = 0;
            shift_reg = ch * 2 ^ (7 - n);
            parity_bit = if s.cfg.parity_mode == parity_none then s.parity_bit else p;
            flags = o.framing_error;
            rx_msg = some [];
            calls =
                (s.calls ++ (timer_del ∷ []))
                ++ (rx_cb (some (x ∷ (b ++ ((ch * 2 ^ (7 - n)) ∷ [])))) o.framing_error ∷ []);
          })
    unfolding rx_ubits rx_ch
    rx_ubits-broken n ch p x b s flag given r z dn one l h held =
        let bits = bits_of (suc n) ch in
        let tail = parity_list s.cfg p ++ (0 ∷ []) in
        let code = ch * 2 ^ (7 - n) in
        let s1 = record s { flags = 0; shift_reg = 0; bit_count = 1 } in
        let here = 1 + s.cfg.num_data_bits + parity_bits s.cfg in
        let noted = if s.cfg.parity_mode == parity_none then s.parity_bit else p in
        let s2 = record s1 { bit_count = here; shift_reg = code; parity_bit = noted } in
        let len = length-bits_of (suc n) ch in
        let flags_now = bit_or-bitwise 0 o.framing_error in
        let s3 = record s2 { bit_count = frame_length s.cfg; flags = o.framing_error } in
        ap (and_then (rx_ubits (bits ++ tail))) (rx_start_bit s r z)
        ∙ (rx_data_bits bits tail 0 s1 r refl (omega arith) l
            ∙ (ap
                  (λ v.
                    rx_ubits tail (record s1 { bit_count = suc (0 + length bits); shift_reg = v }))
                  (shift_in-bits_of n ch (omega (arith, l.data_le)) h)
                ∙ (rx_parity p (0 ∷ [])
                      (record s1 { bit_count = suc (0 + length bits); shift_reg = code }) r
                      (omega arith) l
                    ∙ (and_then-some (rx_bit 0 s2)
                        ∙ (rx_stop_broken s2 r one refl l
                            ∙ (ap (λ f. map_idle (rx_ch code (record s3 { flags = f }))) flags_now
                                ∙ (ap map_idle (taken code s3 held)
                                    ∙ ap (λ t. map_idle (some t))
                                        (rx_ch_into-flagged x b code s3 given flag))))))))
      where
        taken :
            (code : ℕ) (t : SoftUart)
            → t.rx_msg ≡ some (x ∷ b)
            → rx_ch code t ≡ some (rx_ch_into (x ∷ b) code t)
        taken code t e =
            ap (λ m. elim m [ none ↦ none | some msg ↦ some (rx_ch_into msg code t) ]) e
