-- ===== src/SoftUart/Characters.antt =====
-- A stream of characters, pauses and expiries of its timer at the receiver of src/v110/soft_uart.c.
use ras.Base.{
  ℕ, suc, ◌-◌, ◌*◌, ◌^◌, ◌≤◌, ◌<◌, ◌≡◌, refl, sym, subst, ap, ◌∙◌, true, some, append-nil,
  append_assoc, List, [], ◌∷◌, ◌++◌, ◌==◌, if◌then◌else◌, arith,
}
use ras.Osmo.{Osmo, Msgb, Documented, HasMemory}
use ras.SoftUart.{
  SoftUart, Cfg, flush_rx, rx_ch_into, rx_ch, rx_bit, and_then, map_idle, rx_ubits, rx_timer_cb,
  parity_none,
}
use ras.SoftUart.Line.{bits_of}
use ras.SoftUart.Frame.{Fits, ones, parity_list, frame_length, rx_ubits-character}
use ras.SoftUart.Stream.{
  Heard, idle, timeout, character, framed, characters, AllFit, Holding, Waiting, hear, hears,
  flush_rx-empty, flush_rx-full, flush_rx-Holding, rx_ch_into-Holding,
}

module _ ⦃o : Osmo⦄ (doc : Documented o) (mem : HasMemory o) where
  module _ (c : Cfg) (fits : Fits c) (given : c.rx_cb ≡ true) (big : 2 ≤ c.rx_buf_size) where
    idle-Waiting :
        (octets : List ℕ) (s : SoftUart) → Waiting c octets s → rx_ubits (1 ∷ []) s ≡ some s
    unfolding rx_ubits rx_bit
    idle-Waiting octets s (h, z) = rw h.running (rw z)

    flush_rx-count :
        (b : Msgb) (s : SoftUart)
        → s.cfg.rx_cb ≡ true
        → s.flags ≡ 0
        → s.rx_msg ≡ some b
        → (flush_rx s).bit_count ≡ s.bit_count
    flush_rx-count [] s k f e = ap (λ t. t.bit_count) (flush_rx-empty doc mem s f e)
    flush_rx-count (x ∷ b) s k f e = ap (λ t. t.bit_count) (flush_rx-full doc mem x b s k e)

    timeout-Waiting :
        (octets : List ℕ) (s : SoftUart) → Waiting c octets s → Waiting c octets (rx_timer_cb s)
    unfolding rx_timer_cb
    timeout-Waiting octets s (h, z) =
        let k : s.cfg.rx_cb ≡ true = ap (λ d. d.rx_cb) h.same ∙ given in
        let n : s.cfg.rx_buf_size ≡ c.rx_buf_size = ap (λ d. d.rx_buf_size) h.same in
        (
          subst (λ d. Holding d octets (flush_rx s)) h.same
              (flush_rx-Holding doc mem h.buffer octets s k (omega (arith, n, big)) h.running h.calm
                h.held h.all),
          flush_rx-count h.buffer s k h.calm h.held ∙ z,
        )

    character-Waiting :
        (ch p : ℕ) (octets : List ℕ) (s : SoftUart)
        → Fits s.cfg
        → s.cfg.rx_cb ≡ true
        → 2 ≤ s.cfg.rx_buf_size
        → ch < 2 ^ s.cfg.num_data_bits
        → Holding s.cfg octets s
        → s.bit_count ≡ 0
        → (s' : SoftUart) × (rx_ubits (framed s.cfg ch p) s ≡ some s')
          × (Holding s.cfg (octets ++ ((ch * 2 ^ (8 - s.cfg.num_data_bits)) ∷ [])) s'
              × (s'.bit_count ≡ 0))
    unfolding rx_ch rx_ch_into
    character-Waiting ch p octets s fit k room small h z =
        let n = s.cfg.num_data_bits - 1 in
        let m = s.cfg.num_stop_bits - 1 in
        let data_bits : s.cfg.num_data_bits ≡ suc n = omega (arith, fit.data_pos) in
        let stop_bits : s.cfg.num_stop_bits ≡ suc m = omega (arith, fit.stop_pos) in
        let places : 8 - s.cfg.num_data_bits ≡ 7 - n = omega (arith, fit.data_pos) in
        let code = ch * 2 ^ (7 - n) in
        let s2 = record s {
          bit_count = frame_length s.cfg;
          shift_reg = code;
          parity_bit = if s.cfg.parity_mode == parity_none then s.parity_bit else p;
          flags = 0;
        } in
        let taken = rx_ch_into h.buffer code s2 in
        let found : rx_ch code s2 ≡ some taken = rw h.held refl in
        let after =
          rx_ch_into-Holding doc mem h.buffer code octets s2 k room h.running refl h.room h.all in
        (
          record taken { bit_count = 0 },
          ap
                (λ j.
                  rx_ubits (0 ∷ (bits_of j ch ++ (parity_list s.cfg p ++ ones s.cfg.num_stop_bits)))
                    s)
                data_bits
              ∙ (ap (λ j. rx_ubits (0 ∷ (bits_of (suc n) ch ++ (parity_list s.cfg p ++ ones j))) s)
                    stop_bits
                  ∙ (rx_ubits-character n m ch p s h.running z data_bits stop_bits fit
                        (subst (λ j. ch < 2 ^ j) data_bits small)
                      ∙ ap map_idle found)),
          (
            subst
                (λ j.
                  Holding s.cfg (octets ++ ((ch * 2 ^ j) ∷ [])) (record taken { bit_count = 0 }))
                (sym places)
                (record {
                  same = after.same;
                  running = after.running;
                  calm = after.calm;
                  buffer = after.buffer;
                  held = after.held;
                  room = after.room;
                  all = after.all;
                }),
            refl,
          ),
        )

    one-Waiting :
        (h : Heard) (octets : List ℕ) (s : SoftUart)
        → AllFit c (h ∷ [])
        → Waiting c octets s
        → (s' : SoftUart) × (hear c h s ≡ some s') × Waiting c (octets ++ characters c (h ∷ [])) s'
    unfolding hear
    one-Waiting idle octets s a w =
        (s, idle-Waiting octets s w, subst (λ l. Waiting c l s) (sym (append-nil octets)) w)
    one-Waiting timeout octets s a w = (
      rx_timer_cb s,
      refl,
      subst (λ l. Waiting c l (rx_timer_cb s)) (sym (append-nil octets))
          (timeout-Waiting octets s w),
    )
    one-Waiting (character ch p) octets s a (h, z) =
        let back = sym h.same in
        subst
          (λ d.
            (s' : SoftUart) × (rx_ubits (framed d ch p) s ≡ some s')
            × (Holding d (octets ++ ((ch * 2 ^ (8 - d.num_data_bits)) ∷ [])) s'
                × (s'.bit_count ≡ 0)))
          h.same
          (character-Waiting ch p octets s (subst Fits back fits)
            (subst (λ d. d.rx_cb ≡ true) back given) (subst (λ d. 2 ≤ d.rx_buf_size) back big)
            (subst (λ d. ch < 2 ^ d.num_data_bits) back a.0)
            (subst (λ d. Holding d octets s) back h) z)

    -- Let the buffers be documented as they are and be given when asked for, and let the configuration
    -- have a callback, a buffer of two octets or more and characters of fewer than 256 bits. A running
    -- receiver that waits for a start bit then takes any sequence of characters, bits of the idle line and
    -- expiries of its timer: it returns, and waits for a start bit again with no flag marked; and what its
    -- user was handed, with what is in the buffer, is what it was before and the characters, none lost and
    -- in order, each shifted to the top of its octet. The buffer then is not full.
    pub hears-Waiting :
        (hs : List Heard) (octets : List ℕ) (s : SoftUart)
        → AllFit c hs
        → Waiting c octets s
        → (s' : SoftUart) × (hears c hs s ≡ some s') × Waiting c (octets ++ characters c hs) s'
    unfolding hears
    hears-Waiting [] octets s a w =
        (s, refl, subst (λ l. Waiting c l s) (sym (append-nil octets)) w)
    hears-Waiting (h ∷ hs) octets s a w =
        let (s1, e1, w1) = one-Waiting h octets s (first_fits h hs a).0 w in
        let (s2, e2, w2) =
          hears-Waiting hs (octets ++ characters c (h ∷ [])) s1 (first_fits h hs a).1 w1 in
        (
          s2,
          ap (and_then (hears c hs)) e1 ∙ e2,
          subst (λ l. Waiting c l s2)
              (append_assoc octets (characters c (h ∷ [])) (characters c hs)
                ∙ ap (λ l. octets ++ l) (first_of h hs))
              w2,
        )
      where
        first_fits :
            (h : Heard) (hs : List Heard) → AllFit c (h ∷ hs) → AllFit c (h ∷ []) × AllFit c hs
        first_fits idle hs a = (tt, a)
        first_fits timeout hs a = (tt, a)
        first_fits (character ch p) hs a = ((a.0, tt), a.1)

        first_of :
            (h : Heard) (hs : List Heard)
            → characters c (h ∷ []) ++ characters c hs ≡ characters c (h ∷ hs)
        first_of idle hs = refl
        first_of timeout hs = refl
        first_of (character ch p) hs = refl
