-- ===== src/SoftUart/Stream.antt =====
-- What the receiver of src/v110/soft_uart.c holds and has handed over, as its buffer is filled and
-- emptied; and what may come to it, one after the other.
use ras.Base.{
  ℕ, suc, ◌-◌, ◌*◌, ◌/◌, ◌%◌, ◌^◌, ◌≤◌, ◌<◌, ◌≡◌, refl, sym, ap, ◌∙◌, true, false, none, some,
  Option, append-nil, append_assoc, List, [], ◌∷◌, ◌++◌, length, ◌==◌, leb, Bool-cases, inl, inr,
  arith,
}
use ras.Osmo.{Osmo, Msgb, Documented, HasMemory}
use ras.SoftUart.{
  SoftUart, Cfg, Call, rx_cb, timer_del, timer_schedule, timer_setup, flush_rx, rx_ch_into,
  and_then, rx_ubits, rx_timer_cb,
}
use ras.SoftUart.Line.{bits_of}
use ras.SoftUart.Frame.{ones, parity_list}

-- What comes: a bit of the idle line, a character with some parity bit, or the end of the timer.
pub data Heard : Type 0 where
  idle timeout : Heard
  character : ℕ → ℕ → Heard

abbrev pub framed : Cfg → ℕ → ℕ → List ℕ
framed c ch p = 0 ∷ (bits_of c.num_data_bits ch ++ (parity_list c p ++ ones c.num_stop_bits))

-- The octets that the user was handed, buffer after buffer.
abbrev pub contents : List Call → List ℕ
contents [] = []
contents (rx_cb none flags ∷ cs) = contents cs
contents (rx_cb (some b) flags ∷ cs) = b ++ contents cs
contents (timer_del ∷ cs) = contents cs
contents (timer_schedule s us ∷ cs) = contents cs
contents (timer_setup ∷ cs) = contents cs

pub contents-append : (xs ys : List Call) → contents (xs ++ ys) ≡ contents xs ++ contents ys
contents-append [] ys = refl
contents-append (rx_cb none flags ∷ xs) ys = contents-append xs ys
contents-append (rx_cb (some b) flags ∷ xs) ys =
    ap (λ l. b ++ l) (contents-append xs ys) ∙ sym (append_assoc b (contents xs) (contents ys))
contents-append (timer_del ∷ xs) ys = contents-append xs ys
contents-append (timer_schedule s us ∷ xs) ys = contents-append xs ys
contents-append (timer_setup ∷ xs) ys = contents-append xs ys

-- The octets of the characters, at the top of the register.
abbrev pub characters : Cfg → List Heard → List ℕ
characters c [] = []
characters c (idle ∷ hs) = characters c hs
characters c (timeout ∷ hs) = characters c hs
characters c (character ch p ∷ hs) = (ch * 2 ^ (8 - c.num_data_bits)) ∷ characters c hs

abbrev pub AllFit : Cfg → List Heard → Type 0
AllFit c [] = Unit
AllFit c (idle ∷ hs) = AllFit c hs
AllFit c (timeout ∷ hs) = AllFit c hs
AllFit c (character ch p ∷ hs) = (ch < 2 ^ c.num_data_bits) × AllFit c hs

-- A running receiver with no flag, whose user and whose buffer, which has room, have `octets`.
pub record Holding (c : Cfg) (octets : List ℕ) (s : SoftUart) : Type 0 where
  pub same : s.cfg ≡ c
  pub running : s.rx_running ≡ true
  pub calm : s.flags ≡ 0
  pub buffer : Msgb
  pub held : s.rx_msg ≡ some buffer
  pub room : length buffer < c.rx_buf_size
  pub all : contents s.calls ++ buffer ≡ octets

-- One that waits for a start bit.
abbrev pub Waiting : Cfg → List ℕ → SoftUart → Type 0
Waiting c octets s = Holding c octets s × (s.bit_count ≡ 0)

module _ ⦃o : Osmo⦄ where
  unfoldable pub hear : Cfg → Heard → SoftUart → Option SoftUart
  hear c idle s = rx_ubits (1 ∷ []) s
  hear c timeout s = some (rx_timer_cb s)
  hear c (character ch p) s = rx_ubits (framed c ch p) s

  unfoldable pub hears : Cfg → List Heard → SoftUart → Option SoftUart
  hears c [] s = some s
  hears c (h ∷ hs) s = and_then (hears c hs) (hear c h s)

  module _ (doc : Documented o) (mem : HasMemory o) where
    pub flush_rx-empty : (s : SoftUart) → s.flags ≡ 0 → s.rx_msg ≡ some [] → flush_rx s ≡ s
    unfolding flush_rx
    flush_rx-empty s f e =
        let none_held : o.msgb_length [] ≡ 0 = doc.len [] in rw e (rw f (rw none_held))

    pub flush_rx-full :
        (x : ℕ) (b : Msgb) (s : SoftUart)
        → s.cfg.rx_cb ≡ true
        → s.rx_msg ≡ some (x ∷ b)
        → flush_rx s ≡ record s {
          rx_msg = some [];
          calls = (s.calls ++ (timer_del ∷ [])) ++ (rx_cb (some (x ∷ b)) s.flags ∷ []);
        }
    unfolding flush_rx
    flush_rx-full x b s k e =
        let size : o.msgb_length (x ∷ b) ≡ suc (length b) = doc.len (x ∷ b) in
        let full : (suc (length b) == 0) ≡ false = ground arith in
        rw e (rw size (rw full (rw k (rw (mem.alloc s.cfg.rx_buf_size)))))

    handed :
        (calls : List Call) (b : List ℕ) (flags : ℕ)
        → contents ((calls ++ (timer_del ∷ [])) ++ (rx_cb (some b) flags ∷ [])) ++ []
          ≡ contents calls ++ b
    handed calls b flags =
        append-nil (contents ((calls ++ (timer_del ∷ [])) ++ (rx_cb (some b) flags ∷ [])))
        ∙ (contents-append (calls ++ (timer_del ∷ [])) (rx_cb (some b) flags ∷ [])
            ∙ (ap (λ l. l ++ (b ++ []))
                  (contents-append calls (timer_del ∷ []) ∙ append-nil (contents calls))
                ∙ ap (λ l. contents calls ++ l) (append-nil b)))

    -- A buffer that is given to the user, full or not.
    pub flush_rx-Holding :
        (b : Msgb) (octets : List ℕ) (s : SoftUart)
        → s.cfg.rx_cb ≡ true
        → 2 ≤ s.cfg.rx_buf_size
        → s.rx_running ≡ true
        → s.flags ≡ 0
        → s.rx_msg ≡ some b
        → contents s.calls ++ b ≡ octets
        → Holding s.cfg octets (flush_rx s)
    flush_rx-Holding [] octets s k big r f e all = rw (flush_rx-empty s f e) (record {
      same = refl;
      running = r;
      calm = f;
      buffer = [];
      held = e;
      room = omega (arith, big);
      all = all;
    })
    flush_rx-Holding (x ∷ b) octets s k big r f e all = rw (flush_rx-full x b s k e) (record {
      same = refl;
      running = r;
      calm = f;
      buffer = [];
      held = refl;
      room = omega (arith, big);
      all = handed s.calls (x ∷ b) s.flags ∙ all;
    })

    pub rx_ch_into-Holding :
        (b : Msgb) (ch : ℕ) (octets : List ℕ) (s : SoftUart)
        → s.cfg.rx_cb ≡ true
        → 2 ≤ s.cfg.rx_buf_size
        → s.rx_running ≡ true
        → s.flags ≡ 0
        → length b < s.cfg.rx_buf_size
        → contents s.calls ++ b ≡ octets
        → Holding s.cfg (octets ++ (ch ∷ [])) (rx_ch_into b ch s)
    unfolding rx_ch_into
    rx_ch_into-Holding b ch octets s k big r f small all =
        let more = b ++ (ch ∷ []) in
        let size : o.msgb_length more ≡ length more = doc.len more in
        let quiet : (s.flags == 0) ≡ true = ground (arith, f) in
        let stored = record s { rx_msg = some more } in
        let kept : contents s.calls ++ more ≡ octets ++ (ch ∷ []) =
          sym (append_assoc (contents s.calls) b (ch ∷ [])) ∙ ap (λ l. l ++ (ch ∷ [])) all in
        let scheduled =
          timer_schedule (s.cfg.rx_timeout_ms / 1000) (s.cfg.rx_timeout_ms % 1000 * 1000) in
        rw (doc.put b (ch ∷ [])) (
          rw size (elim (Bool-cases (length more == 1)) [
            | inl first ↦ rw first (record {
              same = refl;
              running = r;
              calm = f;
              buffer = more;
              held = refl;
              room = ground (arith, first, big);
              all =
                  ap (λ l. l ++ more)
                    (contents-append s.calls (scheduled ∷ []) ∙ append-nil (contents s.calls))
                  ∙ kept;
            })
            | inr later ↦ rw later (
                rw quiet (elim (Bool-cases (leb s.cfg.rx_buf_size (length more))) [
                  | inl full ↦
                      rw full
                        (flush_rx-Holding more (octets ++ (ch ∷ [])) stored k big r f refl kept)
                  | inr fits ↦ rw fits (record {
                    same = refl;
                    running = r;
                    calm = f;
                    buffer = more;
                    held = refl;
                    room = ground (arith, fits);
                    all = kept;
                  })
                ]))
          ]))
