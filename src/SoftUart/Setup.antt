-- ===== src/SoftUart/Setup.antt =====
-- The checks of a configuration (src/v110/soft_uart.c).
use ras.Base.{
  ◌+◌, ◌≤◌, ◌≡◌, ◌⊎◌, inl, inr, refl, ap, Bool, true, false, ◌||◌, ◌==◌, [], ◌∷◌, ◌++◌, Bool-cases,
  ◌∙◌, ltb, leb, if◌then◌else◌, arith,
}
use ras.Osmo.{Osmo}
use ras.SoftUart.{Cfg, timer_setup, SoftUart, num_parity, flush_rx, configure}

-- 1 to 8 data bits, a stop bit, a known parity mode and room for a character.
abbrev pub Valid : Cfg → Type 0
Valid c =
    (1 ≤ c.num_data_bits)
    × (c.num_data_bits ≤ 8)
    × (1 ≤ c.num_stop_bits)
    × (1 + c.parity_mode ≤ 3)
    × (1 ≤ c.rx_buf_size)

abbrev valid : Cfg → Bool
valid c =
    if ltb 8 c.num_data_bits || c.num_data_bits == 0
    then false
    else if c.num_stop_bits == 0
    then false
    else if leb num_parity c.parity_mode
    then false
    else if c.rx_buf_size == 0
    then false
    else true

valid-true : (c : Cfg) → valid c ≡ true → Valid c
valid-true c h = (ground arith, ground arith, ground arith, ground arith, ground arith)

valid-false : (c : Cfg) → valid c ≡ false → ¬ Valid c
valid-false c h (a, b, d, e, f) = ground arith

first_of :
    {A : Type 0} (a b d e : Bool) (x y : A)
    → (if a then x else if b then x else if d then x else if e then x else y) ≡ (
        if (if a
          then false
          else if b
          then false
          else if d
          then false
          else if e
          then false
          else true)
        then y
        else x)
first_of true b d e x y = refl
first_of false true d e x y = refl
first_of false false true e x y = refl
first_of false false false true x y = refl
first_of false false false false x y = refl

module _ ⦃o : Osmo⦄ where
  -- The receiver's part of the state when a valid configuration arrives.
  abbrev pub before : Cfg → SoftUart → SoftUart
  before c s =
      if ltb c.rx_buf_size s.cfg.rx_buf_size || ltb c.rx_timeout_ms s.cfg.rx_timeout_ms
      then flush_rx s
      else s

  abbrev pub accepted : Cfg → SoftUart → SoftUart
  accepted c s = record (before c s) {
    cfg = c;
    tx_queue = o.init_llist_head;
    calls = (before c s).calls ++ (timer_setup ∷ []);
  }

  configure-valid :
      (c : Cfg) (s : SoftUart)
      → configure c s ≡ (if valid c then (true, accepted c s) else (false, s))
  unfolding configure
  configure-valid c s =
      first_of (ltb 8 c.num_data_bits || c.num_data_bits == 0) (c.num_stop_bits == 0)
        (leb num_parity c.parity_mode) (c.rx_buf_size == 0) (false, s) (true, accepted c s)

  -- A configuration with no data bit or more than 8, no stop bit, an unknown parity mode or no room
  -- for a character is refused and nothing changes. Any other becomes the UART's, the receive timer
  -- is set up and the transmit queue emptied; before that the buffer is flushed exactly if its size
  -- or the timeout shrinks.
  pub configure_lem :
      (c : Cfg) (s : SoftUart)
      → (¬ Valid c × (configure c s ≡ (false, s)))
        ⊎ (Valid c
            × (configure c s ≡ (
              true,
              record (before c s) {
                cfg = c;
                tx_queue = o.init_llist_head;
                calls = (before c s).calls ++ (timer_setup ∷ []);
              },
            )))
  configure_lem c s = split (Bool-cases (valid c))
    where
      pick : Bool → Bool × SoftUart
      pick b = if b then (true, accepted c s) else (false, s)

      split :
          (valid c ≡ true) ⊎ (valid c ≡ false)
          → (¬ Valid c × (configure c s ≡ (false, s)))
            ⊎ (Valid c × (configure c s ≡ (true, accepted c s)))
      split (inl h) = inr (valid-true c h, configure-valid c s ∙ ap pick h)
      split (inr h) = inl (valid-false c h, configure-valid c s ∙ ap pick h)
