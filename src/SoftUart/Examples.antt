-- ===== src/SoftUart/Examples.antt =====
-- The software UART at work: its properties at concrete states.
use ras.Base.{◌≡◌, refl, true, false, none, some, List, [], ◌∷◌, ◌⊎◌, arith}
use ras.Osmo.Concrete.{lists, lists-Documented, lists-HasMemory}
use ras.SoftUart.{
  Cfg, SoftUart, Call, rx_ch, rx_ubits, rx_bit, rx_counted_bit, rx_stop_bit, rx_ch_into, flush_rx,
  configure, rx_cb,
}
use ras.SoftUart.Frame.{Fits}
use ras.SoftUart.Stream.{Heard, idle, timeout, character, hears, Waiting}
use ras.SoftUart.Broken.{rx_ubits-broken}
use ras.SoftUart.Line.{bits_of}
use ras.SoftUart.Characters.{hears-Waiting}
use ras.SoftUart.Setup.{Valid, accepted, configure_lem}

-- 7 data bits, even parity, 1 stop bit
abbrev seven_even : Cfg
seven_even = record {
  num_data_bits = 7;
  num_stop_bits = 1;
  parity_mode = 1;
  rx_buf_size = 2;
  rx_timeout_ms = 1500;
  rx_cb = true;
}

abbrev receiving : SoftUart
receiving = record {
  cfg = seven_even;
  rx_running = true;
  bit_count = 0;
  shift_reg = 0;
  rx_msg = some (65 ∷ []);
  parity_bit = 0;
  flags = 0;
  tx_running = false;
  tx_msg = none;
  tx_queue = [];
  calls = [];
}

seven_even-Fits : Fits seven_even
seven_even-Fits = record {
  data_pos = omega arith;
  data_le = omega arith;
  stop_pos = omega arith;
  counted = omega arith;
}

-- The letter C arrives as twice its code, and fills the buffer.
letter_c :
    rx_ubits (0 ∷ 1 ∷ 1 ∷ 0 ∷ 0 ∷ 0 ∷ 0 ∷ 1 ∷ 1 ∷ 1 ∷ []) receiving
    ≡ some (record receiving {
      shift_reg = 134;
      parity_bit = 1;
      rx_msg = some [];
      calls = Call.timer_del ∷ rx_cb (some (65 ∷ 134 ∷ [])) 0 ∷ [];
    })
unfolding rx_ubits rx_bit rx_counted_bit rx_stop_bit rx_ch rx_ch_into flush_rx
letter_c = refl

-- Two letters with a bit of the idle line between them; then the timer ends.
abbrev two_letters : List Heard
two_letters = character 67 1 ∷ (idle ∷ (character 66 0 ∷ (timeout ∷ [])))

hears-Waiting_example :
    (s' : SoftUart) × (hears seven_even two_letters receiving ≡ some s')
    × Waiting seven_even (65 ∷ 134 ∷ 132 ∷ []) s'
hears-Waiting_example =
    hears-Waiting lists-Documented lists-HasMemory seven_even seven_even-Fits refl (omega arith)
      two_letters (65 ∷ []) receiving (omega arith, (omega arith, tt))
      (
        record {
          same = refl;
          running = refl;
          calm = refl;
          buffer = 65 ∷ [];
          held = refl;
          room = omega arith;
          all = refl;
        },
        refl,
      )

-- A buffer of one octet is accepted, and the second character is written behind its end.
one_octet_overrun :
    rx_ch 66
      (record receiving { cfg = record seven_even { rx_buf_size = 1 }; rx_msg = some (65 ∷ []) })
    ≡ some (record receiving {
      cfg = record seven_even { rx_buf_size = 1 };
      rx_msg = some [];
      calls = Call.timer_del ∷ rx_cb (some (65 ∷ 66 ∷ [])) 0 ∷ [];
    })
unfolding rx_ch rx_ch_into flush_rx
one_octet_overrun = refl

abbrev roomy : SoftUart
roomy = record receiving { cfg = record seven_even { rx_buf_size = 8 } }

rx_ubits-broken_example :
    rx_ubits (0 ∷ 1 ∷ 1 ∷ 0 ∷ 0 ∷ 0 ∷ 0 ∷ 1 ∷ 1 ∷ 0 ∷ []) roomy
    ≡ some (record roomy {
      shift_reg = 134;
      parity_bit = 1;
      flags = 1;
      rx_msg = some [];
      calls = Call.timer_del ∷ rx_cb (some (65 ∷ 134 ∷ [])) 1 ∷ [];
    })
unfolding bits_of
rx_ubits-broken_example =
    rx_ubits-broken lists-Documented lists-HasMemory 6 67 1 65 [] roomy (λ e. omega arith) refl refl
      refl refl refl
      (record {
        data_pos = omega arith;
        data_le = omega arith;
        stop_pos = omega arith;
        counted = omega arith;
      })
      (omega arith) refl

-- With an empty buffer the flag stays until the next start bit, which forgets it.
flag_forgotten :
    rx_ubits (0 ∷ 1 ∷ 1 ∷ 0 ∷ 0 ∷ 0 ∷ 0 ∷ 1 ∷ 1 ∷ 0 ∷ 0 ∷ []) (record roomy { rx_msg = some [] })
    ≡ some (record roomy {
      rx_msg = some (134 ∷ []);
      bit_count = 1;
      shift_reg = 0;
      parity_bit = 1;
      flags = 0;
      calls = Call.timer_schedule 1 500000 ∷ [];
    })
unfolding rx_ubits rx_bit rx_counted_bit rx_stop_bit rx_ch rx_ch_into flush_rx
flag_forgotten = refl

configure_lem_example :
    (¬ Valid seven_even × (configure seven_even receiving ≡ (false, receiving)))
    ⊎ (Valid seven_even × (configure seven_even receiving ≡ (true, accepted seven_even receiving)))
configure_lem_example = configure_lem seven_even receiving
