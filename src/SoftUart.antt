-- ===== src/SoftUart.antt =====
-- The software UART of src/v110/soft_uart.c: its receiver, its transmitter, which sends nothing
-- yet, and its configuration. The two parts of the C structure, `rx` and `tx`, are fields of one
-- record; calls that leave the UART (its callback, its timer) are appended to `calls`.
pub mod Examples
pub mod Line
pub mod Frame
pub mod Setup
pub mod Stream
pub mod Characters
pub mod Broken
use ras.Base.{
  ℕ, zero, suc, ◌+◌, ◌*◌, ◌/◌, ◌%◌, bit_or, Bool, true, false, not, ◌&&◌, ◌||◌, Option, none, some,
}
use ras.Base.{List, [], ◌∷◌, ◌++◌, ◌==◌, ltb, leb, if◌then◌else◌, ◌▹◌, u8}
use ras.Osmo.{Osmo, Msgb, Queue}

-- `struct osmo_soft_uart_cfg`. The parity mode is the number of the enumeration, as the caller's
-- may be out of its range; of the callback the UART knows whether it is set.
pub record Cfg : Type 0 where
  pub num_data_bits : ℕ
  pub num_stop_bits : ℕ
  pub parity_mode : ℕ
  pub rx_buf_size : ℕ
  pub rx_timeout_ms : ℕ
  pub rx_cb : Bool

-- OSMO_SUART_PARITY_NONE and NUM_OSMO_SUART_PARITY
abbrev pub parity_none : ℕ
parity_none = 0

abbrev pub num_parity : ℕ
num_parity = 3

-- What the UART calls: its user, with the buffer and the flags, and its timer.
pub data Call : Type 0 where
  rx_cb : Option Msgb → ℕ → Call
  timer_del : Call
  timer_schedule : ℕ → ℕ → Call
  timer_setup : Call

-- `struct osmo_soft_uart`
pub record SoftUart : Type 0 where
  pub cfg : Cfg
  pub rx_running : Bool
  pub bit_count : ℕ
  pub shift_reg : ℕ
  pub rx_msg : Option Msgb
  pub parity_bit : ℕ
  pub flags : ℕ
  pub tx_running : Bool
  pub tx_msg : Option Msgb
  pub tx_queue : Queue
  pub calls : List Call

abbrev pub call : Call → SoftUart → SoftUart
call e s = record s { calls = s.calls ++ (e ∷ []) }

abbrev is_some : Option Msgb → Bool
is_some none = false
is_some (some b) = true

abbrev size_or_zero : ⦃o : Osmo⦄ → Option Msgb → ℕ
size_or_zero none = 0
size_or_zero ⦃o⦄ (some b) = o.msgb_length b

abbrev reset_msg : ⦃o : Osmo⦄ → Option Msgb → Option Msgb
reset_msg none = none
reset_msg ⦃o⦄ (some b) = some (o.msgb_reset b)

-- Whether a parity bit is sent: the number of them.
abbrev pub parity_bits : Cfg → ℕ
parity_bits c = if c.parity_mode == parity_none then 0 else 1

-- The receiver waits for a start bit again.
abbrev idle_again : SoftUart → SoftUart
idle_again s = record s { bit_count = 0 }

abbrev pub map_idle : Option SoftUart → Option SoftUart
map_idle none = none
map_idle (some s) = some (idle_again s)

-- A failed assertion ends the program.
abbrev pub and_then : (SoftUart → Option SoftUart) → Option SoftUart → Option SoftUart
and_then f none = none
and_then f (some s) = f s

module _ ⦃o : Osmo⦄ where
  -- Hand the buffer and the flags over, if there is anything.
  unfoldable pub flush_rx : SoftUart → SoftUart
  flush_rx s =
      let stopped = call timer_del s in
      let handed = call (rx_cb s.rx_msg s.flags) stopped in
      if not (size_or_zero s.rx_msg == 0) || not (s.flags == 0)
      then (if s.cfg.rx_cb
          then record handed { rx_msg = o.msgb_alloc s.cfg.rx_buf_size }
          else record stopped { rx_msg = reset_msg s.rx_msg })
      else s

  -- A character is received into the buffer `msg`.
  unfoldable pub rx_ch_into : Msgb → ℕ → SoftUart → SoftUart
  rx_ch_into msg ch s =
      let put = o.msgb_put msg (ch ∷ []) in
      let stored = record s { rx_msg = some put } in
      let msg_len = o.msgb_length put in
      if msg_len == 1
      then call (timer_schedule (s.cfg.rx_timeout_ms / 1000) (s.cfg.rx_timeout_ms % 1000 * 1000))
          stored
      else if leb s.cfg.rx_buf_size msg_len || not (s.flags == 0)
      then flush_rx stored
      else stored

  -- `none` is the failed assertion on a missing buffer.
  unfoldable pub rx_ch : ℕ → SoftUart → Option SoftUart
  rx_ch ch s = elim s.rx_msg [ none ↦ none | some msg ↦ some (rx_ch_into msg ch s) ]

  -- A stop bit; the last one completes the character.
  unfoldable pub rx_stop_bit : ℕ → SoftUart → Option SoftUart
  rx_stop_bit bit s =
      let marked = if bit == 1 then s else record s { flags = bit_or s.flags o.framing_error } in
      let done = map_idle (rx_ch marked.shift_reg marked) in
      if s.bit_count == 1 + s.cfg.num_data_bits + parity_bits s.cfg + s.cfg.num_stop_bits
      then done
      else some marked

  -- A bit behind the start bit, already counted.
  unfoldable pub rx_counted_bit : ℕ → SoftUart → Option SoftUart
  rx_counted_bit bit s =
      let n = s.cfg.num_data_bits in
      let shifted = s.shift_reg / 2 in
      if leb s.bit_count (1 + n)
      then some (record s { shift_reg = if bit == 0 then shifted else bit_or shifted 0x80 })
      else if not (s.cfg.parity_mode == parity_none) && s.bit_count == 1 + n + 1
      then some (record s { parity_bit = bit })
      else if leb s.bit_count (1 + n + parity_bits s.cfg + s.cfg.num_stop_bits)
      then rx_stop_bit bit s
      else some s

  unfoldable pub rx_bit : ℕ → SoftUart → Option SoftUart
  rx_bit bit s =
      if not s.rx_running
      then some s
      else if s.bit_count == 0
      then some (if bit == 0 then record s { flags = 0; shift_reg = 0; bit_count = 1 } else s)
      else rx_counted_bit bit (record s { bit_count = u8 (s.bit_count + 1) })

  unfoldable pub rx_ubits : List ℕ → SoftUart → Option SoftUart
  rx_ubits [] s = some s
  rx_ubits (bit ∷ bits) s = and_then (rx_ubits bits) (rx_bit bit s)

  -- The function of the receive timer.
  unfoldable pub rx_timer_cb : SoftUart → SoftUart
  rx_timer_cb s = flush_rx s

  unfoldable pub tx : Msgb → (Queue → Msgb → Queue) → SoftUart → SoftUart
  tx msg msgb_enqueue s =
      if is_some s.tx_msg
      then record s { tx_queue = msgb_enqueue s.tx_queue msg }
      else record s { tx_msg = some msg }

  -- The transmitter is unfinished: running or not, it sends the idle line.
  unfoldable pub tx_bit : SoftUart → ℕ
  tx_bit s = if not s.tx_running then 1 else 1

  unfoldable pub tx_ubits : ℕ → SoftUart → List ℕ
  tx_ubits zero s = []
  tx_ubits (suc n) s = tx_bit s ∷ tx_ubits n s

  -- `false` is `-EINVAL`.
  unfoldable pub configure : Cfg → SoftUart → Bool × SoftUart
  configure cfg s =
      let flushed =
        if ltb cfg.rx_buf_size s.cfg.rx_buf_size || ltb cfg.rx_timeout_ms s.cfg.rx_timeout_ms
        then flush_rx s
        else s in
      if ltb 8 cfg.num_data_bits || cfg.num_data_bits == 0
      then (false, s)
      else if cfg.num_stop_bits == 0
      then (false, s)
      else if leb num_parity cfg.parity_mode
      then (false, s)
      else if cfg.rx_buf_size == 0
      then (false, s)
      else (true, call timer_setup (record flushed { cfg = cfg; tx_queue = o.init_llist_head }))

  unfoldable pub enable_rx : Bool → SoftUart → SoftUart
  enable_rx rx s =
      let stopped = record (flush_rx s) { rx_running = false } in
      let msg = if is_some s.rx_msg then s.rx_msg else o.msgb_alloc s.cfg.rx_buf_size in
      if rx
      then (if s.rx_running then s else record s { rx_msg = msg; rx_running = true })
      else (if s.rx_running then stopped else s)

  unfoldable pub enable : Bool → Bool → SoftUart → SoftUart
  unfolding enable_rx
  enable rx tx s = record (enable_rx rx s) { tx_running = tx }
