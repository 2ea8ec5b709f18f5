-- ===== src/Gateway/Tty.antt =====
-- The program of src/yate_tty.c, a text telephone: two processes of minimodem, one for each direction,
-- between the ISDN line and a TCP connection; less the start of the processes and what is printed. With
-- the arguments of its main, which that of src/yate_x75.c reads alike.
pub mod Lossless
pub mod Arguments
pub mod Examples
use ras.Base.{
  zeros, ℕ, zero, suc, ◌+◌, ◌-◌, ◌*◌, ◌%◌, Bool, true, false, Option, none, some, List, [], ◌∷◌,
  ◌++◌, ltb, ◌==◌, if◌then◌else◌, length, take, drop,
}
use ras.Yate.{alaw_to_slin, slin_to_alaw}
use ras.Yate.Float.{Float, slin_to_f32, f32_to_slin}

-- The state: what each minimodem has been given, what the connection has, and the table of src/yate.c.
-- `telnet` is whether `telnet_ofd` is set, `force_exit_timer` whether it is scheduled.
pub record Tty : Type 0 where
  pub s2a : List ℕ
  pub modem_samples : List ℕ
  pub modem_text : List ℕ
  pub telnet_text : List ℕ
  pub telnet : Bool
  pub read_enabled : Bool
  pub tcp_disconnected : Bool
  pub force_exit_timer : Bool

-- What a buffer of zeros holds behind a `read` of `octets` into it.
abbrev pub over : List ℕ → List ℕ → List ℕ
over octets memory = octets ++ drop (length octets) memory

module _ (fl : Float) where
  -- Numbers in memory.
  unfoldable pub float_octets : List fl.F → List ℕ
  float_octets [] = []
  float_octets (f ∷ fs) = fl.octets f ++ float_octets fs

  unfoldable pub floats : ℕ → List ℕ → List fl.F
  floats zero octets = []
  floats (suc n) octets = fl.number (take 4 octets) ∷ floats n (drop 4 octets)

  -- What the receiving minimodem is given for samples from the line.
  abbrev pub samples_for_modem : List ℕ → List ℕ
  samples_for_modem in_buf = float_octets (slin_to_f32 fl (alaw_to_slin in_buf))

  -- `heard` is what can be read from the sending minimodem.
  unfoldable pub handle_sample_buffer : List ℕ → List ℕ → Tty → Tty × List ℕ
  handle_sample_buffer heard in_buf t =
      let n = length in_buf in
      let tx_buf = over (take (n * 4) heard) (zeros (n * 4)) in
      let (s2a', out_buf) = slin_to_alaw t.s2a (f32_to_slin fl (floats n tx_buf)) in
      (
        record t { s2a = s2a'; modem_samples = t.modem_samples ++ samples_for_modem in_buf },
        out_buf,
      )

-- On the octets that `read` gives, none where it fails or the connection is closed.
unfoldable pub telnet_rx_cb : List ℕ → Tty → Tty
telnet_rx_cb [] t = record t { tcp_disconnected = true; read_enabled = false }
telnet_rx_cb (o ∷ os) t = record t { modem_text = t.modem_text ++ (o ∷ os) }

unfoldable pub minimodem_rx_cb : List ℕ → Tty → Tty
minimodem_rx_cb text t = if t.telnet then record t { telnet_text = t.telnet_text ++ text } else t

-- By what `telnet_init` gives; nothing where the program ends.
unfoldable pub call_initialize : Bool → Tty → Option Tty
call_initialize connected t =
    if connected then some (record t { telnet = true; read_enabled = true }) else none

-- The loop of main behind `osmo_select_main`.
unfoldable pub main_turn : Tty → Tty
main_turn t =
    if t.tcp_disconnected then record t { tcp_disconnected = false; force_exit_timer = true } else t

-- `memchr(argv[1], ' ', …)`: the characters before the first space and those behind it.
unfoldable pub split_at_space : List ℕ → Option (List ℕ × List ℕ)
split_at_space [] = none
split_at_space (c ∷ cs) = elim (split_at_space cs) [
  | none ↦ if c == 0x20 then some ([], cs) else none
  | some (word, rest) ↦ if c == 0x20 then some ([], cs) else some (c ∷ word, rest)
]

-- The host and the port, nothing where the program ends; `atoi` is the function of the C library.
unfoldable pub arguments : (List ℕ → ℕ) → List (List ℕ) → Option (List ℕ × ℕ)
arguments atoi (program ∷ (host ∷ (port ∷ []))) = some (host, atoi port % 65536)
arguments atoi (program ∷ (both ∷ [])) = elim (split_at_space both) [
  | none ↦ none
  | some (host, port) ↦ some (host, atoi port % 65536)
]
arguments atoi _ = none
