-- ===== src/Gateway/X75.antt =====
-- The program of src/yate_x75.c, between the ISDN line with X.75 and a TCP connection, with its
-- constants of src/config.h, less the start, the messages that are printed and what is sent to the packet
-- capture.
pub mod Carry
pub mod Run
pub mod Flow
use ras.Base.{
  ℕ, ◌+◌, ◌-◌, ◌*◌, Bool, true, false, not, ◌&&◌, ◌||◌, Option, none, some, List, [], ◌∷◌, ◌++◌,
  ltb, if◌then◌else◌, length, take,
}
use ras.Osmo.{Osmo, Msgb, Expiry}
use ras.X75.Types.{
  State, data_transfer, frame_reject, Frame, X75Cb, Code, connect_confirmation, connect_indication,
  disconnect_confirmation, disconnect_indication, data_indication, data_transmit,
}
use ras.X75.Types
use ras.X75.Kick.{Outcome, returns, exits, copies_null}
use ras.X75.Iface.{data_request, data_received, disconnect_request}
use ras.X75.Expiry.{expires}
use ras.Line.{Hdlc, Loop, finished, running, Tx, TxRun, rx_loop, tx_loop}

-- X75_FLOW_CONTROL_MAX_WRITE_QUEUE, X75_TCP_READ_BLOCK_SIZE and `sizeof(hdlc_rx_buf) - 5`.
abbrev pub max_write_queue : ℕ
max_write_queue = 8

abbrev pub read_block_size : ℕ
read_block_size = 128

abbrev pub hdlc_rx_size : ℕ
hdlc_rx_size = 8192 - 5

-- YATEX75_IDLE to YATEX75_X75DISCONNECTED
pub data Phase : Type 0 where
  idle tcp_connected x75_connected tcp_disconnected x75_disconnected : Phase

-- The state of the program. `telnet` is whether `telnet_ofd` is set, `telnet_out` the octets written to it,
-- `read_enabled` what is asked of `osmo_select_main` for it; `taken` and `log` are the octets that the
-- encoder has taken and the callbacks that the link has made.
pub record Gateway (h : Hdlc) : Type 0 where
  pub x75_instance : X75Cb
  pub phase : Phase
  pub hdlc_rx : h.Decoder
  pub hdlc_tx : h.Encoder
  pub tx : Tx
  pub telnet : Bool
  pub telnet_out : List ℕ
  pub read_enabled : Bool
  pub disconnect_close_timer : Bool
  pub force_exit_timer : Bool
  pub taken : List ℕ
  pub log : List Types.Event

-- How a handler ends: it returns, it never does, the program exits, or the link hands on a null pointer.
pub data Ended (A : Type 0) : Type 0 where
  ended : A → Ended A
  endless exited null_copied : Ended A

abbrev pub and_then : {A B : Type 0} → (A → Ended B) → Ended A → Ended B
and_then f (ended a) = f a
and_then f endless = endless
and_then f exited = exited
and_then f null_copied = null_copied

-- What `osmo_select_main` hands to the program.
pub data Input : Type 0 where
  samples : Frame → List ℕ → Input
  telnet_data : List ℕ → Input
  execute : Bool → Input
  link_timer : Option Expiry → Input
  close_timer exit_timer turn : Input

abbrev pub carries_data : State → Bool
carries_data data_transfer = true
carries_data frame_reject = true
carries_data _ = false

unfoldable pub x75_can_write : X75Cb → Bool
x75_can_write c =
    if not (carries_data c.state) then false else not (ltb max_write_queue c.write_queue_count)

-- `wrote` is what `write` to the TCP connection returns for so many octets; the program ignores it.
module _ (h : Hdlc) (wrote : ℕ → ℕ) where
  abbrev pub enqueue_tx : List ℕ → Gateway h → Gateway h
  enqueue_tx msg g = record g {
    tx = record g.tx { isdn_hdlc_tx_queue = g.tx.isdn_hdlc_tx_queue ++ (msg ∷ []) };
  }

  -- The callbacks of `cb`.
  unfoldable pub call_back : Types.Event → Gateway h → Gateway h
  call_back (connect_confirmation reason) g = record g { phase = x75_connected }
  call_back (connect_indication reason) g = record g { phase = x75_connected }
  call_back (disconnect_confirmation reason) g = record g { phase = x75_disconnected }
  call_back (disconnect_indication reason) g = record g { phase = x75_disconnected }
  call_back (data_indication skb) g =
      if g.telnet
      then record g { telnet_out = g.telnet_out ++ take (wrote (length skb)) skb }
      else g
  call_back (data_transmit skb) g = enqueue_tx skb g

  unfoldable pub call_backs : List Types.Event → Gateway h → Gateway h
  call_backs [] g = g
  call_backs (e ∷ events) g =
      let g' = call_back e g in call_backs events (record g' { log = g'.log ++ (e ∷ []) })

  -- A call of the link, with `events` for the callbacks it makes: none of them calls the link or
  -- changes it, so they are made behind the call.
  unfoldable pub on_link : (X75Cb → Outcome) → Gateway h → Ended (Gateway h)
  on_link f g = elim (f (record (g.x75_instance) { events = [] })) [
    | returns c ↦ ended (call_backs c.events (record g { x75_instance = record c { events = [] } }))
    | exits c ↦ exited
    | copies_null c ↦ null_copied
  ]

  abbrev pub with_decoder : h.Decoder → Gateway h → Ended (Gateway h)
  with_decoder d g = ended (record g { hdlc_rx = d })

  abbrev pub less_samples : List ℕ × Gateway h → Ended (Gateway h)
  less_samples (out, g) = ended g

  module _ ⦃o : Osmo⦄ where
    -- A frame from the line. `garbage` is what the local frame of `x75_data_input` holds before.
    unfoldable pub frame_received : Frame → List ℕ → Ended (Gateway h) → Ended (Gateway h)
    frame_received garbage skb e = and_then (on_link (λ c. (data_received garbage skb c).1)) e

    unfoldable pub received_line : Frame → List ℕ → Gateway h → Ended (Gateway h)
    received_line garbage in_buf g =
        elim (rx_loop h (frame_received garbage) hdlc_rx_size (8 * length in_buf + 8) in_buf
          g.hdlc_rx (ended g)) [ finished (d, e) ↦ and_then (with_decoder d) e | running ↦ endless ]

    unfoldable pub sent_line : ℕ → Gateway h → Ended (List ℕ × Gateway h)
    sent_line num_samples g =
        elim (tx_loop h num_samples num_samples
          (record { out = []; taken = []; tx = g.tx; encoder = g.hdlc_tx })) [
            | finished r ↦
                ended
                  (r.out, record g { tx = r.tx; hdlc_tx = r.encoder; taken = g.taken ++ r.taken })
            | running ↦ endless
          ]

    unfoldable pub handle_sample_buffer : Frame → List ℕ → Gateway h → Ended (List ℕ × Gateway h)
    handle_sample_buffer garbage in_buf g =
        and_then (sent_line (length in_buf)) (received_line garbage in_buf g)

    -- What `read` gives, no octets where it fails or the connection is closed.
    unfoldable pub telnet_read : List ℕ → Gateway h → Ended (Gateway h)
    telnet_read [] g = ended (record g { phase = tcp_disconnected })
    telnet_read (o ∷ os) g = on_link (λ c. (data_request (take read_block_size (o ∷ os)) c).1) g

    unfoldable pub telnet_rx_cb : List ℕ → Gateway h → Ended (Gateway h)
    telnet_rx_cb octets g =
        if not (x75_can_write g.x75_instance) then ended g else telnet_read octets g

    -- `call_initialize`, by what `telnet_init` gives.
    unfoldable pub call_initialize : Bool → Gateway h → Ended (Gateway h)
    call_initialize connected g =
        if connected then ended (record g { telnet = true; phase = tcp_connected }) else exited

    unfoldable pub disconnect_close_cb : Gateway h → Ended (Gateway h)
    disconnect_close_cb g =
        on_link (λ c. returns ((disconnect_request c).1))
          (record g { disconnect_close_timer = false })

    unfoldable pub force_exit_cb : Gateway h → Ended (Gateway h)
    force_exit_cb g = exited

    abbrev pub is_x75_connected : Phase → Bool
    is_x75_connected x75_connected = true
    is_x75_connected _ = false

    abbrev pub is_tcp_disconnected : Phase → Bool
    is_tcp_disconnected tcp_disconnected = true
    is_tcp_disconnected _ = false

    -- The loop of `main` behind `osmo_select_main`.
    unfoldable pub main_turn : Gateway h → Gateway h
    main_turn g =
        let g' = record g {
          read_enabled = x75_can_write g.x75_instance && is_x75_connected g.phase;
        } in
        if is_tcp_disconnected g.phase
        then record g' {
          phase = x75_disconnected;
          disconnect_close_timer = true;
          force_exit_timer = true;
          read_enabled = false;
        }
        else g'

    -- The function of the link that a timer calls, when it runs out.
    unfoldable pub timer_expires : Option Expiry → Gateway h → Ended (Gateway h)
    timer_expires cb g = on_link (expires cb) g

    -- What `osmo_select_main` calls, and the rest of a turn of the loop of `main`.
    unfoldable pub step : Input → Gateway h → Ended (Gateway h)
    step (samples garbage in_buf) g = and_then less_samples (handle_sample_buffer garbage in_buf g)
    step (telnet_data octets) g = telnet_rx_cb octets g
    step (execute connected) g = call_initialize connected g
    step (link_timer cb) g = timer_expires cb g
    step close_timer g = disconnect_close_cb g
    step exit_timer g = force_exit_cb g
    step turn g = ended (main_turn g)

    unfoldable pub run : List Input → Gateway h → Ended (Gateway h)
    run [] g = ended g
    run (i ∷ inputs) g = and_then (run inputs) (step i g)
