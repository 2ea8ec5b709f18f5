-- ===== src/Gateway/Ppp.antt =====
-- The program of src/yate_hdlc_ppp.c, between the ISDN line and pppd, less the start, the watch over the
-- process and what is sent to the packet capture.
pub mod Carry
pub mod Deliver
use ras.Base.{
  ℕ, ◌+◌, ◌-◌, ◌*◌, Bool, true, false, List, [], ◌∷◌, ◌++◌, ltb, if◌then◌else◌, length, take,
}
use ras.Ppp.{Rfc1662, between_packets, max_mtu, rfc1662_encode, Input, done, stuck, input_loop}
use ras.Line.{Hdlc, Loop, finished, running, Tx, TxRun, rx_loop, tx_loop}

-- `sizeof(hdlc_rx_buf) - 5`
abbrev pub hdlc_rx_size : ℕ
hdlc_rx_size = max_mtu * 2 - 5

-- What pppd has been written, or that `pppd_tx_buf` was overrun.
pub data Pppd : Type 0 where
  written : List ℕ → Pppd
  overrun : Pppd

-- The state of the program: `ppp_rfc1662_state`, `hdlc_rx`, `hdlc_tx`, the packet on its way and the queue,
-- what pppd was written, and what the encoder has taken.
pub record Gateway (h : Hdlc) : Type 0 where
  pub rfc1662 : Rfc1662
  pub hdlc_rx : h.Decoder
  pub hdlc_tx : h.Encoder
  pub tx : Tx
  pub pppd : Pppd
  pub taken : List ℕ

-- `pppd_input_raw_packet`. `wrote` is what `write` returns for so many octets.
unfoldable pub input_raw_packet : (ℕ → ℕ) → List ℕ → Pppd → Pppd
input_raw_packet wrote buf overrun = overrun
input_raw_packet wrote buf (written sent) =
    let hdlc_out = rfc1662_encode buf in
    if ltb max_mtu (length hdlc_out)
    then overrun
    else written (sent ++ take (wrote (length hdlc_out)) hdlc_out)

-- What happens: a read of `pppd_input_cb`, or samples from the exchange.
pub data Arrival : Type 0 where
  from_pppd : List ℕ → Arrival
  from_line : List ℕ → Arrival

module _ (h : Hdlc) (wrote : ℕ → ℕ) where
  -- `pppd_input_cb` with `handle_incoming_ppp_packet`, which appends the packet to the queue.
  unfoldable pub pppd_input : List ℕ → Gateway h → Loop (Gateway h)
  pppd_input read g = elim (input_loop (length read + 1) read g.tx.isdn_hdlc_tx_queue g.rfc1662) [
    | done queue s ↦
        finished (record g { tx = record g.tx { isdn_hdlc_tx_queue = queue }; rfc1662 = s })
    | stuck queue s ↦ running
  ]

  -- The two loops of `handle_sample_buffer`.
  unfoldable pub received_line : List ℕ → Gateway h → Loop (Gateway h)
  received_line in_buf g =
      elim (rx_loop h (input_raw_packet wrote) hdlc_rx_size (8 * length in_buf + 8) in_buf g.hdlc_rx
        g.pppd) [
          | finished (d, pppd) ↦ finished (record g { hdlc_rx = d; pppd = pppd })
          | running ↦ running
        ]

  unfoldable pub sent_line : ℕ → Gateway h → Loop (List ℕ × Gateway h)
  sent_line num_samples g =
      elim (tx_loop h num_samples num_samples
        (record { out = []; taken = []; tx = g.tx; encoder = g.hdlc_tx })) [
          | finished r ↦
              finished
                (r.out, record g { tx = r.tx; hdlc_tx = r.encoder; taken = g.taken ++ r.taken })
          | running ↦ running
        ]

  -- `handle_sample_buffer`: the samples for the line, and the state.
  unfoldable pub handle_sample_buffer : List ℕ → Gateway h → Loop (List ℕ × Gateway h)
  handle_sample_buffer in_buf g = elim (received_line in_buf g) [
    | finished g' ↦ sent_line (length in_buf) g'
    | running ↦ running
  ]

  abbrev pub without_samples : Loop (List ℕ × Gateway h) → Loop (Gateway h)
  without_samples (finished (out, g)) = finished g
  without_samples running = running

  unfoldable pub step : Arrival → Gateway h → Loop (Gateway h)
  step (from_pppd read) g = pppd_input read g
  step (from_line in_buf) g = without_samples (handle_sample_buffer in_buf g)

  unfoldable pub run : List Arrival → Gateway h → Loop (Gateway h)
  run [] g = finished g
  run (e ∷ events) g = elim (step e g) [ finished g' ↦ run events g' | running ↦ running ]
