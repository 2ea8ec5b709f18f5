-- ===== src/Gateway/Examples.antt =====
-- The programs with a codec that keeps to its documentation.
use ras.Base.{ℕ, ◌≡◌, refl, inl, false, true, List, [], ◌∷◌, arith}
use ras.Osmo.Concrete.{lists, lists-Documented, lists-HasMemory}
use ras.Ppp.{
  between_packets, ppp_fcs, fcs_loop, rfc1662_checksum, encode_octet, encode_octets, rfc1662_encode,
}
use ras.Ppp.Transfer.{encoded}
use ras.X75.Types.{no_condition}
use ras.X75.Iface.{data_request, data_dispatch}
use ras.X75.Kick.{kick}
use ras.X75.Queues.{enqueue_write}
use ras.X75.Examples.{busy_link, busy_link-Wf, no_frame, rr_0}
use ras.Line.{Tx, finished}
use ras.Line.Receive.{Decodes}
use ras.Line.Concrete.{octetwise, octetwise-Reads, octetwise-Fills}
use ras.Gateway.Ppp.{Gateway, from_pppd, from_line, written, run, received_line}
use ras.Gateway.Ppp.Carry.{for_line, run-packets}
use ras.Gateway.Ppp.Deliver.{for_pppd, with_octets, received_line-written}
use ras.Gateway.X75
use ras.Gateway.X75.Carry.{EndsFaithful}
use ras.Gateway.X75.Run.{run-EndsFaithful}
use ras.Gateway.X75.Flow.{Bounded, telnet_rx_cb-Bounded}

abbrev no_packet : Tx
no_packet = record { isdn_hdlc_tx_queue = []; tx_buf = []; tx_pos = 0; tx_len = 0 }

abbrev started : Gateway octetwise
started = record {
  rfc1662 = between_packets;
  hdlc_rx = tt;
  hdlc_tx = tt;
  tx = no_packet;
  pppd = written [];
  taken = [];
}

-- Two packets in three reads, with samples between them.
run-packets_example :
    (g : Gateway octetwise) × (run octetwise
        (λ n. n)
        (from_pppd (126 ∷ 65 ∷ 125 ∷ [])
          ∷ from_line (1 ∷ 2 ∷ 3 ∷ [])
          ∷ from_pppd (94 ∷ 125 ∷ 32 ∷ 202 ∷ 126 ∷ 126 ∷ [])
          ∷ from_line (4 ∷ [])
          ∷ from_pppd (65 ∷ 245 ∷ 163 ∷ 126 ∷ [])
          ∷ [])
        started
      ≡ finished g)
    × (for_line octetwise (λ n. n) g ≡ 0x41 ∷ 0x7e ∷ 0x41 ∷ [])
    × (g.rfc1662 ≡ between_packets)
unfolding encoded rfc1662_encode encode_octets encode_octet rfc1662_checksum fcs_loop ppp_fcs
run-packets_example =
    run-packets octetwise (λ n. n) octetwise-Reads octetwise-Fills
      (from_pppd (126 ∷ 65 ∷ 125 ∷ [])
        ∷ from_line (1 ∷ 2 ∷ 3 ∷ [])
        ∷ from_pppd (94 ∷ 125 ∷ 32 ∷ 202 ∷ 126 ∷ 126 ∷ [])
        ∷ from_line (4 ∷ [])
        ∷ from_pppd (65 ∷ 245 ∷ 163 ∷ 126 ∷ [])
        ∷ [])
      ((0x41 ∷ 0x7e ∷ []) ∷ (0x41 ∷ []) ∷ []) started (inl refl) refl refl refl
      (((omega arith, (omega arith, tt)), omega arith), (((omega arith, tt), omega arith), tt))
      (omega arith, (omega arith, (omega arith, tt))) refl

received_line-written_example :
    (packets : List (List ℕ)) × (last : Unit {0}) × (received_line octetwise
        (λ n. n)
        (0x41 ∷ 0x42 ∷ [])
        started
      ≡ finished (record started { hdlc_rx = last; pppd = with_octets [] (for_pppd packets) }))
    × Decodes octetwise 4091 tt (0x41 ∷ 0x42 ∷ []) packets last
received_line-written_example =
    received_line-written octetwise (λ n. n) (0x41 ∷ 0x42 ∷ []) started [] (λ n. refl)
      octetwise-Reads refl

abbrev connected : X75.Gateway octetwise
connected = record {
  x75_instance = busy_link;
  phase = X75.x75_connected;
  hdlc_rx = tt;
  hdlc_tx = tt;
  tx = no_packet;
  telnet = true;
  telnet_out = [];
  read_enabled = false;
  disconnect_close_timer = false;
  force_exit_timer = false;
  taken = [];
  log = [];
}

abbrev inputs : List X75.Input
inputs = X75.samples no_frame rr_0 ∷ X75.telnet_data (6 ∷ []) ∷ X75.turn ∷ []

run-EndsFaithful_example : EndsFaithful octetwise (X75.run octetwise (λ n. n) inputs connected)
run-EndsFaithful_example =
    run-EndsFaithful octetwise (λ n. n) (λ n. refl) octetwise-Reads octetwise-Fills inputs connected
      (record { sends = refl; passes = refl; open_telnet = refl; sound = inl refl })

telnet_rx_cb-Bounded_example :
    (g : X75.Gateway octetwise) × (X75.telnet_rx_cb octetwise (λ n. n) (6 ∷ 7 ∷ []) connected
      ≡ X75.ended g)
    × Bounded octetwise (λ n. n) lists-Documented lists-HasMemory g
telnet_rx_cb-Bounded_example =
    telnet_rx_cb-Bounded octetwise (λ n. n) lists-Documented lists-HasMemory (6 ∷ 7 ∷ []) connected
      (busy_link-Wf, omega arith)

-- With eight frames to be sent and a peer that is busy another is read, and nine wait.
abbrev eight_wait : X75.Gateway octetwise
eight_wait = record connected {
  x75_instance = record busy_link {
    write_queue_count = 8;
    condition = record no_condition { peer_rx_busy = true };
  };
}

abbrev waiting_frames : X75.Ended (X75.Gateway octetwise) → ℕ
waiting_frames (X75.ended g) = g.x75_instance.write_queue_count
waiting_frames _ = 0

nine_wait : waiting_frames (X75.telnet_rx_cb octetwise (λ n. n) (6 ∷ []) eight_wait) ≡ 9
unfolding X75.telnet_rx_cb X75.telnet_read X75.x75_can_write X75.on_link X75.call_backs data_request
    data_dispatch kick enqueue_write
nine_wait = refl
