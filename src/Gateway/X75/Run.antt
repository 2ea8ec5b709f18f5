-- ===== src/Gateway/X75/Run.antt =====
-- The handlers of src/yate_x75.c, and any sequence of their calls.
use ras.Base.{
  ℕ, ◌+◌, ◌*◌, ◌≡◌, refl, sym, subst, ap, ◌∙◌, Bool, true, false, not, ◌&&◌, if◌then◌else◌, List,
  [], ◌∷◌, ◌++◌, append_assoc, length, take, arith,
}
use ras.Osmo.{Osmo}
use ras.X75.Types.{Frame}
use ras.X75.Kick.{returns}
use ras.X75.Iface.{data_request, data_received, disconnect_request}
use ras.X75.Expiry.{expires}
use ras.Line.{Hdlc, Reads, Fills, Loop, finished, running, TxRun}
use ras.Line.Transmit.{tx_loop-waiting}
use ras.Line.Packets.{waiting}
use ras.Line.Receive.{hand_over_all, rx_loop-Decodes}
use ras.Gateway.X75.{
  Gateway, Ended, ended, endless, exited, null_copied, and_then, Input, samples, telnet_data,
  execute, link_timer, close_timer, exit_timer, turn, x75_disconnected, x75_can_write,
  is_x75_connected, with_decoder, less_samples, frame_received, received_line, sent_line,
  handle_sample_buffer, telnet_read, telnet_rx_cb, call_initialize, disconnect_close_cb,
  force_exit_cb, main_turn, timer_expires, step, run, hdlc_rx_size, is_tcp_disconnected,
  read_block_size,
}
use ras.Gateway.X75.Carry.{Faithful, EndsFaithful, on_link-EndsFaithful, and_then-EndsFaithful}

module _ (h : Hdlc) (wrote : ℕ → ℕ) (all : (n : ℕ) → wrote n ≡ n) ⦃o : Osmo⦄ where
  frame_received-EndsFaithful :
      (garbage : Frame) (skb : List ℕ) (e : Ended (Gateway h))
      → EndsFaithful h e
      → EndsFaithful h (frame_received h wrote garbage skb e)
  unfolding frame_received
  frame_received-EndsFaithful garbage skb e k =
      and_then-EndsFaithful h wrote all _ e
        (λ g l. on_link-EndsFaithful h wrote all (λ c. (data_received garbage skb c).1) g l) k

  frames_received-EndsFaithful :
      (garbage : Frame) (packets : List (List ℕ)) (e : Ended (Gateway h))
      → EndsFaithful h e
      → EndsFaithful h (hand_over_all (frame_received h wrote garbage) packets e)
  frames_received-EndsFaithful garbage [] e k = k
  frames_received-EndsFaithful garbage (p ∷ packets) e k =
      frames_received-EndsFaithful garbage packets (frame_received h wrote garbage p e)
        (frame_received-EndsFaithful garbage p e k)

  decoder-EndsFaithful :
      (d : h.Decoder) (e : Ended (Gateway h))
      → EndsFaithful h e
      → EndsFaithful h (and_then (with_decoder h wrote d) e)
  decoder-EndsFaithful d e k =
      and_then-EndsFaithful h wrote all (with_decoder h wrote d) e
        (λ g f. record {
          sends = f.sends;
          passes = f.passes;
          open_telnet = f.open_telnet;
          sound = f.sound;
        })
        k

  telnet_read-EndsFaithful :
      (octets : List ℕ) (g : Gateway h)
      → Faithful h g
      → EndsFaithful h (telnet_read h wrote octets g)
  unfolding telnet_read
  telnet_read-EndsFaithful [] g f = record {
    sends = f.sends;
    passes = f.passes;
    open_telnet = f.open_telnet;
    sound = f.sound;
  }
  telnet_read-EndsFaithful (c ∷ cs) g f =
      on_link-EndsFaithful h wrote all (λ l. (data_request (take read_block_size (c ∷ cs)) l).1) g f

  telnet_rx_cb-EndsFaithful :
      (octets : List ℕ) (g : Gateway h)
      → Faithful h g
      → EndsFaithful h (telnet_rx_cb h wrote octets g)
  unfolding telnet_rx_cb
  telnet_rx_cb-EndsFaithful octets g f = by_test (not (x75_can_write g.x75_instance))
    where
      by_test : (b : Bool) → EndsFaithful h (if b then ended g else telnet_read h wrote octets g)
      by_test true = f
      by_test false = telnet_read-EndsFaithful octets g f

  call_initialize-EndsFaithful :
      (connected : Bool) (g : Gateway h)
      → Faithful h g
      → EndsFaithful h (call_initialize h wrote connected g)
  unfolding call_initialize
  call_initialize-EndsFaithful true g f = record {
    sends = f.sends;
    passes = f.passes;
    open_telnet = refl;
    sound = f.sound;
  }
  call_initialize-EndsFaithful false g f = tt

  main_turn-Faithful : (g : Gateway h) → Faithful h g → Faithful h (main_turn h wrote g)
  unfolding main_turn
  main_turn-Faithful g f = by_test (is_tcp_disconnected h wrote g.phase)
    where
      by_test :
          (b : Bool)
          → let g' = record g {
            read_enabled = x75_can_write g.x75_instance && is_x75_connected h wrote g.phase;
          } in
            Faithful h (
              if b
              then record g' {
                phase = x75_disconnected;
                disconnect_close_timer = true;
                force_exit_timer = true;
                read_enabled = false;
              }
              else g')
      by_test true = record {
        sends = f.sends;
        passes = f.passes;
        open_telnet = f.open_telnet;
        sound = f.sound;
      }
      by_test false = record {
        sends = f.sends;
        passes = f.passes;
        open_telnet = f.open_telnet;
        sound = f.sound;
      }

  module _ (reads : Reads h) (fills : Fills h) where
    received_line-EndsFaithful :
        (garbage : Frame) (in_buf : List ℕ) (g : Gateway h)
        → Faithful h g
        → EndsFaithful h (received_line h wrote garbage in_buf g)
    unfolding received_line
    received_line-EndsFaithful garbage in_buf g f =
        let (packets, last, ends, calls) =
          rx_loop-Decodes h reads (frame_received h wrote garbage) hdlc_rx_size
            (8 * length in_buf + 8) in_buf g.hdlc_rx (ended g)
            (omega (arith, reads.few g.hdlc_rx)) in
        subst (EndsFaithful h) (sym (ap after_loop ends))
          (decoder-EndsFaithful last _ (frames_received-EndsFaithful garbage packets (ended g) f))
      where
        after_loop : Loop (h.Decoder × Ended (Gateway h)) → Ended (Gateway h)
        after_loop l = elim l [
          | finished (d, e) ↦ and_then (with_decoder h wrote d) e
          | running ↦ endless
        ]

    sent_line-EndsFaithful :
        (num_samples : ℕ) (g : Gateway h)
        → Faithful h g
        → EndsFaithful h (and_then (less_samples h wrote) (sent_line h wrote num_samples g))
    unfolding sent_line
    sent_line-EndsFaithful num_samples g f =
        let (r, ends, full, same, sound) =
          tx_loop-waiting h fills num_samples g.tx g.hdlc_tx f.sound in
        subst (EndsFaithful h) (sym (ap after_loop ends)) (record {
          sends =
              append_assoc g.taken r.taken (waiting r.tx) ∙ (ap (λ t. g.taken ++ t) same ∙ f.sends);
          passes = f.passes;
          open_telnet = f.open_telnet;
          sound = sound;
        })
      where
        after_loop : Loop (TxRun h.Encoder) → Ended (Gateway h)
        after_loop l = and_then (less_samples h wrote) (elim l [
          | finished r ↦
              ended (r.out, record g { tx = r.tx; hdlc_tx = r.encoder; taken = g.taken ++ r.taken })
          | running ↦ endless
        ])

    sample_buffer-EndsFaithful :
        (garbage : Frame) (in_buf : List ℕ) (g : Gateway h)
        → Faithful h g
        → EndsFaithful h
            (and_then (less_samples h wrote) (handle_sample_buffer h wrote garbage in_buf g))
    unfolding handle_sample_buffer
    sample_buffer-EndsFaithful garbage in_buf g f =
        both (received_line h wrote garbage in_buf g)
          (received_line-EndsFaithful garbage in_buf g f)
      where
        both :
            (e : Ended (Gateway h))
            → EndsFaithful h e
            → EndsFaithful h
                (and_then (less_samples h wrote) (and_then (sent_line h wrote (length in_buf)) e))
        both (ended g') k = sent_line-EndsFaithful (length in_buf) g' k
        both endless k = k
        both exited k = k
        both null_copied k = k

    step-EndsFaithful :
        (i : Input) (g : Gateway h) → Faithful h g → EndsFaithful h (step h wrote i g)
    unfolding step timer_expires disconnect_close_cb force_exit_cb
    step-EndsFaithful (samples garbage in_buf) g f = sample_buffer-EndsFaithful garbage in_buf g f
    step-EndsFaithful (telnet_data octets) g f = telnet_rx_cb-EndsFaithful octets g f
    step-EndsFaithful (execute connected) g f = call_initialize-EndsFaithful connected g f
    step-EndsFaithful (link_timer cb) g f = on_link-EndsFaithful h wrote all (expires cb) g f
    step-EndsFaithful close_timer g f =
        on_link-EndsFaithful h wrote all (λ c. returns ((disconnect_request c).1))
          (record g { disconnect_close_timer = false })
          (record {
            sends = f.sends;
            passes = f.passes;
            open_telnet = f.open_telnet;
            sound = f.sound;
          })
    step-EndsFaithful exit_timer g f = tt
    step-EndsFaithful turn g f = main_turn-Faithful g f

    -- Let `write` to the TCP server take all that it is given, as the program does not look at what it
    -- returns. Whatever comes, in any order, on a link in any state: from a program that is connected to the
    -- server and has lost no octet so far, no call goes on for ever with the library's HDLC codec as it
    -- is documented, and as long as the program runs, the octets that the encoder has taken for the line,
    -- followed by those that wait, are those of the frames that the link sent, in order, and the octets
    -- written to the server are those of the payloads that the link received, in order.
    pub run-EndsFaithful :
        (inputs : List Input) (g : Gateway h) → Faithful h g → EndsFaithful h (run h wrote inputs g)
    unfolding run
    run-EndsFaithful [] g f = f
    run-EndsFaithful (i ∷ inputs) g f =
        and_then-EndsFaithful h wrote all (run h wrote inputs) (step h wrote i g)
          (λ g' f'. run-EndsFaithful inputs g' f') (step-EndsFaithful i g f)
