-- ===== src/Gateway/Ppp/Carry.antt =====
-- What pppd sends goes to the line: the program of src/yate_hdlc_ppp.c with src/ppp/pppd.c, over any
-- sequence of reads and samples.
use ras.Base.{
  ℕ, ◌+◌, ◌*◌, ◌≤◌, ◌≡◌, refl, sym, ap, ap₂, ◌∙◌, List, [], ◌∷◌, ◌++◌, append-nil, append_assoc,
  some, length, arith,
}
use mathlib.Core.Option.{some-injective}
use ras.Ppp.{Rfc1662, between_packets, frame, queue_packet, Input, done, stuck}
use ras.Ppp.Stream.{stream}
use ras.Ppp.Read.{input_loop-stream}
use ras.Ppp.Transfer.{
  encoded, Fitting, TwoOrMore, joined, queue_packets, stream-split, stream-encoded,
}
use ras.Line.{Hdlc, Reads, Fills, Loop, finished, running, TxRun, rest_of_packet}
use ras.Line.Transmit.{tx_loop-waiting}
use ras.Line.Packets.{concat, waiting, Sound}
use ras.Line.Receive.{Decodes, hand_over_all, rx_loop-Decodes}
use ras.Gateway.Ppp.{
  Gateway, Pppd, Arrival, from_pppd, from_line, pppd_input, received_line, sent_line,
  handle_sample_buffer, step, run, hdlc_rx_size, input_raw_packet, without_samples,
}
use ras.Ppp.Apart.{stream-behind, stream-apart}

concat-append : (xs ys : List (List ℕ)) → concat (xs ++ ys) ≡ concat xs ++ concat ys
concat-append [] ys = refl
concat-append (x ∷ xs) ys =
    ap (λ t. x ++ t) (concat-append xs ys) ∙ sym (append_assoc x (concat xs) (concat ys))

abbrev pub reads_of : List Arrival → List (List ℕ)
reads_of [] = []
reads_of (from_pppd read ∷ events) = read ∷ reads_of events
reads_of (from_line in_buf ∷ events) = reads_of events

module _ (h : Hdlc) (wrote : ℕ → ℕ) where
  -- All octets for the line so far: those that the encoder has taken, and those that wait.
  abbrev pub for_line : Gateway h → List ℕ
  for_line g = g.taken ++ waiting g.tx

  pppd_input-carries :
      (read : List ℕ) (new : List (List ℕ)) (s' : Rfc1662) (g : Gateway h)
      → Sound g.tx
      → 2 ≤ length read
      → stream read [] g.rfc1662 ≡ some (new, s')
      → (g' : Gateway h) × (pppd_input h wrote read g ≡ finished g')
        × (for_line g' ≡ for_line g ++ concat new)
        × (g'.rfc1662 ≡ s')
        × Sound g'.tx
  unfolding pppd_input
  pppd_input-carries read new s' g sound two k =
      let queue = g.tx.isdn_hdlc_tx_queue in
      let behind : stream read queue g.rfc1662 ≡ some (queue ++ new, s') =
        ap (λ q. stream read q g.rfc1662) (sym (append-nil queue))
        ∙ stream-behind read queue [] new g.rfc1662 s' k in
      let ends =
        input_loop-stream (length read + 1) read queue g.rfc1662 (queue ++ new, s') two
          (omega arith) behind in
      (
        record g { tx = record g.tx { isdn_hdlc_tx_queue = queue ++ new }; rfc1662 = s' },
        ap after_loop ends,
        ap (λ t. g.taken ++ t)
              (ap (λ t. rest_of_packet g.tx ++ t) (concat-append queue new)
                ∙ sym (append_assoc (rest_of_packet g.tx) (concat queue) (concat new)))
            ∙ sym (append_assoc g.taken (waiting g.tx) (concat new)),
        refl,
        sound,
      )
    where
      after_loop : Input → Loop (Gateway h)
      after_loop r = elim r [
        | done queue s ↦
            finished (record g { tx = record g.tx { isdn_hdlc_tx_queue = queue }; rfc1662 = s })
        | stuck queue s ↦ running
      ]

  module _ (reads : Reads h) where
    -- The first loop ends, and pppd was handed the frames decoded from the samples.
    pub received_line-Decodes :
        (in_buf : List ℕ) (g : Gateway h)
        → (packets : List (List ℕ)) × (last : h.Decoder) × (received_line h wrote in_buf g
            ≡ finished (record g {
              hdlc_rx = last;
              pppd = hand_over_all (input_raw_packet wrote) packets g.pppd;
            }))
          × Decodes h hdlc_rx_size g.hdlc_rx in_buf packets last
    unfolding received_line
    received_line-Decodes in_buf g =
        let (packets, last, ends, calls) =
          rx_loop-Decodes h reads (input_raw_packet wrote) hdlc_rx_size (8 * length in_buf + 8)
            in_buf g.hdlc_rx g.pppd (omega (arith, reads.few g.hdlc_rx)) in
        (packets, last, ap after_loop ends, calls)
      where
        after_loop : Loop (h.Decoder × Pppd) → Loop (Gateway h)
        after_loop r = elim r [
          | finished (d, pppd) ↦ finished (record g { hdlc_rx = d; pppd = pppd })
          | running ↦ running
        ]

  module _ (reads : Reads h) (fills : Fills h) where
    sent_line-carries :
        (num_samples : ℕ) (g : Gateway h)
        → Sound g.tx
        → (out : List ℕ) × (g' : Gateway h) × (sent_line h wrote num_samples g ≡ finished (out, g'))
          × (length out ≡ num_samples)
          × (for_line g' ≡ for_line g)
          × (g'.rfc1662 ≡ g.rfc1662)
          × Sound g'.tx
    unfolding sent_line
    sent_line-carries num_samples g sound =
        let (r, ends, full, same, sound') =
          tx_loop-waiting h fills num_samples g.tx g.hdlc_tx sound in
        (
          r.out,
          record g { tx = r.tx; hdlc_tx = r.encoder; taken = g.taken ++ r.taken },
          ap after_loop ends,
          full,
          append_assoc g.taken r.taken (waiting r.tx) ∙ ap (λ t. g.taken ++ t) same,
          refl,
          sound',
        )
      where
        after_loop : Loop (TxRun h.Encoder) → Loop (List ℕ × Gateway h)
        after_loop l = elim l [
          | finished r ↦
              finished
                (r.out, record g { tx = r.tx; hdlc_tx = r.encoder; taken = g.taken ++ r.taken })
          | running ↦ running
        ]

    -- A block of samples: what goes back is as long, and no octet for the line is lost.
    handle_sample_buffer-carries :
        (in_buf : List ℕ) (g : Gateway h)
        → Sound g.tx
        → (out : List ℕ) × (g' : Gateway h) × (handle_sample_buffer h wrote in_buf g
            ≡ finished (out, g'))
          × (length out ≡ length in_buf)
          × (for_line g' ≡ for_line g)
          × (g'.rfc1662 ≡ g.rfc1662)
          × Sound g'.tx
    unfolding handle_sample_buffer
    handle_sample_buffer-carries in_buf g sound =
        let (packets, last, ends, calls) = received_line-Decodes reads in_buf g in
        let mid = record g {
          hdlc_rx = last;
          pppd = hand_over_all (input_raw_packet wrote) packets g.pppd;
        } in
        let (out, g', ends', full, same, state, sound') =
          sent_line-carries (length in_buf) mid sound in
        (out, g', ap then_send ends ∙ ends', full, same, state, sound')
      where
        then_send : Loop (Gateway h) → Loop (List ℕ × Gateway h)
        then_send l = elim l [
          | finished g' ↦ sent_line h wrote (length in_buf) g'
          | running ↦ running
        ]

    abbrev go_on_with : List Arrival → Loop (Gateway h) → Loop (Gateway h)
    go_on_with events l = elim l [ finished g' ↦ run h wrote events g' | running ↦ running ]

    run-carries :
        (events : List Arrival) (new : List (List ℕ)) (s' : Rfc1662) (g : Gateway h)
        → Sound g.tx
        → TwoOrMore (reads_of events)
        → stream (joined (reads_of events)) [] g.rfc1662 ≡ some (new, s')
        → (g' : Gateway h) × (run h wrote events g ≡ finished g')
          × (for_line g' ≡ for_line g ++ concat new)
          × (g'.rfc1662 ≡ s')
    unfolding run step stream
    run-carries [] new s' g sound two k =
        let e = some-injective _ _ k in
        (
          g,
          refl,
          sym (append-nil (for_line g)) ∙ ap (λ t. for_line g ++ concat t.0) e,
          ap (λ t. t.1) e,
        )
    run-carries (from_pppd read ∷ events) new s' g sound two k =
        let (mid, first, rest) =
          stream-split read (joined (reads_of events)) [] g.rfc1662 (new, s') k in
        let (tail, apart, all) = stream-apart (joined (reads_of events)) mid.0 new mid.1 s' rest in
        let (g', ends, more, state, sound') =
          pppd_input-carries read mid.0 mid.1 g sound two.0 first in
        let (g'', ends', more', state') =
          run-carries events tail s' g' sound' two.1
            (ap (stream (joined (reads_of events)) []) state ∙ apart) in
        (
          g'',
          ap (go_on_with events) ends ∙ ends',
          more'
              ∙ (ap (λ t. t ++ concat tail) more
                  ∙ (append_assoc (for_line g) (concat mid.0) (concat tail)
                      ∙ ap (λ t. for_line g ++ t)
                          (sym (concat-append mid.0 tail) ∙ ap concat (sym all)))),
          state',
        )
    run-carries (from_line in_buf ∷ events) new s' g sound two k =
        let (out, g', ends, full, same, state, sound') =
          handle_sample_buffer-carries in_buf g sound in
        let (g'', ends', more, state') =
          run-carries events new s' g' sound' two
            (ap (stream (joined (reads_of events)) []) state ∙ k) in
        (
          g'',
          ap (λ l. go_on_with events (without_samples h wrote l)) ends ∙ ends',
          more ∙ ap (λ t. t ++ concat new) same,
          state',
        )

    concat-queue_packets :
        (packets queued : List (List ℕ))
        → concat (queue_packets packets queued) ≡ concat queued ++ concat packets
    unfolding queue_packets
    concat-queue_packets [] queued = sym (append-nil (concat queued))
    concat-queue_packets ([] ∷ packets) queued = concat-queue_packets packets queued
    concat-queue_packets ((x ∷ p) ∷ packets) queued =
        let queued_now : queue_packet (frame (x ∷ p)) queued ≡ queued ++ ((x ∷ p) ∷ []) =
          ground arith in
        ap (λ q. concat (queue_packets packets q)) queued_now
        ∙ (concat-queue_packets packets (queued ++ ((x ∷ p) ∷ []))
            ∙ (ap (λ t. t ++ concat packets)
                  (concat-append queued ((x ∷ p) ∷ [])
                    ∙ ap (λ t. concat queued ++ t) (append-nil (x ∷ p)))
                ∙ append_assoc (concat queued) (x ∷ p) (concat packets)))

    -- Let pppd write packets of at most 2046 octets, encoded, and let it come to reads of two octets or
    -- more, with blocks of samples in any order between them. Then, with the library's HDLC codec as it is
    -- documented, every call comes to its end, and the octets that the encoder has taken for the line,
    -- followed by those that still wait, are the octets of the packets, in order: none is lost, doubled
    -- or changed.
    pub run-packets :
        (events : List Arrival) (packets : List (List ℕ)) (g : Gateway h)
        → Sound g.tx
        → waiting g.tx ≡ []
        → g.taken ≡ []
        → g.rfc1662 ≡ between_packets
        → Fitting packets
        → TwoOrMore (reads_of events)
        → joined (reads_of events) ≡ encoded packets
        → (g' : Gateway h) × (run h wrote events g ≡ finished g')
          × (for_line g' ≡ concat packets)
          × (g'.rfc1662 ≡ between_packets)
    run-packets events packets g sound none_waits none_taken state fit two all =
        let (g', ends, more, state') =
          run-carries events (queue_packets packets []) between_packets g sound two
            (ap₂ (λ xs s. stream xs [] s) all state ∙ stream-encoded packets [] fit) in
        (
          g',
          ends,
          more
              ∙ (ap₂ (λ xs ys. xs ++ ys) (ap₂ (λ xs ys. xs ++ ys) none_taken none_waits)
                  (concat-queue_packets packets [])),
          state',
        )
