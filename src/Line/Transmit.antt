-- ===== src/Line/Transmit.antt =====
-- The second loop of `handle_sample_buffer` in src/yate_x75.c and src/yate_hdlc_ppp.c: what becomes
-- of the packets that wait to be sent.
use ras.Base.{
  ℕ, zero, suc, ◌+◌, ◌-◌, ◌≤◌, ◌<◌, ◌≡◌, refl, sym, subst, ap, ◌∙◌, ◌⊎◌, inl, inr, Bool, true,
  false, List, [], ◌∷◌, ◌++◌, append_assoc, ltb, if◌then◌else◌, length, length-append, take,
  Bool-cases, arith,
}
use ras.Line.{
  Hdlc, Fills, octets_sent, Loop, finished, running, Tx, TxRun, next_packet, rest_of_packet,
  move_on, after_encode, tx_round, tx_loop,
}
use ras.Line.Packets.{waiting, Sound, next_packet-waiting, move_on-waiting}

module _ (h : Hdlc) (contract : Fills h) where
  -- A run of the loop: so many octets are written, and those taken with those that wait are the same as
  -- before.
  Run : ℕ → TxRun h.Encoder → TxRun h.Encoder → Type 0
  Run num_samples r r' =
      (length r'.out ≡ num_samples)
      × (r'.taken ++ waiting r'.tx ≡ r.taken ++ waiting r.tx)
      × Sound r'.tx

  -- One round writes at least an octet, and no more than there is room for.
  Round : ℕ → TxRun h.Encoder → TxRun h.Encoder → Type 0
  Round room r r' =
      (length r.out < length r'.out)
      × (length r'.out ≤ length r.out + room)
      × (r'.taken ++ waiting r'.tx ≡ r.taken ++ waiting r.tx)
      × Sound r'.tx

  after_encode_some :
      (t : Tx) (r : TxRun h.Encoder) (out : List ℕ) (count : ℕ) (e : h.Encoder)
      → 0 < length out
      → after_encode h t r (octets_sent out, count, e) ≡ record {
        out = r.out ++ out;
        taken = r.taken ++ take count (rest_of_packet t);
        tx = move_on count t;
        encoder = e;
      }
  unfolding after_encode
  after_encode_some t r [] count e k = absurd (omega arith)
  after_encode_some t r (x ∷ xs) count e k = ground arith

  tx_round-Round :
      (room : ℕ) (r : TxRun h.Encoder)
      → Sound r.tx
      → 0 < room
      → Round room r (tx_round h room (next_packet r.tx) r)
  unfolding tx_round Round
  tx_round-Round room r s more =
      let t = next_packet r.tx in
      let (same, sound) = next_packet-waiting r.tx s in
      let (out, count, e, call, within, some_out, fits) =
        contract.fills r.encoder (rest_of_packet t) room more in
      let (goes_on, sound') = move_on-waiting count t sound within in
      subst (Round room r)
        (sym (ap (after_encode h t r) call ∙ after_encode_some t r out count e some_out))
        (
          omega (arith, length-append r.out out),
          omega (arith, length-append r.out out),
          append_assoc r.taken (take count (rest_of_packet t)) (waiting (move_on count t))
              ∙ ap (λ x. r.taken ++ x) (goes_on ∙ same),
          sound',
        )

  tx_loop-Run :
      (fuel num_samples : ℕ) (r : TxRun h.Encoder)
      → Sound r.tx
      → length r.out ≤ num_samples
      → num_samples ≤ length r.out + fuel
      → (r' : TxRun h.Encoder) × (tx_loop h num_samples fuel r ≡ finished r') × Run num_samples r r'
  unfolding tx_loop Run Round
  tx_loop-Run zero num_samples r s k l =
      let full : ltb (length r.out) num_samples ≡ false = ground arith in
      (r, ap (λ b. if b then running else finished r) full, (omega arith, refl, s))
  tx_loop-Run (suc fuel) num_samples r s k l =
      by_test (Bool-cases (ltb (length r.out) num_samples))
        (λ r' s' k' l'. tx_loop-Run fuel num_samples r' s' k' l')
    where
      next : TxRun h.Encoder
      next = tx_round h (num_samples - length r.out) (next_packet r.tx) r

      turn : Bool → Loop (TxRun h.Encoder)
      turn b = elim b [ true ↦ tx_loop h num_samples fuel next | false ↦ finished r ]

      Runs : Loop (TxRun h.Encoder) → Type 0
      Runs x = (r' : TxRun h.Encoder) × (x ≡ finished r') × Run num_samples r r'

      by_test :
          (ltb (length r.out) num_samples ≡ true) ⊎ (ltb (length r.out) num_samples ≡ false)
          → ((r' : TxRun h.Encoder)
              → Sound r'.tx
              → length r'.out ≤ num_samples
              → num_samples ≤ length r'.out + fuel
              → (r'' : TxRun h.Encoder) × (tx_loop h num_samples fuel r' ≡ finished r'')
                × Run num_samples r' r'')
          → Runs (turn (ltb (length r.out) num_samples))
      by_test (inl e) rec =
          let (longer, fits, same, sound) =
            tx_round-Round (num_samples - length r.out) r s (ground arith) in
          let (r'', ends, (full, same', sound')) = rec next sound (omega arith) (omega arith) in
          subst Runs (sym (ap turn e)) (r'', ends, (full, same' ∙ same, sound'))
      by_test (inr e) rec = subst Runs (sym (ap turn e)) (r, refl, (ground arith, refl, s))

  -- With an encoder that fills the line, the second loop ends within as many rounds as there are samples,
  -- and writes just these. The octets that the encoder has taken, followed by those that wait, are the
  -- octets of the packet that was on its way and of the packets in the queue, in order.
  pub tx_loop-waiting :
      (num_samples : ℕ) (t : Tx) (e : h.Encoder)
      → Sound t
      → (r : TxRun h.Encoder) × (tx_loop h num_samples num_samples
            (record { out = []; taken = []; tx = t; encoder = e })
          ≡ finished r)
        × (length r.out ≡ num_samples)
        × (r.taken ++ waiting r.tx ≡ waiting t)
        × Sound r.tx
  unfolding Run
  tx_loop-waiting num_samples t e s =
      let (r, ends, (full, same, sound)) =
        tx_loop-Run num_samples num_samples (record { out = []; taken = []; tx = t; encoder = e }) s
          (omega arith) (omega arith) in
      (r, ends, full, same, sound)
