-- ===== src/Gateway/Ppp/Deliver.antt =====
-- What comes from the line goes to pppd: the first loop of `handle_sample_buffer` in
-- src/yate_hdlc_ppp.c, with `pppd_input_raw_packet` of src/ppp/pppd.c.
use ras.Base.{
  ℕ, ◌≡◌, refl, sym, ap, ◌∙◌, Option, none, some, List, [], ◌∷◌, ◌++◌, append-nil, append_assoc,
  ltb, if◌then◌else◌, length, take, take_all, Bool-cases, inl, inr, arith,
}
use ras.Ppp.{rfc1662_encode}
use ras.Line.{Hdlc, Reads, finished}
use ras.Line.Receive.{Decodes, hand_over_all}
use ras.Gateway.Ppp.{Gateway, Pppd, written, overrun, input_raw_packet, received_line}
use ras.Gateway.Ppp.Carry.{received_line-Decodes}

abbrev pub after : List ℕ → Option (List ℕ) → Option (List ℕ)
after octets none = none
after octets (some more) = some (octets ++ more)

-- The octets that pppd is to be written for the frames: each encoded, in order; nothing if one of them is
-- encoded in more than the 2048 octets of `pppd_tx_buf`.
abbrev pub for_pppd : List (List ℕ) → Option (List ℕ)
for_pppd [] = some []
for_pppd (p ∷ packets) =
    let rest = for_pppd packets in
    if ltb 2048 (length (rfc1662_encode p)) then none else after (rfc1662_encode p) rest

abbrev pub with_octets : List ℕ → Option (List ℕ) → Pppd
with_octets sent none = overrun
with_octets sent (some octets) = written (sent ++ octets)

module _ (wrote : ℕ → ℕ) (all : (n : ℕ) → wrote n ≡ n) where
  handed_nothing :
      (packets : List (List ℕ)) → hand_over_all (input_raw_packet wrote) packets overrun ≡ overrun
  unfolding input_raw_packet
  handed_nothing [] = refl
  handed_nothing (p ∷ packets) = handed_nothing packets

  behind :
      (sent more : List ℕ) (rest : Option (List ℕ))
      → with_octets (sent ++ more) rest ≡ with_octets sent (after more rest)
  behind sent more none = refl
  behind sent more (some octets) = ap written (append_assoc sent more octets)

  handed_all :
      (packets : List (List ℕ)) (sent : List ℕ)
      → hand_over_all (input_raw_packet wrote) packets (written sent)
        ≡ with_octets sent (for_pppd packets)
  unfolding input_raw_packet
  handed_all [] sent = ap written (sym (append-nil sent))
  handed_all (p ∷ packets) sent =
      let out = rfc1662_encode p in
      elim (Bool-cases (ltb 2048 (length out))) [
        | inl long ↦ rw long (handed_nothing packets)
        | inr fits ↦
            let whole : take (wrote (length out)) out ≡ out =
              take_all (wrote (length out)) out (omega (arith, all (length out))) in
            rw (fits, whole) (handed_all packets (sent ++ out) ∙ behind sent out (for_pppd packets))
      ]

-- Let the decoder get on as it is documented, and let `write` take all that it is given. Then the first
-- loop ends, and the samples are decoded to the last. If each of the frames decoded from them is encoded in
-- at most 2048 octets, pppd has been written all of them, each encoded, in order, behind what it
-- had before; and else `pppd_tx_buf` was overrun.
pub received_line-written :
    (h : Hdlc) (wrote : ℕ → ℕ) (in_buf : List ℕ) (g : Gateway h) (sent : List ℕ)
    → ((n : ℕ) → wrote n ≡ n)
    → Reads h
    → g.pppd ≡ written sent
    → (packets : List (List ℕ)) × (last : h.Decoder) × (received_line h wrote in_buf g
        ≡ finished (record g { hdlc_rx = last; pppd = with_octets sent (for_pppd packets) }))
      × Decodes h 4091 g.hdlc_rx in_buf packets last
received_line-written h wrote in_buf g sent all reads before =
    let (packets, last, ends, calls) = received_line-Decodes h wrote reads in_buf g in
    (
      packets,
      last,
      ends
          ∙ ap (λ p. finished (record g { hdlc_rx = last; pppd = p }))
              (ap (hand_over_all (input_raw_packet wrote) packets) before
                ∙ handed_all wrote all packets sent),
      calls,
    )
