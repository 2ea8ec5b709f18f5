-- ===== src/Line/Receive.antt =====
-- The first loop of `handle_sample_buffer` in src/yate_x75.c, src/yate_hdlc_ppp.c and
-- src/file_hdlc_decoder.c: which frames the program is handed.
use ras.Base.{
  ℕ, zero, suc, ◌+◌, ◌*◌, ◌≤◌, ◌≡◌, refl, sym, ap, ◌∙◌, List, [], ◌∷◌, ◌++◌, length, drop, arith,
}
use ras.Line.{
  Decoding, no_frame, framing_error, length_error, crc_error, hdlc_frame, Hdlc, Reads, hand_over,
  finished, rx_loop,
}

-- The frame of a call, if there is one.
abbrev pub frames_of : Decoding → List (List ℕ)
frames_of (hdlc_frame p) = p ∷ []
frames_of _ = []

-- The frames handed over one after the other.
abbrev pub hand_over_all : {S : Type 0} → (List ℕ → S → S) → List (List ℕ) → S → S
hand_over_all received [] s = s
hand_over_all received (p ∷ packets) s = hand_over_all received packets (received p s)

hand_over-frames_of :
    {S : Type 0} (received : List ℕ → S → S) (rv : Decoding) (packets : List (List ℕ)) (s : S)
    → hand_over_all received (frames_of rv ++ packets) s
      ≡ hand_over_all received packets (hand_over received rv s)
hand_over-frames_of received no_frame packets s = refl
hand_over-frames_of received framing_error packets s = refl
hand_over-frames_of received length_error packets s = refl
hand_over-frames_of received crc_error packets s = refl
hand_over-frames_of received (hdlc_frame p) packets s = refl

-- Calls of the decoder on what the call before has left, from the first octet to the last, and the
-- frames they return.
pub data Decodes (h : Hdlc) (size : ℕ)
    : h.Decoder → List ℕ → List (List ℕ) → h.Decoder → Type 0 where
  no_octets : (d : h.Decoder) → Decodes h size d [] [] d
  one_call :
      (d : h.Decoder) (x : ℕ) (xs : List ℕ) (rv : Decoding) (count : ℕ) (d' : h.Decoder)
      (packets : List (List ℕ)) (last : h.Decoder)
      → h.isdnhdlc_decode d (x ∷ xs) size ≡ (rv, count, d')
      → Decodes h size d' (drop count (x ∷ xs)) packets last
      → Decodes h size d (x ∷ xs) (frames_of rv ++ packets) last

module _ (h : Hdlc) (contract : Reads h) {S : Type 0} (received : List ℕ → S → S) (size : ℕ) where
  -- With a decoder that always gets on, the first loop ends within as many rounds as there are bits to
  -- read, those that the decoder holds back among them. Every octet has then been decoded, and each
  -- frame was handed over once, in order; calls that return an error hand over nothing.
  pub rx_loop-Decodes :
      (fuel : ℕ) (src : List ℕ) (d : h.Decoder) (s : S)
      → contract.held d + 8 * length src ≤ fuel
      → (packets : List (List ℕ)) × (last : h.Decoder) × (rx_loop h received size fuel src d s
          ≡ finished (last, hand_over_all received packets s))
        × Decodes h size d src packets last
  unfolding rx_loop
  rx_loop-Decodes fuel [] d s k = ([], d, refl, no_octets d)
  rx_loop-Decodes zero (x ∷ xs) d s k = absurd (omega arith)
  rx_loop-Decodes (suc fuel) (x ∷ xs) d s k =
      let (rv, count, d') = h.isdnhdlc_decode d (x ∷ xs) size in
      let (packets, last, ends, rest) =
        rx_loop-Decodes fuel (drop count (x ∷ xs)) d' (hand_over received rv s)
          (omega (arith, contract.nearer d x xs size)) in
      (
        frames_of rv ++ packets,
        last,
        ends ∙ ap (λ t. finished (last, t)) (sym (hand_over-frames_of received rv packets s)),
        one_call d x xs rv count d' packets last refl rest,
      )
