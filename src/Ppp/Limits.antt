-- ===== src/Ppp/Limits.antt =====
-- The buffers of src/ppp/pppd.c: how much `pppd_tx_buf` has to hold, and a full `temp_pack_buf`.
use ras.Base.{
  ℕ, zero, suc, ◌+◌, ◌*◌, ◌≤◌, ◌≡◌, ◌≢◌, refl, sym, ap, ◌∙◌, List, [], ◌∷◌, ◌++◌, length,
  length-append, arith,
}
use ras.Ppp.Stream.{after_octet, decode_octet}
use ras.Ppp.Read.{after_decode, one_round}
use ras.Ppp.{
  ppp_flag, ppp_escape, temp_pack_size, Rfc1662, too_many, take_octet, stuck, input_loop,
  encode_octet, encode_octets, fcs_octets, rfc1662_encode, rfc1662_checksum,
}

length-encode_octet : (e : ℕ) → (1 ≤ length (encode_octet e)) × (length (encode_octet e) ≤ 2)
unfolding encode_octet
length-encode_octet e = (ground arith, ground arith)

length-encode_octets :
    (es : List ℕ)
    → (length es ≤ length (encode_octets es)) × (length (encode_octets es) ≤ 2 * length es)
unfolding encode_octets
length-encode_octets [] = (omega arith, omega arith)
length-encode_octets (e ∷ es) =
    let both = length-append (encode_octet e) (encode_octets es) in
    let (one_low, one_high) = length-encode_octet e in
    let (low, high) = length-encode_octets es in (omega (arith, both), omega (arith, both))

-- What is written into `pppd_tx_buf` for a packet is at least the packet and four octets, and at most
-- twice the packet and six octets: 1021 octets fit the 2048 of the buffer whatever they are, and 2045
-- never do.
pub length-rfc1662_encode :
    (raw_in : List ℕ)
    → (length raw_in + 4 ≤ length (rfc1662_encode raw_in))
      × (length (rfc1662_encode raw_in) ≤ 2 * length raw_in + 6)
unfolding rfc1662_encode
length-rfc1662_encode raw_in =
    let fcs = rfc1662_checksum raw_in in
    let body = raw_in ++ fcs_octets fcs in
    let framed = length-append (encode_octets body) (ppp_flag ∷ []) in
    let summed = length-append raw_in (fcs_octets fcs) in
    let (low, high) = length-encode_octets body in
    (omega (arith, framed, summed), omega (arith, framed, summed))

take_too_many :
    (ch : ℕ) (s : Rfc1662)
    → ch ≢ ppp_flag
    → ch ≢ ppp_escape
    → temp_pack_size ≤ length s.deframed
    → take_octet temp_pack_size ch s ≡ too_many (record s { escape = 0 })
unfolding take_octet
take_too_many ch s h k l = ground arith

-- Let `temp_pack_buf` be full, and let the next octet of a read be neither a flag nor an escape, with
-- more behind it. Then no number of rounds takes the loop of `pppd_input_cb` to its end: the decoder
-- returns -EINVAL with a count of 0, and the same octet is read again.
pub input_loop_never_ends :
    (fuel ch next : ℕ) (rest : List ℕ) (queued : List (List ℕ)) (s : Rfc1662)
    → ch ≢ ppp_flag
    → ch ≢ ppp_escape
    → temp_pack_size ≤ length s.deframed
    → s.escape ≡ 0
    → input_loop fuel (ch ∷ next ∷ rest) queued s ≡ stuck queued s
unfolding input_loop after_decode after_octet
input_loop_never_ends zero ch next rest queued s h k l e = refl
input_loop_never_ends (suc fuel) ch next rest queued s h k l e =
    one_round fuel (ch ∷ next ∷ rest) queued s _ (omega arith)
      (decode_octet 0 0 ch (next ∷ rest) s _ (take_too_many ch s h k l))
    ∙ (ap (λ t. input_loop fuel (ch ∷ next ∷ rest) queued (record s { escape = t })) (sym e)
        ∙ input_loop_never_ends fuel ch next rest queued s h k l e)
