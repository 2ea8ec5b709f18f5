-- ===== src/Ppp/Examples.antt =====
-- Two packets from pppd, and a buffer that is full.
use ras.Base.{ℕ, zero, suc, ◌≤◌, ◌≡◌, refl, bit_xor, List, [], ◌∷◌, length, arith}
use ras.Ppp.{
  Rfc1662, between_packets, ppp_fcs, fcs_loop, rfc1662_checksum, encode_octet, encode_octets,
  rfc1662_encode, done, stuck, input_loop,
}
use ras.Ppp.Crc.{crc_loop, rfc1662_checksum-crc}
use ras.Ppp.Transfer.{encoded, reads, reads-encoded}
use ras.Ppp.Limits.{length-rfc1662_encode, input_loop_never_ends}

abbrev packets : List (List ℕ)
packets = (0x41 ∷ 0x7e ∷ []) ∷ (0x41 ∷ []) ∷ []

-- The stream in three reads, one of which ends behind an escape.
abbrev chunks : List (List ℕ)
chunks =
    (126 ∷ 65 ∷ 125 ∷ [])
    ∷ (94 ∷ 125 ∷ 32 ∷ 202 ∷ 126 ∷ 126 ∷ [])
    ∷ (65 ∷ 245 ∷ 163 ∷ 126 ∷ [])
    ∷ []

reads-encoded_example : reads chunks [] between_packets ≡ done packets between_packets
unfolding encoded rfc1662_encode encode_octets encode_octet rfc1662_checksum fcs_loop ppp_fcs
reads-encoded_example =
    reads-encoded packets chunks
      (((omega arith, (omega arith, tt)), omega arith), (((omega arith, tt), omega arith), tt))
      (omega arith, (omega arith, (omega arith, tt))) refl

rfc1662_checksum-crc_example :
    rfc1662_checksum (0x41 ∷ 0x7e ∷ []) ≡ bit_xor (crc_loop 0xffff (0x41 ∷ 0x7e ∷ [])) 0xffff
rfc1662_checksum-crc_example =
    rfc1662_checksum-crc (0x41 ∷ 0x7e ∷ []) (omega arith, (omega arith, tt))

length-rfc1662_encode_example :
    (6 ≤ length (rfc1662_encode (0x41 ∷ 0x7e ∷ [])))
    × (length (rfc1662_encode (0x41 ∷ 0x7e ∷ [])) ≤ 10)
length-rfc1662_encode_example = length-rfc1662_encode (0x41 ∷ 0x7e ∷ [])

abbrev octets : ℕ → List ℕ
octets zero = []
octets (suc n) = 0x41 ∷ octets n

abbrev full : Rfc1662
full = record { deframed = octets 2048; escape = 0 }

input_loop_never_ends_example : input_loop 100 (0x41 ∷ 0x42 ∷ []) [] full ≡ stuck [] full
input_loop_never_ends_example =
    input_loop_never_ends 100 0x41 0x42 [] [] full (λ e. absurd (omega arith))
      (λ e. absurd (omega arith)) (omega arith) refl
